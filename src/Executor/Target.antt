-- ===== src/Executor/Target.antt =====
-- executor.go and playbooks.go: where a request runs and under which account, which requests use
-- the widened pod fields, what argv it gets, how long its output is kept.
use sudo_service.Prelude.{
  ℕ, String, List, [], ◌∷◌, Option, none, some, Bool, true, false, ◌||◌, not, is_cons, is_empty,
  byte_len, ltb, ◌===◌, if◌then◌else◌, text_append, text_take, replace_all,
}
use sudo_service.Types.{ℤ, pos, negsuc, SudoRequest, executor_job_ttl, default_post_approval}
use sudo_service.Profiles.{image_for}
use sudo_service.AutoApprove.{AutoApproveRule, get_auto_approve_parsed_command}
use sudo_service.Cluster.{OwnerReference}

unfoldable pub executor_namespace : SudoRequest → String → String
executor_namespace sr controller_namespace =
    if not (is_empty sr.spec.target_namespace)
    then sr.spec.target_namespace
    else controller_namespace

abbrev pub or_true : Option Bool → Bool
or_true none = true
or_true (some b) = b

unfoldable pub cluster_admin_enabled : SudoRequest → String → Bool
unfolding executor_namespace
cluster_admin_enabled sr controller_namespace =
    if not (executor_namespace sr controller_namespace === controller_namespace)
    then false
    else or_true sr.spec.cluster_admin

-- The account and `automountServiceAccountToken`.
unfoldable pub executor_service_account : SudoRequest → String → String × Option Bool
executor_service_account sr controller_namespace =
    if cluster_admin_enabled sr controller_namespace
    then ("sudo-service-executor-sa", none)
    else ("default", some false)

abbrev pub is_set {ℓ} : {A : Type ℓ} → Option A → Bool
is_set none = false
is_set (some a) = true

unfoldable pub has_pod_spec_extras : SudoRequest → Bool
has_pod_spec_extras sr =
    not (is_empty target_namespace)
    || not (is_empty stdin)
    || is_cons env
    || is_cons env_from
    || is_cons volumes
    || is_cons volume_mounts
    || is_cons init_containers
    || is_cons image_pull_secrets
    || is_set cluster_admin
  where
    open sr.spec use {
      target_namespace, stdin, env, env_from, volumes, volume_mounts, init_containers,
      image_pull_secrets, cluster_admin,
    }

unfoldable pub has_spec_extras : SudoRequest → Bool
has_spec_extras sr = is_set sr.spec.playbook || has_pod_spec_extras sr

-- The argv of a request that the allowlist approves.
unfoldable pub auto_approve_tokens :
    (String → Option (List String)) → List AutoApproveRule → SudoRequest → Option (List String)
auto_approve_tokens shlex_split rules sr =
    if has_spec_extras sr
    then none
    else get_auto_approve_parsed_command shlex_split rules sr.spec.command (image_for sr)

abbrev pub stdin_mount_dir : String
stdin_mount_dir = "/var/run/sudo-service"

unfoldable pub shell_command : Option (List String) → SudoRequest → List String
shell_command (some tokens) sr = tokens
shell_command none sr =
    if not (is_empty sr.spec.stdin)
    then "/bin/sh" ∷ "-c" ∷ "exec /bin/sh -c \"$1\" < /var/run/sudo-service/stdin" ∷ "sudo-service"
      ∷ sr.spec.command ∷ []
    else "/bin/sh" ∷ "-c" ∷ sr.spec.command ∷ []

unfoldable pub executor_command :
    (String → Option (List String)) → List AutoApproveRule → SudoRequest → List String
unfolding shell_command
executor_command shlex_split rules sr = shell_command (auto_approve_tokens shlex_split rules sr) sr

-- An int32 clamped to 0 … executor_job_ttl.
unfoldable pub ttl_seconds : Option ℤ → ℕ
ttl_seconds none = default_post_approval
ttl_seconds (some (negsuc n)) = 0
ttl_seconds (some (pos n)) = if ltb executor_job_ttl n then executor_job_ttl else n

abbrev pub ttl_seconds_after_approval : SudoRequest → ℕ
ttl_seconds_after_approval sr = ttl_seconds sr.spec.ttl_seconds_after_approval

-- 45 is the number of the dash.
unfoldable pub resource_name : SudoRequest → String → String
resource_name sr prefix =
    let uid = replace_all 45 "" sr.uid in
    let short = if ltb 12 (byte_len uid) then text_take 12 uid else uid in
    let n = text_append prefix short in if ltb 63 (byte_len n) then text_take 63 n else n

abbrev pub owner_ref : SudoRequest → OwnerReference
owner_ref sr = record {
  api_version = "sudo.andrewgarrett.dev/v1alpha1";
  kind = "SudoRequest";
  name = sr.name;
  uid = sr.uid;
  controller = some true;
}
