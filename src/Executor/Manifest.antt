-- ===== src/Executor/Manifest.antt =====
-- executor.go: buildExecutorJob. Parts of the manifest that are the same constants for every
-- request (resource requests, the hardened security context, the labels) are not repeated here,
-- except the flags that name them.
use sudo_service.Prelude.{
  ℕ, String, List, [], ◌∷◌, ◌++◌, Option, none, some, Bool, true, false, ◌||◌, not, map, is_empty,
  ltb, ◌===◌, if◌then◌else◌,
}
use sudo_service.Types.{
  Container, EnvVar, EnvFromSource, Volume, VolumeMount, SudoRequest, executor_job_ttl_floor,
}
use sudo_service.Cluster.{OwnerReference}
use sudo_service.Profiles.{image_for}
use sudo_service.AutoApprove.{AutoApproveRule}
use sudo_service.Executor.Target.{
  executor_service_account, executor_command, ttl_seconds_after_approval, owner_ref,
  stdin_mount_dir,
}
use sudo_service.Executor.Scratch.{Stamped, stamp_scratch, tmp_volume_name, home_volume_name}

-- decode.go, podExtras.
pub record PodExtras : Type 0 where
  pub env : List EnvVar
  pub env_from : List EnvFromSource
  pub volumes : List Volume
  pub volume_mounts : List VolumeMount
  pub init_containers : List Container
  pub image_pull_secrets : List String

-- A container with the controller's security context and resource requests stamped on it.
pub record Hardened : Type 0 where
  pub container : Container
  pub open container use *
  pub allow_privilege_escalation : Bool
  pub read_only_root_filesystem : Bool
  pub drop_all_capabilities : Bool

pub record JobManifest : Type 0 where
  pub name : String
  pub namespace : String
  pub backoff_limit : ℕ
  pub ttl_seconds_after_finished : ℕ
  pub restart_never : Bool
  pub service_account_name : String
  pub automount_service_account_token : Option Bool
  pub image_pull_secrets : List String
  pub run_as_non_root : Bool
  pub run_as_user : ℕ
  pub init_containers : List Hardened
  pub container : Hardened
  pub volumes : List Volume
  pub owner_references : List OwnerReference

abbrev pub stdin_volume_name : String
stdin_volume_name = "sudo-service-stdin"

abbrev pub stdin_mount : VolumeMount
stdin_mount = record {
  name = stdin_volume_name;
  mount_path = stdin_mount_dir;
  sub_path = "";
  read_only = true;
  other_fields = false;
}

abbrev pub plain_volume : String → Volume
plain_volume name = record {
  name = name;
  empty_dir = false;
  size_limit = none;
  secret = none;
  secret_items = [];
  config_map = none;
  config_map_items = [];
  persistent_volume_claim = none;
  claim_read_only = false;
  projected = false;
  host_path = false;
  host_path_path = "";
}

abbrev pub stdin_volume : String → Volume
stdin_volume secret_name = record (plain_volume stdin_volume_name) { secret = some secret_name }

abbrev pub scratch_volume : String → Volume
scratch_volume name = record (plain_volume name) { empty_dir = true }

abbrev pub harden : Container → Hardened
harden c = record {
  container = c;
  allow_privilege_escalation = false;
  read_only_root_filesystem = true;
  drop_all_capabilities = true;
}

unfoldable pub stamp_all : List Container → List Stamped
stamp_all [] = []
stamp_all (c ∷ cs) = stamp_scratch c ∷ stamp_all cs

unfoldable pub used_tmp_any : List Stamped → Bool
used_tmp_any [] = false
used_tmp_any (s ∷ ss) = s.used_tmp || used_tmp_any ss

unfoldable pub used_home_any : List Stamped → Bool
used_home_any [] = false
used_home_any (s ∷ ss) = s.used_home || used_home_any ss

unfoldable pub job_ttl : ℕ → ℕ
job_ttl ttl = if ltb ttl executor_job_ttl_floor then executor_job_ttl_floor else ttl

unfoldable pub executor_container :
    (String → Option (List String)) → List AutoApproveRule → SudoRequest → PodExtras → Container
executor_container shlex_split rules sr extras = record {
  name = "executor";
  image = image_for sr;
  command = executor_command shlex_split rules sr;
  args = [];
  env = extras.env;
  env_from = extras.env_from;
  volume_mounts =
      if not (is_empty sr.spec.stdin)
      then extras.volume_mounts ++ stdin_mount ∷ []
      else extras.volume_mounts;
  other_fields = false;
}

unfoldable pub job_volumes : SudoRequest → PodExtras → Bool → Bool → List Volume
job_volumes sr extras used_tmp used_home =
    (if not (is_empty sr.spec.stdin)
      then extras.volumes ++ stdin_volume sr.status.stdin_secret_name ∷ []
      else extras.volumes)
    ++ ((if used_tmp then scratch_volume tmp_volume_name ∷ [] else [])
        ++ (if used_home then scratch_volume home_volume_name ∷ [] else []))

unfoldable pub build_executor_job :
    (String → Option (List String))
    → List AutoApproveRule
    → SudoRequest
    → String
    → String
    → PodExtras
    → String
    → JobManifest
unfolding job_ttl
build_executor_job shlex_split rules sr ns name extras controller_namespace =
    let account = executor_service_account sr controller_namespace in
    let executor = stamp_scratch (executor_container shlex_split rules sr extras) in
    let inits = stamp_all extras.init_containers in
    record {
      name = name;
      namespace = ns;
      backoff_limit = 0;
      ttl_seconds_after_finished = job_ttl (ttl_seconds_after_approval sr);
      restart_never = true;
      service_account_name = account.0;
      automount_service_account_token = account.1;
      image_pull_secrets = extras.image_pull_secrets;
      run_as_non_root = true;
      run_as_user = 1000;
      init_containers = map (λ s. harden s.container) inits;
      container = harden executor.container;
      volumes =
          job_volumes sr extras (executor.used_tmp || used_tmp_any inits)
            (executor.used_home || used_home_any inits);
      owner_references = if ns === controller_namespace then owner_ref sr ∷ [] else [];
    }
