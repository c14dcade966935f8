-- ===== src/Review/Displayed.antt =====
-- review.go: the redacted pod that is displayed does not depend on the values that redactPodEnv masks.
use sudo_service.Prelude.{
  String, List, [], ◌∷◌, ◌++◌, Option, none, some, Bool, true, false, ◌&&◌, ◌||◌, not, ◌≡◌, refl,
  sym, ap, ◌∙◌, map, any, is_cons, is_empty, ◌===◌, if◌then◌else◌,
}
use sudo_service.Types.{SudoRequest, EnvVar, Container, Result, ok, err, ◌>>=◌}
use sudo_service.AutoApprove.{AutoApproveRule, get_auto_approve_parsed_command}
use sudo_service.Profiles.{image_for, resolve_executor_profile}
use sudo_service.Executor.Target.{
  has_spec_extras, executor_namespace, executor_command, auto_approve_tokens, shell_command,
  executor_service_account, cluster_admin_enabled,
}
use sudo_service.Executor.Scratch.{
  Stamped, has_env, has_mount_at, mounts_at_or_under, home_env, scratch_mount, home_mount_dir,
  home_volume_name, stamp_home, stamp_tmp, stamp_scratch, tmp_mount_dir, tmp_volume_name,
}
use sudo_service.Executor.Manifest.{
  PodExtras, JobManifest, harden, stamp_all, used_tmp_any, used_home_any, executor_container,
  build_executor_job, job_volumes,
}
use sudo_service.Executor.Decode.{decode_pod_extras}
use sudo_service.Review.Extras.{
  redacted_value, value_from_is_nil, redact_env, redact_container, redact_pod_env,
  with_stdin_placeholder, display_pod_template,
}
use sudo_service.Review.Revalued.{
  result_map, revalue, revalue_container, revalued, revalue_extras, decode_pod_extras-revalued,
  has_spec_extras-revalued,
}

-- Masking twice is masking once.
redacted_value-twice : (e : EnvVar) → redacted_value (revalue redacted_value e) ≡ redacted_value e
redacted_value-twice e = by_tests (is_empty e.value) (value_from_is_nil e) refl
  where
    by_tests :
        (b n : Bool)
        → is_empty e.value ≡ b
        → (if not (is_empty (if not b && n then "<redacted>" else e.value)) && n
            then "<redacted>"
            else (if not b && n then "<redacted>" else e.value))
          ≡ (if not b && n then "<redacted>" else e.value)
    by_tests true n h = ap (λ t. if not t && n then "<redacted>" else e.value) h
    by_tests false true h = refl
    by_tests false false h = ap (λ t. if not t && false then "<redacted>" else e.value) h

redact_env-map : (es : List EnvVar) → redact_env (map (revalue redacted_value) es) ≡ redact_env es
unfolding redact_env
redact_env-map [] = refl
redact_env-map (e ∷ es) = λ i. record e { value = redacted_value-twice e i } ∷ redact_env-map es i

redact_env-append : (xs ys : List EnvVar) → redact_env (xs ++ ys) ≡ redact_env xs ++ redact_env ys
unfolding redact_env
redact_env-append [] ys = refl
redact_env-append (x ∷ xs) ys =
    ap (◌∷◌ (record x { value = redacted_value x })) (redact_env-append xs ys)

has_env-map :
    (v : EnvVar → String) (es : List EnvVar) (name : String)
    → has_env (map (revalue v) es) name ≡ has_env es name
unfolding has_env any
has_env-map v [] name = refl
has_env-map v (e ∷ es) name = ap (λ b. (e.name === name) || b) (has_env-map v es name)

-- The stamped container as it is shown.
abbrev shown : Stamped → Stamped
shown s = record s { container = record (s.container) { env = redact_env s.container.env } }

abbrev masked : Stamped → Stamped
masked s = record s { container = revalue_container redacted_value s.container }

stamp_tmp-masked :
    (c : Container) → stamp_tmp (revalue_container redacted_value c) ≡ masked (stamp_tmp c)
unfolding stamp_tmp
stamp_tmp-masked c = by_test (mounts_at_or_under c.volume_mounts tmp_mount_dir)
  where
    mounted : Container → Container
    mounted c = record c {
      volume_mounts = c.volume_mounts ++ scratch_mount tmp_volume_name tmp_mount_dir ∷ [];
    }

    by_test :
        (b : Bool)
        → (if not b
            then record {
              container = record (revalue_container redacted_value c) {
                volume_mounts = c.volume_mounts ++ scratch_mount tmp_volume_name tmp_mount_dir ∷ [];
              };
              used_tmp = true;
              used_home = false;
            }
            else record {
              container = revalue_container redacted_value c;
              used_tmp = false;
              used_home = false;
            })
          ≡ masked (
              if not b
              then record {
                container = record c {
                  volume_mounts =
                      c.volume_mounts ++ scratch_mount tmp_volume_name tmp_mount_dir ∷ [];
                };
                used_tmp = true;
                used_home = false;
              }
              else record { container = c; used_tmp = false; used_home = false })
    by_test true = refl
    by_test false = refl

-- HOME with its value, behind the other variables.
home_last :
    (es : List EnvVar)
    → redact_env (map (revalue redacted_value) es ++ home_env ∷ [])
      ≡ redact_env (es ++ home_env ∷ [])
home_last es =
    redact_env-append (map (revalue redacted_value) es) (home_env ∷ [])
    ∙ (ap (λ xs. xs ++ redact_env (home_env ∷ [])) (redact_env-map es)
        ∙ sym (redact_env-append es (home_env ∷ [])))

stamp_home-shown : (s : Stamped) → shown (stamp_home (masked s)) ≡ shown (stamp_home s)
unfolding stamp_home
stamp_home-shown s =
    by_tests (has_env (masked s).container.env "HOME" || is_cons s.container.env_from)
      (has_env s.container.env "HOME" || is_cons s.container.env_from)
      (has_mount_at s.container.volume_mounts home_mount_dir)
      (mounts_at_or_under s.container.volume_mounts home_mount_dir)
      (ap (λ b. b || is_cons s.container.env_from)
        (has_env-map redacted_value s.container.env "HOME"))
  where
    -- The branches of stampScratch for HOME.
    branches : Bool → Bool → Bool → Stamped → Stamped
    branches set at under s =
        if set
        then s
        else if at
        then record s {
          container = record (s.container) { env = s.container.env ++ home_env ∷ [] };
        }
        else if under
        then s
        else record s {
          container = record (s.container) {
            volume_mounts =
                s.container.volume_mounts ++ scratch_mount home_volume_name home_mount_dir ∷ [];
            env = s.container.env ++ home_env ∷ [];
          };
          used_home = true;
        }

    by_tests :
        (set' set at under : Bool)
        → set' ≡ set
        → shown (branches set' at under (masked s)) ≡ shown (branches set at under s)
    by_tests set' set at under h =
        ap (λ b. shown (branches b at under (masked s))) h ∙ same set at under
      where
        -- The container with these variables.
        with_env : Stamped → List EnvVar → Stamped
        with_env t es = record t { container = record (t.container) { env = es } }

        same :
            (set at under : Bool)
            → shown (branches set at under (masked s)) ≡ shown (branches set at under s)
        same true at under = ap (with_env s) (redact_env-map s.container.env)
        same false true under = ap (with_env s) (home_last s.container.env)
        same false false true = ap (with_env s) (redact_env-map s.container.env)
        same false false false =
            ap (with_env (branches false false false s)) (home_last s.container.env)

stamp_scratch-shown :
    (c : Container)
    → shown (stamp_scratch (revalue_container redacted_value c)) ≡ shown (stamp_scratch c)
unfolding stamp_scratch
stamp_scratch-shown c =
    ap (λ s. shown (stamp_home s)) (stamp_tmp-masked c) ∙ stamp_home-shown (stamp_tmp c)

stamp_all-shown :
    (cs : List Container)
    → map shown (stamp_all (map (revalue_container redacted_value) cs)) ≡ map shown (stamp_all cs)
unfolding stamp_all
stamp_all-shown [] = refl
stamp_all-shown (c ∷ cs) = λ i. stamp_scratch-shown c i ∷ stamp_all-shown cs i

used_tmp_any-shown : (ss : List Stamped) → used_tmp_any ss ≡ used_tmp_any (map shown ss)
unfolding used_tmp_any
used_tmp_any-shown [] = refl
used_tmp_any-shown (s ∷ ss) = ap (λ b. s.used_tmp || b) (used_tmp_any-shown ss)

used_home_any-shown : (ss : List Stamped) → used_home_any ss ≡ used_home_any (map shown ss)
unfolding used_home_any
used_home_any-shown [] = refl
used_home_any-shown (s ∷ ss) = ap (λ b. s.used_home || b) (used_home_any-shown ss)

harden-shown :
    (ss : List Stamped)
    → map redact_container (map (λ s. harden s.container) ss)
      ≡ map (λ s. harden s.container) (map shown ss)
harden-shown [] = refl
harden-shown (s ∷ ss) = ap (◌∷◌ (harden (shown s).container)) (harden-shown ss)

module _ (shlex_split : String → Option (List String)) (rules : List AutoApproveRule)
    (d : SudoRequest) where
  executor_command-revalued :
      executor_command shlex_split rules (revalued redacted_value d)
      ≡ executor_command shlex_split rules d
  unfolding executor_command auto_approve_tokens shell_command image_for resolve_executor_profile
  executor_command-revalued =
      ap (λ b. shell_command (if b then none else tokens) (revalued redacted_value d))
        (has_spec_extras-revalued redacted_value d)
      ∙ same (if has_spec_extras d then none else tokens)
    where
      tokens : Option (List String)
      tokens = get_auto_approve_parsed_command shlex_split rules d.spec.command (image_for d)

      same :
          (o : Option (List String))
          → shell_command o (revalued redacted_value d) ≡ shell_command o d
      same none = refl
      same (some ts) = refl

  module _ (ns name own : String) (x : PodExtras) where
    -- The Job's pod around its stamped containers.
    pod_of : Stamped → List Stamped → JobManifest
    pod_of executor inits = record (build_executor_job shlex_split rules d ns name x own) {
      init_containers = map (λ s. harden s.container) inits;
      container = harden executor.container;
      volumes =
          job_volumes d x (executor.used_tmp || used_tmp_any inits)
            (executor.used_home || used_home_any inits);
    }

    pod_of-shown :
        (executor : Stamped) (inits : List Stamped)
        → redact_pod_env (pod_of executor inits) ≡ pod_of (shown executor) (map shown inits)
    unfolding redact_pod_env pod_of
    pod_of-shown executor inits = λ i. record (pod_of (shown executor) inits) {
      init_containers = harden-shown inits i;
      volumes =
          job_volumes d x (executor.used_tmp || used_tmp_any-shown inits i)
            (executor.used_home || used_home_any-shown inits i);
    }

    container_of : List String → Container
    container_of command = record (executor_container shlex_split rules d x) { command = command }

    build_executor_job-shown :
        redact_pod_env (
          build_executor_job shlex_split rules
            (revalued redacted_value d)
            ns
            name
            (revalue_extras redacted_value x)
            own)
        ≡ redact_pod_env (build_executor_job shlex_split rules d ns name x own)
    unfolding build_executor_job pod_of container_of executor_container job_volumes image_for
        resolve_executor_profile executor_service_account cluster_admin_enabled executor_namespace
    build_executor_job-shown =
        pod_of-shown
          (stamp_scratch (
            revalue_container redacted_value
              (container_of (executor_command shlex_split rules (revalued redacted_value d)))))
          (stamp_all (map (revalue_container redacted_value) x.init_containers))
        ∙ ((λ i.
              pod_of (stamp_scratch-shown (container_of (executor_command-revalued i)) i)
                (stamp_all-shown x.init_containers i))
            ∙ sym (
                pod_of-shown (stamp_scratch (executor_container shlex_split rules d x))
                  (stamp_all x.init_containers)))

with_stdin_placeholder-revalued :
    (sr : SudoRequest)
    → with_stdin_placeholder (revalued redacted_value sr)
      ≡ revalued redacted_value (with_stdin_placeholder sr)
with_stdin_placeholder-revalued sr =
    by_test (not (is_empty sr.spec.stdin) && is_empty sr.status.stdin_secret_name)
  where
    by_test :
        (b : Bool)
        → (if b
            then record (revalued redacted_value sr) {
              status = record (sr.status) { stdin_secret_name = "<minted-at-approval>" };
            }
            else revalued redacted_value sr)
          ≡ revalued redacted_value (
              if b
              then record sr {
                status = record (sr.status) { stdin_secret_name = "<minted-at-approval>" };
              }
              else sr)
    by_test true = refl
    by_test false = refl

pub display_pod_template-revalued :
    (shlex_split : String → Option (List String)) (rules : List AutoApproveRule) (sr : SudoRequest)
    (own : String)
    → display_pod_template shlex_split rules (revalued redacted_value sr) true own
      ≡ display_pod_template shlex_split rules sr true own
unfolding display_pod_template executor_namespace
display_pod_template-revalued shlex_split rules sr own =
    (λ i. decode_pod_extras-revalued redacted_value sr i >>= λ x.
    ok (redact_pod_env (job (with_stdin_placeholder-revalued sr i) x)))
    ∙ by_fields (decode_pod_extras sr)
  where
    job : SudoRequest → PodExtras → JobManifest
    job d x =
        build_executor_job shlex_split rules d (executor_namespace d own) "<minted-at-approval>" x
          own

    by_fields :
        (r : Result PodExtras)
        → (result_map (revalue_extras redacted_value) r >>= λ x.
            ok (redact_pod_env (job (revalued redacted_value (with_stdin_placeholder sr)) x)))
          ≡ (r >>= λ x. ok (redact_pod_env (job (with_stdin_placeholder sr) x)))
    by_fields (err e) = refl
    by_fields (ok x) = ap Result.ok (
        build_executor_job-shown shlex_split rules (with_stdin_placeholder sr)
          (executor_namespace (with_stdin_placeholder sr) own) "<minted-at-approval>" own x)
