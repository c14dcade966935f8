-- ===== src/Review/Extras.antt =====
-- review.go: newSpecExtrasView, specExtrasText and displayPodTemplate up to its YAML.
use sudo_service.Prelude.{
  String, List, [], ◌∷◌, ◌++◌, Option, Bool, ◌&&◌, not, is_cons, is_empty, map, if◌then◌else◌, ◌<>◌,
  join, trim_right_of,
}
use sudo_service.Types.{SudoRequest, EnvVar, Volume, Container, Result, ok, err, ◌>>=◌}
use sudo_service.Executor.Target.{
  executor_namespace, cluster_admin_enabled, has_spec_extras, is_set,
}
use sudo_service.Executor.Manifest.{PodExtras, Hardened, JobManifest, build_executor_job}
use sudo_service.Executor.Decode.{decode_pod_extras}
use sudo_service.AutoApprove.{AutoApproveRule}
use sudo_service.Review.Shell.{shell_join}
use sudo_service.Review.Describe.{
  describe_env, describe_mounts, describe_env_from, describe_volume_source,
}

pub record InitContainerView : Type 0 where
  pub name : String
  pub image : String
  pub command : String
  pub mounts : List String
  pub env : List String
  pub env_from : List String

pub record SpecExtrasView : Type 0 where
  pub namespace : String
  pub cluster_admin : Bool
  pub stdin : Bool
  pub volumes : List String
  pub mounts : List String
  pub env : List String
  pub env_from : List String
  pub image_pull_secrets : List String
  pub init_containers : List InitContainerView

unfoldable pub volume_lines : List Volume → List String
volume_lines [] = []
volume_lines (v ∷ vs) = (v.name <> ": " <> (describe_volume_source v).0) ∷ volume_lines vs

abbrev pub init_container_view : Bool → Container → InitContainerView
init_container_view redact c = record {
  name = c.name;
  image = c.image;
  command = shell_join (c.command ++ c.args);
  mounts = describe_mounts c.volume_mounts;
  env = describe_env c.env redact;
  env_from = describe_env_from c.env_from;
}

unfoldable pub init_container_views : Bool → List Container → List InitContainerView
init_container_views redact [] = []
init_container_views redact (c ∷ cs) = init_container_view redact c ∷ init_container_views redact cs

abbrev pub no_extras : PodExtras
no_extras = record {
  env = [];
  env_from = [];
  volumes = [];
  volume_mounts = [];
  init_containers = [];
  image_pull_secrets = [];
}

-- Fields that do not decode are shown as if there were none.
abbrev pub decoded : Result PodExtras → PodExtras
decoded (ok extras) = extras
decoded (err e) = no_extras

unfoldable pub new_spec_extras_view : SudoRequest → Bool → String → SpecExtrasView
unfolding volume_lines init_container_views
new_spec_extras_view sr redact own =
    let extras = decoded (decode_pod_extras sr) in
    record {
      namespace = executor_namespace sr own;
      cluster_admin = cluster_admin_enabled sr own;
      stdin = not (is_empty sr.spec.stdin);
      volumes = volume_lines extras.volumes;
      mounts = describe_mounts extras.volume_mounts;
      env = describe_env extras.env redact;
      env_from = describe_env_from extras.env_from;
      image_pull_secrets = extras.image_pull_secrets;
      init_containers = init_container_views redact extras.init_containers;
    }

-- A line with the items, if there are any.
unfoldable pub items_line : String → List String → String
items_line label items = if is_cons items then label <> join ", " items <> "\n" else ""

unfoldable pub init_container_lines : List InitContainerView → String
unfolding items_line
init_container_lines [] = ""
init_container_lines (ic ∷ ics) =
    "initContainer "
    <> ic.name
    <> " ("
    <> ic.image
    <> "): "
    <> ic.command
    <> "\n"
    <> items_line "  mounts: " ic.mounts
    <> items_line "  envFrom: " ic.env_from
    <> items_line "  env: " ic.env
    <> init_container_lines ics

unfoldable pub view_text : SpecExtrasView → String
unfolding items_line init_container_lines
view_text v =
    "namespace: "
    <> v.namespace
    <> "\n"
    <> (if v.cluster_admin
        then "privileges: cluster-admin\n"
        else "privileges: none (namespace default ServiceAccount)\n")
    <> (if v.stdin then "stdin: provided\n" else "")
    <> items_line "volumes: " v.volumes
    <> items_line "mounts: " v.mounts
    <> items_line "envFrom: " v.env_from
    <> items_line "env: " v.env
    <> items_line "imagePullSecrets: " v.image_pull_secrets
    <> init_container_lines v.init_containers

-- 10 is the number of the newline.
unfoldable pub spec_extras_text : SudoRequest → Bool → String → String
unfolding new_spec_extras_view view_text
spec_extras_text sr redact own =
    if not (has_spec_extras sr)
    then ""
    else trim_right_of 10 (view_text (new_spec_extras_view sr redact own))

abbrev pub value_from_is_nil : EnvVar → Bool
value_from_is_nil e =
    not (is_set e.secret_key_ref)
    && not (is_set e.config_map_key_ref)
    && not (is_set e.field_ref)
    && not (is_set e.resource_field_ref)

abbrev pub redacted_value : EnvVar → String
redacted_value e = if not (is_empty e.value) && value_from_is_nil e then "<redacted>" else e.value

unfoldable pub redact_env : List EnvVar → List EnvVar
redact_env [] = []
redact_env (e ∷ es) = record e { value = redacted_value e } ∷ redact_env es

abbrev pub redact_container : Hardened → Hardened
redact_container h = record h {
  container = record (h.container) { env = redact_env h.container.env };
}

unfoldable pub redact_pod_env : JobManifest → JobManifest
unfolding redact_env
redact_pod_env pod = record pod {
  init_containers = map redact_container pod.init_containers;
  container = redact_container pod.container;
}

-- A request with stdin shows a placeholder for the Secret that is not minted yet.
abbrev pub with_stdin_placeholder : SudoRequest → SudoRequest
with_stdin_placeholder sr =
    if not (is_empty sr.spec.stdin) && is_empty sr.status.stdin_secret_name
    then record sr { status = record (sr.status) { stdin_secret_name = "<minted-at-approval>" } }
    else sr

-- The pod is that of the Job which the executor would run; its YAML is not made here.
unfoldable pub display_pod_template :
    (String → Option (List String))
    → List AutoApproveRule
    → SudoRequest
    → Bool
    → String
    → Result JobManifest
unfolding redact_pod_env
display_pod_template shlex_split rules sr redact own = do
  extras ← decode_pod_extras sr
  let d = with_stdin_placeholder sr
  let job =
      build_executor_job shlex_split rules d (executor_namespace d own) "<minted-at-approval>"
        extras own
  ok (if redact then redact_pod_env job else job)
