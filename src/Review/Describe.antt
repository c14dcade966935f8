-- ===== src/Review/Describe.antt =====
-- review.go: one line for each part of a pod that a request asks for.
use sudo_service.Prelude.{
  String, List, [], ◌∷◌, Option, none, some, ◌++◌, Bool, true, false, not, is_cons, is_empty,
  if◌then◌else◌, ◌<>◌, join,
}
use sudo_service.Types.{EnvVar, EnvFromSource, Volume, VolumeMount}

abbrev pub describe_literal : EnvVar → Bool → String
describe_literal e redact = if redact then e.name <> "=<redacted>" else e.name <> "=" <> e.value

-- The cases of the switch below the ones before.
unfoldable pub describe_resource : EnvVar → Bool → Option String → String
describe_resource e redact (some r) = e.name <> " <- resource:" <> r
describe_resource e redact none = describe_literal e redact

unfoldable pub describe_field : EnvVar → Bool → Option String → String
unfolding describe_resource
describe_field e redact (some f) = e.name <> " <- field:" <> f
describe_field e redact none = describe_resource e redact e.resource_field_ref

unfoldable pub describe_config_map : EnvVar → Bool → Option (String × String) → String
unfolding describe_field
describe_config_map e redact (some (name, key)) = e.name <> " <- configMap/" <> name <> ":" <> key
describe_config_map e redact none = describe_field e redact e.field_ref

unfoldable pub describe_env_var : EnvVar → Bool → Option String → String
unfolding describe_config_map
describe_env_var e redact (some name) = e.name <> " <- secret/" <> name <> ":" <> e.secret_key
describe_env_var e redact none = describe_config_map e redact e.config_map_key_ref

unfoldable pub describe_env : List EnvVar → Bool → List String
unfolding describe_env_var
describe_env [] redact = []
describe_env (e ∷ es) redact = describe_env_var e redact e.secret_key_ref ∷ describe_env es redact

unfoldable pub describe_mount : VolumeMount → String
describe_mount m =
    let ro = if m.read_only then " (ro)" else "" in
    let sub = if not (is_empty m.sub_path) then " [" <> m.sub_path <> "]" else "" in
    m.mount_path <> " <- " <> m.name <> sub <> ro

unfoldable pub describe_mounts : List VolumeMount → List String
unfolding describe_mount
describe_mounts [] = []
describe_mounts (m ∷ ms) = describe_mount m ∷ describe_mounts ms

unfoldable pub describe_source : Option String → Option String → String → List String
describe_source (some name) config_map prefix = ("secret/" <> name <> prefix) ∷ []
describe_source none (some name) prefix = ("configMap/" <> name <> prefix) ∷ []
describe_source none none prefix = []

-- A source of neither kind has no line.
unfoldable pub describe_env_from : List EnvFromSource → List String
unfolding describe_source
describe_env_from [] = []
describe_env_from (ef ∷ sources) =
    let prefix = if not (is_empty ef.prefix) then " prefix=" <> ef.prefix else "" in
    describe_source ef.secret_ref ef.config_map_ref prefix ++ describe_env_from sources

unfoldable pub key_paths : List (String × String) → List String
key_paths [] = []
key_paths ((key, path) ∷ items) = (key <> "->" <> path) ∷ key_paths items

unfoldable pub key_path_items : List (String × String) → String
unfolding key_paths
key_path_items items =
    if not (is_cons items) then "" else " [" <> join ", " (key_paths items) <> "]"

abbrev pub or_no_limit : Option String → String
or_no_limit none = "no sizeLimit"
or_no_limit (some size) = size

-- The cases of describeVolumeSource from the claim on, the ConfigMap on, and the Secret on.
unfoldable pub describe_claim : Volume → Option String → String × Bool
describe_claim v (some claim) =
    ("pvc/" <> claim <> (if v.claim_read_only then " (ro)" else ""), true)
describe_claim v none =
    if v.projected
    then ("projected", false)
    else if v.host_path
    then ("hostPath:" <> v.host_path_path, false)
    else ("unknown", false)

unfoldable pub describe_config_map_volume : Volume → Option String → String × Bool
unfolding describe_claim
describe_config_map_volume v (some name) =
    ("configMap/" <> name <> key_path_items v.config_map_items, true)
describe_config_map_volume v none = describe_claim v v.persistent_volume_claim

unfoldable pub describe_secret_volume : Volume → Option String → String × Bool
unfolding describe_config_map_volume
describe_secret_volume v (some name) = ("secret/" <> name <> key_path_items v.secret_items, true)
describe_secret_volume v none = describe_config_map_volume v v.config_map

-- The description of the source of a volume, and whether the source is permitted.
unfoldable pub describe_volume_source : Volume → String × Bool
unfolding describe_secret_volume
describe_volume_source v =
    if v.empty_dir
    then ("emptyDir (" <> or_no_limit v.size_limit <> ")", true)
    else describe_secret_volume v v.secret
