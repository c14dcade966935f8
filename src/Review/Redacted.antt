-- ===== src/Review/Redacted.antt =====
-- review.go: the redacted text of a request, which leaves the cluster, does not depend on the literal
-- values of its environment variables.
use sudo_service.Prelude.{
  String, List, [], ◌∷◌, Option, none, some, true, not, ◌≡◌, refl, ap, ◌∙◌, map, if◌then◌else◌,
  trim_right_of,
}
use sudo_service.Types.{SudoRequest, EnvVar, Container, Result, ok, err}
use sudo_service.Executor.Target.{executor_namespace, cluster_admin_enabled}
use sudo_service.Executor.Manifest.{PodExtras}
use sudo_service.Executor.Decode.{decode_pod_extras}
use sudo_service.Review.Describe.{
  describe_resource, describe_field, describe_config_map, describe_env_var, describe_env,
  describe_mounts, describe_env_from,
}
use sudo_service.Review.Extras.{
  SpecExtrasView, volume_lines, init_container_view, init_container_views, decoded,
  new_spec_extras_view, view_text, spec_extras_text,
}
use sudo_service.Review.Revalued.{
  result_map, revalue, revalue_container, revalued, revalue_extras, decode_pod_extras-revalued,
  has_spec_extras-revalued,
}

module _ (v : EnvVar → String) where
  hidden_resource :
      (e : EnvVar) (r : Option String)
      → describe_resource (revalue v e) true r ≡ describe_resource e true r
  unfolding describe_resource
  hidden_resource e none = refl
  hidden_resource e (some r) = refl

  hidden_field :
      (e : EnvVar) (f : Option String)
      → describe_field (revalue v e) true f ≡ describe_field e true f
  unfolding describe_field
  hidden_field e none = hidden_resource e e.resource_field_ref
  hidden_field e (some f) = refl

  hidden_config_map :
      (e : EnvVar) (m : Option (String × String))
      → describe_config_map (revalue v e) true m ≡ describe_config_map e true m
  unfolding describe_config_map
  hidden_config_map e none = hidden_field e e.field_ref
  hidden_config_map e (some (name, key)) = refl

  hidden :
      (e : EnvVar) (s : Option String)
      → describe_env_var (revalue v e) true s ≡ describe_env_var e true s
  unfolding describe_env_var
  hidden e none = hidden_config_map e e.config_map_key_ref
  hidden e (some name) = refl

  describe_env-map :
      (es : List EnvVar) → describe_env (map (revalue v) es) true ≡ describe_env es true
  unfolding describe_env
  describe_env-map [] = refl
  describe_env-map (e ∷ es) = λ i. hidden e e.secret_key_ref i ∷ describe_env-map es i

  init_container_views-map :
      (cs : List Container)
      → init_container_views true (map (revalue_container v) cs) ≡ init_container_views true cs
  unfolding init_container_views
  init_container_views-map [] = refl
  init_container_views-map (c ∷ cs) = λ i.
      record (init_container_view true c) { env = describe_env-map c.env i }
      ∷ init_container_views-map cs i

  decoded-revalued :
      (r : Result PodExtras)
      → decoded (result_map (revalue_extras v) r) ≡ revalue_extras v (decoded r)
  decoded-revalued (ok x) = refl
  decoded-revalued (err e) = refl

  decoded_extras :
      (sr : SudoRequest)
      → decoded (decode_pod_extras (revalued v sr))
        ≡ revalue_extras v (decoded (decode_pod_extras sr))
  decoded_extras sr =
      ap decoded (decode_pod_extras-revalued v sr) ∙ decoded-revalued (decode_pod_extras sr)

  -- The view of a request's fields, for the fields as they decode.
  abbrev view_with : SudoRequest → String → PodExtras → SpecExtrasView
  view_with sr own x = record (new_spec_extras_view sr true own) {
    volumes = volume_lines x.volumes;
    mounts = describe_mounts x.volume_mounts;
    env = describe_env x.env true;
    env_from = describe_env_from x.env_from;
    image_pull_secrets = x.image_pull_secrets;
    init_containers = init_container_views true x.init_containers;
  }

  new_spec_extras_view-revalued :
      (sr : SudoRequest) (own : String)
      → new_spec_extras_view (revalued v sr) true own ≡ new_spec_extras_view sr true own
  unfolding new_spec_extras_view executor_namespace cluster_admin_enabled
  new_spec_extras_view-revalued sr own =
      let x = decoded (decode_pod_extras sr) in
      ap (view_with sr own) (decoded_extras sr) ∙ λ i. record (new_spec_extras_view sr true own) {
        env = describe_env-map x.env i;
        init_containers = init_container_views-map x.init_containers i;
      }

  pub spec_extras_text-revalued :
      (sr : SudoRequest) (own : String)
      → spec_extras_text (revalued v sr) true own ≡ spec_extras_text sr true own
  unfolding spec_extras_text
  spec_extras_text-revalued sr own = λ i.
      if not (has_spec_extras-revalued v sr i)
      then ""
      else trim_right_of 10 (view_text (new_spec_extras_view-revalued sr own i))

-- The request with all literal values of environment variables blanked.
abbrev pub public_part : SudoRequest → SudoRequest
public_part sr = revalued (λ _. "") sr
