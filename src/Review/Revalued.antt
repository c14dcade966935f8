-- ===== src/Review/Revalued.antt =====
-- A request with other values of its environment variables decodes to the pod fields with these values.
use sudo_service.Prelude.{ℕ, suc, String, List, [], ◌∷◌, arith, ◌≡◌, refl, ap, ◌∙◌, map, is_cons}
use sudo_service.Types.{
  Raw, blank, malformed, decodes, SudoRequest, EnvVar, EnvFromSource, Volume, VolumeMount,
  Container, Result, ok, err, ◌>>=◌,
}
use sudo_service.Executor.Target.{has_spec_extras, has_pod_spec_extras}
use sudo_service.Executor.Manifest.{PodExtras}
use sudo_service.Executor.Decode.{decode_from, decode_raw_list, decode_pod_extras, named}

abbrev pub raw_map : {A : Type 0} → (A → A) → Raw A → Raw A
raw_map f blank = blank
raw_map f malformed = malformed
raw_map f (decodes a) = decodes (f a)

abbrev pub result_map : {A B : Type 0} → (A → B) → Result A → Result B
result_map f (ok a) = ok (f a)
result_map f (err e) = err e

decode_from-map :
    {A : Type 0} (f : A → A) (i : ℕ) (raw : List (Raw A))
    → decode_from i (map (raw_map f) raw) ≡ result_map (map f) (decode_from i raw)
unfolding decode_from
decode_from-map f i [] = refl
decode_from-map f i (blank ∷ raw) = decode_from-map f (suc i) raw
decode_from-map f i (malformed ∷ raw) = refl
decode_from-map f i (decodes v ∷ raw) =
    ap (λ r. r >>= λ rest. ok (f v ∷ rest)) (decode_from-map f (suc i) raw)
    ∙ commute (decode_from (suc i) raw)
  where
    commute :
        (r : Result (List _))
        → (result_map (map f) r >>= λ rest. ok (f v ∷ rest))
          ≡ result_map (map f) (r >>= λ rest. ok (v ∷ rest))
    commute (ok rest) = refl
    commute (err e) = refl

is_cons-map : {A : Type 0} (f : A → A) (xs : List A) → is_cons (map f xs) ≡ is_cons xs
is_cons-map f [] = refl
is_cons-map f (x ∷ xs) = refl

named-map :
    {A : Type 0} (f : A → A) (field : String) (raw : List (Raw A))
    → named field (decode_raw_list (map (raw_map f) raw))
      ≡ result_map (map f) (named field (decode_raw_list raw))
named-map f field raw = ap (named field) (decode_from-map f 0 raw) ∙ commute (decode_raw_list raw)
  where
    commute :
        (r : Result (List _))
        → named field (result_map (map f) r) ≡ result_map (map f) (named field r)
    commute (ok a) = refl
    commute (err e) = refl

-- decodePodExtras on what the six fields decode to.
abbrev gather :
    Result (List EnvVar)
    → Result (List EnvFromSource)
    → Result (List Volume)
    → Result (List VolumeMount)
    → Result (List Container)
    → Result (List String)
    → Result PodExtras
gather a b c d e f = do
  env ← a
  env_from ← b
  volumes ← c
  volume_mounts ← d
  init_containers ← e
  image_pull_secrets ← f
  ok (record {
    env = env;
    env_from = env_from;
    volumes = volumes;
    volume_mounts = volume_mounts;
    init_containers = init_containers;
    image_pull_secrets = image_pull_secrets;
  })

module _ (v : EnvVar → String) where
  -- The variable with the value that `v` gives it.
  abbrev pub revalue : EnvVar → EnvVar
  revalue e = record e { value = v e }

  abbrev pub revalue_container : Container → Container
  revalue_container c = record c { env = map revalue c.env }

  -- The request with the values of all environment variables replaced.
  abbrev pub revalued : SudoRequest → SudoRequest
  revalued sr = record sr {
    spec = record (sr.spec) {
      env = map (raw_map revalue) sr.spec.env;
      init_containers = map (raw_map revalue_container) sr.spec.init_containers;
    };
  }

  abbrev pub revalue_extras : PodExtras → PodExtras
  revalue_extras x = record x {
    env = map revalue x.env;
    init_containers = map revalue_container x.init_containers;
  }

  gather-revalued :
      (a : Result (List EnvVar)) (b : Result (List EnvFromSource)) (c : Result (List Volume))
      (d : Result (List VolumeMount)) (e : Result (List Container)) (f : Result (List String))
      → gather (result_map (map revalue) a) b c d (result_map (map revalue_container) e) f
        ≡ result_map revalue_extras (gather a b c d e f)
  gather-revalued (err x) b c d e f = refl
  gather-revalued (ok a) (err x) c d e f = refl
  gather-revalued (ok a) (ok b) (err x) d e f = refl
  gather-revalued (ok a) (ok b) (ok c) (err x) e f = refl
  gather-revalued (ok a) (ok b) (ok c) (ok d) (err x) f = refl
  gather-revalued (ok a) (ok b) (ok c) (ok d) (ok e) (err x) = refl
  gather-revalued (ok a) (ok b) (ok c) (ok d) (ok e) (ok f) = refl

  pub decode_pod_extras-revalued :
      (sr : SudoRequest)
      → decode_pod_extras (revalued sr) ≡ result_map revalue_extras (decode_pod_extras sr)
  unfolding decode_pod_extras
  decode_pod_extras-revalued sr =
      (λ i.
        gather (named-map revalue "env: %w" sr.spec.env i)
          (named "envFrom: %w" (decode_raw_list sr.spec.env_from))
          (named "volumes: %w" (decode_raw_list sr.spec.volumes))
          (named "volumeMounts: %w" (decode_raw_list sr.spec.volume_mounts))
          (named-map revalue_container "initContainers: %w" sr.spec.init_containers i)
          (named "imagePullSecrets: %w" (decode_raw_list sr.spec.image_pull_secrets)))
      ∙ gather-revalued (named "env: %w" (decode_raw_list sr.spec.env))
          (named "envFrom: %w" (decode_raw_list sr.spec.env_from))
          (named "volumes: %w" (decode_raw_list sr.spec.volumes))
          (named "volumeMounts: %w" (decode_raw_list sr.spec.volume_mounts))
          (named "initContainers: %w" (decode_raw_list sr.spec.init_containers))
          (named "imagePullSecrets: %w" (decode_raw_list sr.spec.image_pull_secrets))

  pub has_spec_extras-revalued :
      (sr : SudoRequest) → has_spec_extras (revalued sr) ≡ has_spec_extras sr
  unfolding has_spec_extras has_pod_spec_extras
  has_spec_extras-revalued sr = ground (
    arith,
    is_cons-map (raw_map revalue) sr.spec.env,
    is_cons-map (raw_map revalue_container) sr.spec.init_containers,
  )
