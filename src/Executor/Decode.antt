-- ===== src/Executor/Decode.antt =====
-- decode.go: the widened pod fields become concrete values, or an error that names the first item
-- that does not decode.
use sudo_service.Prelude.{ℕ, suc, String, List, [], ◌∷◌, decimal}
use sudo_service.Types.{
  Raw, blank, malformed, decodes, SudoRequest, errorf, wrapf, Result, ok, err, ◌>>=◌,
}
use sudo_service.Executor.Manifest.{PodExtras}

-- `i` is the index of the first item; blank items count. What json.Unmarshal says is not kept.
unfoldable pub decode_from : {A : Type 0} → ℕ → List (Raw A) → Result (List A)
decode_from i [] = ok []
decode_from i (blank ∷ raw) = decode_from (suc i) raw
decode_from i (malformed ∷ raw) = err (errorf "item %d: %w" (decimal i ∷ []))
decode_from i (decodes v ∷ raw) = do rest ← decode_from (suc i) raw; ok (v ∷ rest)

abbrev pub decode_raw_list : {A : Type 0} → List (Raw A) → Result (List A)
decode_raw_list raw = decode_from 0 raw

abbrev pub named : {A : Type 0} → String → Result A → Result A
named field (ok a) = ok a
named field (err e) = err (wrapf field [] e)

unfoldable pub decode_pod_extras : SudoRequest → Result PodExtras
decode_pod_extras sr = do
  env ← named "env: %w" (decode_raw_list sr.spec.env)
  env_from ← named "envFrom: %w" (decode_raw_list sr.spec.env_from)
  volumes ← named "volumes: %w" (decode_raw_list sr.spec.volumes)
  volume_mounts ← named "volumeMounts: %w" (decode_raw_list sr.spec.volume_mounts)
  init_containers ← named "initContainers: %w" (decode_raw_list sr.spec.init_containers)
  image_pull_secrets ← named "imagePullSecrets: %w" (decode_raw_list sr.spec.image_pull_secrets)
  ok (record {
    env = env;
    env_from = env_from;
    volumes = volumes;
    volume_mounts = volume_mounts;
    init_containers = init_containers;
    image_pull_secrets = image_pull_secrets;
  })
