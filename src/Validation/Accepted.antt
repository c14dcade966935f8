-- ===== src/Validation/Accepted.antt =====
-- What a request that passes validateSpecExtras may contain.
use sudo_service.Prelude.{
  ℕ, String, List, [], ◌∷◌, true, false, not, ◌||◌, ◌≡◌, ◌↔◌, ◌≤◌, refl, arith, All, Distinct,
  is_empty, is_cons, byte_len, ltb, ◌===◌, if◌then◌else◌,
}
use sudo_service.Types.{
  SudoRequest, Volume, VolumeMount, Container, wrapf, Result, ok, err, seq_iff, guard_iff, not_iff,
  max_stdin_bytes,
}
use sudo_service.Executor.Target.{stdin_mount_dir, is_set}
use sudo_service.Review.Describe.{describe_volume_source}
use sudo_service.Executor.Manifest.{PodExtras}
use sudo_service.Executor.Decode.{decode_pod_extras}
use sudo_service.Validation.{
  is_reserved, validate_volume_source, validate_volumes, validate_mount_names, validate_mounts,
  init_mounts_reserved, validate_init_container, validate_init_containers, validate_pull_secrets,
  volume_names, validate_pod_extras, validate_spec_extras,
}
use sudo_service.Validation.Mounts.{Refers, paths, validate_mounts_from_iff}

-- A volume with a name of its own, of a permitted source.
abbrev pub AllowedVolume : Volume → Type 0
AllowedVolume v =
    (is_reserved v.name ≡ false)
    × (is_empty v.name ≡ false)
    × (v.host_path ≡ false)
    × (v.projected ≡ false)
    × ((v.empty_dir || is_set v.secret || is_set v.config_map || is_set v.persistent_volume_claim)
        ≡ true)

abbrev pub AllowedMount : VolumeMount → Type 0
AllowedMount m = (is_reserved m.name ≡ false) × ((m.mount_path === stdin_mount_dir) ≡ false)

-- An init container that has a name, an image and a command, and mounts the pod's own volumes.
abbrev pub AllowedInit : List String → Container → Type 0
AllowedInit names c =
    (is_empty c.name ≡ false)
    × (is_empty c.image ≡ false)
    × (is_cons c.command ≡ true)
    × (c.other_fields ≡ false)
    × All (λ m. is_reserved m.name ≡ false) c.volume_mounts
    × All (Refers names) c.volume_mounts
    × Distinct (paths c.volume_mounts)

-- The sources that are permitted are the ones with a description of their own.
describe_volume_source_iff :
    (v : Volume)
    → ((describe_volume_source v).1 ≡ true) ↔ (
        (v.empty_dir || is_set v.secret || is_set v.config_map || is_set v.persistent_volume_claim)
        ≡ true)
unfolding describe_volume_source
describe_volume_source_iff v = (λ h. ground (arith, h), λ h. ground (arith, h))

validate_volumes-Allowed : (vs : List Volume) → validate_volumes vs ≡ ok tt → All AllowedVolume vs
unfolding validate_volumes validate_volume_source
validate_volumes-Allowed [] h = tt
validate_volumes-Allowed (v ∷ vs) h =
    let name = (guard_iff (is_reserved v.name) _ _).0 h in
    let both = (seq_iff (validate_volume_source v) (validate_volumes vs)).0 name.1 in
    let a = (guard_iff (is_empty v.name) _ _).0 both.0 in
    let b = (guard_iff v.host_path _ _).0 a.1 in
    let d = (guard_iff v.projected _ _).0 b.1 in
    let e = (guard_iff (not (describe_volume_source v).1) _ (ok tt)).0 d.1 in
    (
      (
        name.0,
        a.0,
        b.0,
        d.0,
        (describe_volume_source_iff v).0 ((not_iff (describe_volume_source v).1).0 e.0),
      ),
      validate_volumes-Allowed vs both.1,
    )

validate_mount_names-Allowed :
    (ms : List VolumeMount) → validate_mount_names ms ≡ ok tt → All AllowedMount ms
unfolding validate_mount_names
validate_mount_names-Allowed [] h = tt
validate_mount_names-Allowed (m ∷ ms) h =
    let a = (guard_iff (is_reserved m.name) _ _).0 h in
    let b = (guard_iff (m.mount_path === stdin_mount_dir) _ _).0 a.1 in
    ((a.0, b.0), validate_mount_names-Allowed ms b.1)

init_mounts_reserved-false :
    (name : String) (ms : List VolumeMount)
    → init_mounts_reserved name ms ≡ ok tt
    → All (λ m. is_reserved m.name ≡ false) ms
unfolding init_mounts_reserved
init_mounts_reserved-false name [] h = tt
init_mounts_reserved-false name (m ∷ ms) h =
    let a = (guard_iff (is_reserved m.name) _ _).0 h in
    (a.0, init_mounts_reserved-false name ms a.1)

validate_init_containers-Allowed :
    (names : List String) (cs : List Container)
    → validate_init_containers names cs ≡ ok tt
    → All (AllowedInit names) cs
unfolding validate_init_containers validate_init_container validate_mounts
validate_init_containers-Allowed names [] h = tt
validate_init_containers-Allowed names (c ∷ cs) h =
    let both =
      (seq_iff (validate_init_container names c) (validate_init_containers names cs)).0 h in
    let a = (guard_iff (is_empty c.name || is_empty c.image) _ _).0 both.0 in
    let b = (guard_iff (not (is_cons c.command)) _ _).0 a.1 in
    let d = (guard_iff c.other_fields _ _).0 b.1 in
    let e =
      (seq_iff (init_mounts_reserved c.name c.volume_mounts)
          (validate_mounts "initContainer %q" c.volume_mounts names false)).0
        d.1 in
    let f = (validate_mounts_from_iff "initContainer %q" names [] c.volume_mounts).0 e.1 in
    (
      (
        ground (arith, a.0),
        ground (arith, a.0),
        (not_iff (is_cons c.command)).0 b.0,
        d.0,
        init_mounts_reserved-false c.name c.volume_mounts e.0,
        f.0,
        f.2,
      ),
      validate_init_containers-Allowed names cs both.1,
    )

-- What the decoded pod fields satisfy.
abbrev pub AllowedExtras : SudoRequest → PodExtras → Type 0
AllowedExtras sr extras =
    All AllowedVolume extras.volumes
    × All AllowedMount extras.volume_mounts
    × All (Refers (volume_names sr extras)) extras.volume_mounts
    × Distinct (paths extras.volume_mounts)
    × All (AllowedInit (volume_names sr extras)) extras.init_containers

validate_pod_extras-Allowed :
    (sr : SudoRequest) (extras : PodExtras)
    → validate_pod_extras sr extras ≡ ok tt
    → AllowedExtras sr extras
unfolding validate_pod_extras validate_mounts
validate_pod_extras-Allowed sr extras h =
    let a = (seq_iff (validate_volumes extras.volumes) _).0 h in
    let b = (seq_iff (validate_mount_names extras.volume_mounts) _).0 a.1 in
    let names = volume_names sr extras in
    let d =
      (seq_iff
          (validate_mounts "executor container" extras.volume_mounts names
            (not (is_empty sr.spec.stdin)))
          _).0
        b.1 in
    let e =
      (seq_iff (validate_init_containers names extras.init_containers)
          (validate_pull_secrets extras.image_pull_secrets)).0
        d.1 in
    let f =
      (validate_mounts_from_iff "executor container" names
          (if not (is_empty sr.spec.stdin) then stdin_mount_dir ∷ [] else [])
          extras.volume_mounts).0
        d.0 in
    (
      validate_volumes-Allowed extras.volumes a.0,
      validate_mount_names-Allowed extras.volume_mounts b.0,
      f.0,
      f.2,
      validate_init_containers-Allowed names extras.init_containers e.0,
    )

-- The fields decode, to something allowed.
abbrev pub Decodes : SudoRequest → Type 0
Decodes sr = (extras : PodExtras) × (decode_pod_extras sr ≡ ok extras) × AllowedExtras sr extras

by_decode :
    (sr : SudoRequest) (d : Result PodExtras)
    → decode_pod_extras sr ≡ d
    → (elim d [
      | Result.err e ↦ Result.err (wrapf "invalid pod field: %w" [] e)
      | Result.ok extras ↦ validate_pod_extras sr extras
    ])
      ≡ ok tt
    → Decodes sr
by_decode sr (ok extras) e h = (extras, e, validate_pod_extras-Allowed sr extras h)
by_decode sr (err x) e h = ground (arith, h)

within : (n : ℕ) → ltb max_stdin_bytes n ≡ false → n ≤ max_stdin_bytes
within n h = ground arith

-- A request that validateSpecExtras accepts has a stdin within its bound, and its pod fields decode
-- to volumes with unreserved names and permitted sources, mounts of the executor at distinct paths
-- that are not the stdin payload's, and init containers with a name, an image, an explicit command,
-- no field beside the reviewed ones, and mounts at distinct paths; all mounts refer to the pod's
-- volumes under unreserved names.
pub validate_spec_extras-Decodes :
    (sr : SudoRequest) (controller_namespace : String)
    → validate_spec_extras sr controller_namespace ≡ ok tt
    → (byte_len sr.spec.stdin ≤ max_stdin_bytes) × Decodes sr
unfolding validate_spec_extras
validate_spec_extras-Decodes sr own h =
    let a = (guard_iff _ _ _).0 h in
    let b = (guard_iff (ltb max_stdin_bytes (byte_len sr.spec.stdin)) _ _).0 a.1 in
    (within (byte_len sr.spec.stdin) b.0, by_decode sr (decode_pod_extras sr) refl b.1)
