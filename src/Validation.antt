-- ===== src/Validation.antt =====
-- validation.go: the allowlist on the widened pod fields.
pub mod Mounts
pub mod Accepted
use sudo_service.Prelude.{
  ℕ, String, List, [], ◌∷◌, Option, none, some, Bool, true, false, ◌&&◌, ◌||◌, not, map, contains,
  is_empty, is_cons, byte_len, ltb, ◌===◌, if◌then◌else◌,
}
use sudo_service.Types.{
  SudoRequest, Volume, VolumeMount, Container, Error, errorf, wrapf, Result, ok, err, ◌>>=◌, ◌>>◌,
  max_stdin_bytes,
}
use sudo_service.Review.Describe.{describe_volume_source}
use sudo_service.Executor.Target.{is_set, stdin_mount_dir}
use sudo_service.Executor.Scratch.{tmp_volume_name, home_volume_name}
use sudo_service.Executor.Manifest.{PodExtras, stdin_volume_name}
use sudo_service.Executor.Decode.{decode_pod_extras}

unfoldable pub is_reserved : String → Bool
is_reserved name =
    name === stdin_volume_name || name === tmp_volume_name || name === home_volume_name

unfoldable pub validate_volume_source : Volume → Result (Unit {0})
validate_volume_source v =
    if is_empty v.name
    then err (errorf "volume must have a name" [])
    else if v.host_path
    then err (errorf "volume %q: hostPath is not permitted" (v.name ∷ []))
    else if v.projected
    then err (errorf "volume %q: projected volumes are not permitted" (v.name ∷ []))
    else if not (describe_volume_source v).1
    then err (
        errorf
          "volume %q: only emptyDir, secret, configMap and persistentVolumeClaim sources are permitted"
          (v.name ∷ []))
    else ok tt

unfoldable pub validate_volumes : List Volume → Result (Unit {0})
validate_volumes [] = ok tt
validate_volumes (v ∷ vs) =
    if is_reserved v.name
    then err (errorf "volume name %q is reserved for %s" (v.name ∷ []))
    else validate_volume_source v >> validate_volumes vs

unfoldable pub validate_mount_names : List VolumeMount → Result (Unit {0})
validate_mount_names [] = ok tt
validate_mount_names (m ∷ ms) =
    if is_reserved m.name
    then err (errorf "volumeMount name %q is reserved for %s" (m.name ∷ []))
    else if m.mount_path === stdin_mount_dir
    then err (errorf "volumeMount path %q is reserved for the stdin payload" (stdin_mount_dir ∷ []))
    else validate_mount_names ms

-- The loop of validateMounts; `seen` holds the paths taken so far.
unfoldable pub validate_mounts_from :
    String → List String → List String → List VolumeMount → Result (Unit {0})
validate_mounts_from where' names seen [] = ok tt
validate_mounts_from where' names seen (m ∷ ms) =
    if not (contains names m.name)
    then err (
        errorf "%s: volumeMount %q references no volume named %q"
          (where' ∷ m.mount_path ∷ m.name ∷ []))
    else if m.other_fields
    then err (
        errorf "%s: volumeMount %q may only set name, mountPath, subPath and readOnly"
          (where' ∷ m.mount_path ∷ []))
    else if contains seen m.mount_path
    then err (errorf "%s: duplicate mountPath %q" (where' ∷ m.mount_path ∷ []))
    else validate_mounts_from where' names (m.mount_path ∷ seen) ms

unfoldable pub validate_mounts : String → List VolumeMount → List String → Bool → Result (Unit {0})
validate_mounts where' mounts names has_stdin =
    validate_mounts_from where' names (if has_stdin then stdin_mount_dir ∷ [] else []) mounts

unfoldable pub init_mounts_reserved : String → List VolumeMount → Result (Unit {0})
init_mounts_reserved name [] = ok tt
init_mounts_reserved name (m ∷ ms) =
    if is_reserved m.name
    then err
        (errorf "initContainer %q: volumeMount name %q is reserved for %s" (name ∷ m.name ∷ []))
    else init_mounts_reserved name ms

unfoldable pub validate_init_container : List String → Container → Result (Unit {0})
validate_init_container names c =
    if is_empty c.name || is_empty c.image
    then err (errorf "initContainer must set both name and image" [])
    else if not (is_cons c.command)
    then err (errorf "initContainer %q: an explicit command is required" (c.name ∷ []))
    else if c.other_fields
    then err (
        errorf
          "initContainer %q: only name, image, command, args, env, envFrom and volumeMounts are permitted"
          (c.name ∷ []))
    else (do
      init_mounts_reserved c.name c.volume_mounts
      validate_mounts "initContainer %q" c.volume_mounts names false)

unfoldable pub validate_init_containers : List String → List Container → Result (Unit {0})
validate_init_containers names [] = ok tt
validate_init_containers names (c ∷ cs) =
    validate_init_container names c >> validate_init_containers names cs

unfoldable pub validate_pull_secrets : List String → Result (Unit {0})
validate_pull_secrets [] = ok tt
validate_pull_secrets (name ∷ names) =
    if is_empty name
    then err (errorf "imagePullSecrets[%d]: name is required" [])
    else validate_pull_secrets names

-- The volume names that the pod will have, the controller's scratch volumes excepted.
abbrev pub volume_names : SudoRequest → PodExtras → List String
volume_names sr extras =
    let own = map (λ v. v.name) extras.volumes in
    if not (is_empty sr.spec.stdin) then stdin_volume_name ∷ own else own

unfoldable pub validate_pod_extras : SudoRequest → PodExtras → Result (Unit {0})
validate_pod_extras sr extras = do
  validate_volumes extras.volumes
  validate_mount_names extras.volume_mounts
  validate_mounts "executor container" extras.volume_mounts (volume_names sr extras)
      (not (is_empty sr.spec.stdin))
  validate_init_containers (volume_names sr extras) extras.init_containers
  validate_pull_secrets extras.image_pull_secrets

unfoldable pub is_true : Option Bool → Bool
is_true none = false
is_true (some b) = b

unfoldable pub validate_spec_extras : SudoRequest → String → Result (Unit {0})
unfolding is_true
validate_spec_extras sr controller_namespace =
    if not (is_empty sr.spec.target_namespace)
      && not (sr.spec.target_namespace === controller_namespace)
      && is_true sr.spec.cluster_admin
    then err (
        errorf
          "privileges.clusterAdmin is only available when the executor runs in the %q namespace; it cannot be combined with spec.namespace=%q"
          (controller_namespace ∷ sr.spec.target_namespace ∷ []))
    else if ltb max_stdin_bytes (byte_len sr.spec.stdin)
    then err (
        errorf
          "stdin is %d bytes; the limit is %d (it is stored in a Secret, which Kubernetes caps at 1 MiB)"
          [])
    else elim (decode_pod_extras sr) [
      | Result.err e ↦ err (wrapf "invalid pod field: %w" [] e)
      | Result.ok extras ↦ validate_pod_extras sr extras
    ]
