-- ===== src/Executor/Stamping.antt =====
-- The scratch areas that the controller adds to a container.
use sudo_service.Prelude.{String, List, [], ◌∷◌, true, ◌||◌, ◌≡◌, Distinct, is_cons, ◌⊎◌}
use sudo_service.Types.{VolumeMount, Container}
use sudo_service.Executor.Scratch.{tmp_mount_dir, home_mount_dir, has_env, mounts_at_or_under}

abbrev pub mount_paths : List VolumeMount → List String
mount_paths [] = []
mount_paths (m ∷ ms) = m.mount_path ∷ mount_paths ms

-- No two mounts at the same path, and a place to write under /tmp.
abbrev pub Mounted : Container → Type 0
Mounted c =
    Distinct (mount_paths c.volume_mounts)
    × (mounts_at_or_under c.volume_mounts tmp_mount_dir ≡ true)

-- HOME is set, may be set by what is imported, or its directory is the requester's to manage.
abbrev pub HasHome : Container → Type 0
HasHome c =
    ((has_env c.env "HOME" || is_cons c.env_from) ≡ true)
    ⊎ (mounts_at_or_under c.volume_mounts home_mount_dir ≡ true)
