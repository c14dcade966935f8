-- ===== src/Executor/Scratch.antt =====
-- executor.go: the writable /tmp and HOME that every container gets unless it takes the area itself.
use sudo_service.Prelude.{
  String, List, [], ◌∷◌, ◌++◌, none, Bool, true, false, ◌||◌, not, is_cons, has_prefix, ◌===◌,
  if◌then◌else◌, text_append, any,
}
use sudo_service.Types.{EnvVar, VolumeMount, Container}

abbrev pub tmp_volume_name : String
tmp_volume_name = "sudo-service-tmp"

abbrev pub tmp_mount_dir : String
tmp_mount_dir = "/tmp"

abbrev pub home_volume_name : String
home_volume_name = "sudo-service-home"

abbrev pub home_mount_dir : String
home_mount_dir = "/home/sudo-service"

unfoldable pub has_env : List EnvVar → String → Bool
has_env env name = any (λ e. e.name === name) env

unfoldable pub has_mount_at : List VolumeMount → String → Bool
has_mount_at mounts dir = any (λ m. m.mount_path === dir) mounts

unfoldable pub mounts_at_or_under : List VolumeMount → String → Bool
mounts_at_or_under mounts dir =
    any (λ m. m.mount_path === dir || has_prefix m.mount_path (text_append dir "/")) mounts

abbrev pub scratch_mount : String → String → VolumeMount
scratch_mount name dir = record {
  name = name;
  mount_path = dir;
  sub_path = "";
  read_only = false;
  other_fields = false;
}

abbrev pub home_env : EnvVar
home_env = record {
  name = "HOME";
  value = home_mount_dir;
  secret_key_ref = none;
  secret_key = "";
  config_map_key_ref = none;
  field_ref = none;
  resource_field_ref = none;
}

pub record Stamped : Type 0 where
  pub container : Container
  pub used_tmp : Bool
  pub used_home : Bool

unfoldable pub stamp_tmp : Container → Stamped
stamp_tmp c =
    if not (mounts_at_or_under c.volume_mounts tmp_mount_dir)
    then record {
      container = record c {
        volume_mounts = c.volume_mounts ++ scratch_mount tmp_volume_name tmp_mount_dir ∷ [];
      };
      used_tmp = true;
      used_home = false;
    }
    else record { container = c; used_tmp = false; used_home = false }

-- The HOME half, on the container that the /tmp half left.
unfoldable pub stamp_home : Stamped → Stamped
stamp_home s =
    if has_env c.env "HOME" || is_cons c.env_from
    then s
    else if has_mount_at c.volume_mounts home_mount_dir
    then record s { container = record c { env = c.env ++ home_env ∷ [] } }
    else if mounts_at_or_under c.volume_mounts home_mount_dir
    then s
    else record s {
      container = record c {
        volume_mounts = c.volume_mounts ++ scratch_mount home_volume_name home_mount_dir ∷ [];
        env = c.env ++ home_env ∷ [];
      };
      used_home = true;
    }
  where
    open s use {container as c}

unfoldable pub stamp_scratch : Container → Stamped
unfolding stamp_tmp stamp_home
stamp_scratch c = stamp_home (stamp_tmp c)
