-- ===== src/Types/Spec.antt =====
-- SudoRequestSpec and the pod fields that it carries. A `runtime.RawExtension` holds JSON; the
-- verdict of `json.Unmarshal` on it is part of the data, so no parser is modelled.
use sudo_service.Prelude.{ℕ, String, Bool, List, Option}

-- An int32.
pub data ℤ : Type 0 where
  pos : ℕ → ℤ
  negsuc : ℕ → ℤ

pub data Raw (A : Type 0) : Type 0 where
  blank : Raw A
  malformed : Raw A
  decodes : A → Raw A

pub record Playbook : Type 0 where
  pub name : String
  pub parameters : List (String × String)

-- corev1.EnvVar: the value, and what `valueFrom` names: a Secret and its key, a ConfigMap and its key,
-- the path of a field, the name of a resource.
pub record EnvVar : Type 0 where
  pub name : String
  pub value : String
  pub secret_key_ref : Option String
  pub secret_key : String
  pub config_map_key_ref : Option (String × String)
  pub field_ref : Option String
  pub resource_field_ref : Option String

pub record EnvFromSource : Type 0 where
  pub prefix : String
  pub secret_ref : Option String
  pub config_map_ref : Option String

-- corev1.Volume: which of its sources are set, with what the program reads of each. An item is a key
-- and the path that it is put at; a size limit is the text of its quantity.
pub record Volume : Type 0 where
  pub name : String
  pub empty_dir : Bool
  pub size_limit : Option String
  pub secret : Option String
  pub secret_items : List (String × String)
  pub config_map : Option String
  pub config_map_items : List (String × String)
  pub persistent_volume_claim : Option String
  pub claim_read_only : Bool
  pub projected : Bool
  pub host_path : Bool
  pub host_path_path : String

-- corev1.VolumeMount; `other_fields` says that a field beside the four is set.
pub record VolumeMount : Type 0 where
  pub name : String
  pub mount_path : String
  pub sub_path : String
  pub read_only : Bool
  pub other_fields : Bool

-- corev1.Container; `other_fields` says that a field beside the seven is set.
pub record Container : Type 0 where
  pub name : String
  pub image : String
  pub command : List String
  pub args : List String
  pub env : List EnvVar
  pub env_from : List EnvFromSource
  pub volume_mounts : List VolumeMount
  pub other_fields : Bool

pub record SudoRequestSpec : Type 0 where
  pub requester : String
  pub submitted_by : String
  pub retry_of_uid : String
  pub reason : String
  pub command : String
  pub playbook : Option Playbook
  pub image : String
  pub profile : String
  pub ttl_seconds_after_approval : Option ℤ
  pub target_namespace : String
  pub stdin : String
  pub env : List (Raw EnvVar)
  pub env_from : List (Raw EnvFromSource)
  pub volumes : List (Raw Volume)
  pub volume_mounts : List (Raw VolumeMount)
  pub init_containers : List (Raw Container)
  pub image_pull_secrets : List (Raw String)
  pub cluster_admin : Option Bool
