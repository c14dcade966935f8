-- ===== src/Cluster.antt =====
-- The Kubernetes objects that the program reads, with the fields that it reads of them, and what
-- the API server may answer to a write.
use sudo_service.Prelude.{ℕ, String, List, Option, none, some, Bool, true, false, any, ◌&&◌}
use sudo_service.Types.{ℤ, ApiError}

pub record OwnerReference : Type 0 where
  pub api_version : String
  pub kind : String
  pub name : String
  pub uid : String
  pub controller : Option Bool

pub data ConditionType : Type 0 where
  complete failed other : ConditionType

pub record JobCondition : Type 0 where
  pub type : ConditionType
  pub status_true : Bool

-- batchv1.Job.
pub record Job : Type 0 where
  pub name : String
  pub namespace : String
  pub uid : String
  pub creation_timestamp : ℕ
  pub deleting : Bool
  pub owner_references : List OwnerReference
  pub conditions : List JobCondition
  pub succeeded : ℕ
  pub failed : ℕ

pub record Terminated : Type 0 where
  pub exit_code : ℤ
  pub finished_at : ℕ

pub record Waiting : Type 0 where
  pub reason : String
  pub message : String

pub record ContainerStatus : Type 0 where
  pub name : String
  pub running : Bool
  pub terminated : Option Terminated
  pub waiting : Option Waiting

-- corev1.Pod; `controller_uid` is the uid of its controller owner, if it has one.
pub record Pod : Type 0 where
  pub name : String
  pub controller_uid : Option String
  pub init_container_statuses : List ContainerStatus
  pub container_statuses : List ContainerStatus

-- The label `expires-at`, as strconv.ParseInt reads it.
pub data ExpiryLabel : Type 0 where
  missing unparsable : ExpiryLabel
  at_time : ℤ → ExpiryLabel

-- corev1.Secret; `type_is_token` is the type kubernetes.io/service-account-token.
pub record Secret : Type 0 where
  pub name : String
  pub namespace : String
  pub type_is_token : Bool
  pub owner_references : List OwnerReference
  pub expires_at : ExpiryLabel
  pub content : String

-- A write is taken, is refused, or is taken while its answer gets lost.
pub data WriteReply : Type 0 where
  accepted : WriteReply
  rejected lost : ApiError → WriteReply

abbrev pub took : WriteReply → Bool
took accepted = true
took (rejected e) = false
took (lost e) = true

abbrev pub write_error : WriteReply → Option ApiError
write_error accepted = none
write_error (rejected e) = some e
write_error (lost e) = some e

unfoldable pub is_end : ConditionType → Bool
is_end complete = true
is_end failed = true
is_end other = false

-- playbooks.go, jobTerminal.
unfoldable pub job_terminal : Job → Bool
unfolding any is_end
job_terminal job = any (λ c. c.status_true && is_end c.type) job.conditions
