-- ===== src/Http/Message.antt =====
-- api.go: what the handlers read of a request, and what they answer. Texts that are compared in constant
-- time are kept as their bytes.
use sudo_service.Prelude.{ℕ, String, List, [], Option, none, Bool}
use sudo_service.Types.{
  ℤ, Phase, Reason, SudoRequest, Playbook, PermissionAssessment, CaptureState, DeliveryState,
  AssessmentState, Raw, EnvVar, EnvFromSource, Volume, VolumeMount, Container, Error, errorf,
  Result, Reply,
}
use sudo_service.Broadcaster.{Event}
use sudo_service.Profiles.{ExecutorProfile}
use sudo_service.Executor.Manifest.{JobManifest}
use sudo_service.Review.Extras.{SpecExtrasView}
use sudo_service.Effects.{M, return}
use sudo_service.Controller.{Controller}
use sudo_service.Http.Auth.{HumanClaims, TokenReviewStatus, AccessReview, AccessStatus}

-- APIServer: the controller, the configured group, and the servers that it asks.
pub record ApiServer : Type 0 where
  pub controller : Controller
  pub admin_group : String
  pub id_token : String → Result (Result HumanClaims)
  pub token_review : String → List String → Reply TokenReviewStatus
  pub access_review : AccessReview → Reply AccessStatus

pub record CreateRequestBody : Type 0 where
  pub reason : String
  pub command : String
  pub image : String
  pub profile : String
  pub playbook : Option Playbook
  pub ttl_seconds_after_approval : Option ℤ
  pub target_namespace : String
  pub stdin : String
  pub env : List (Raw EnvVar)
  pub env_from : List (Raw EnvFromSource)
  pub volumes : List (Raw Volume)
  pub volume_mounts : List (Raw VolumeMount)
  pub init_containers : List (Raw Container)
  pub image_pull_secrets : List (Raw String)
  pub cluster_admin : Option Bool

pub record Form : Type 0 where
  pub id : String
  pub token : String
  pub reason : String
  pub csrf_token : List ℕ

-- http.Request: a header that is not set is the empty text. `form` is what ParseForm makes of it, and
-- `flushes` says that the connection can stream.
pub record HttpRequest : Type 0 where
  pub method : String
  pub path : String
  pub authorization : String
  pub id_token_header : String
  pub access_token_header : String
  pub csrf_cookie : Option (List ℕ)
  pub query_id : String
  pub query_token : String
  pub form : Result Form
  pub body : Result CreateRequestBody
  pub flushes : Bool

pub record CreateResponse : Type 0 where
  pub uid : String
  pub name : String
  pub duplicate : Bool
  pub retry_of_uid : String
  pub image : String
  pub profile : String
  pub warnings : List String

pub record RequestStatusResponse : Type 0 where
  pub uid : String
  pub name : String
  pub phase : Phase
  pub requester : String
  pub submitted_by : String
  pub retry_of_uid : String
  pub superseded_by_uid : String
  pub command : String
  pub playbook : Option Playbook
  pub image : String
  pub profile : String
  pub preflight_warnings : List String
  pub namespace : String
  pub cluster_admin : Bool
  pub approved_by : String
  pub approved_at : Option ℕ
  pub denied_by : String
  pub denied_at : Option ℕ
  pub denial_reason : Reason
  pub failure_reason : Reason
  pub exit_code : Option ℤ
  pub output_secret_ref : String
  pub output_capture_state : CaptureState
  pub output_delivery_state : DeliveryState
  pub output_failure_reason : Reason
  pub output_total_bytes : Option ℕ
  pub output_retained_bytes : Option ℕ
  pub output_sha256 : String
  pub summary : String
  pub permission_assessment : Option PermissionAssessment
  pub permission_assessment_state : AssessmentState

-- resultView, and the data of index.html and of approve.html.
pub record ResultView : Type 0 where
  pub title : String
  pub message : String
  pub uid : String
  pub link_uid : Bool
  pub is_success : Bool
  pub user : String
  pub user_email : String

pub record IndexView : Type 0 where
  pub user : String
  pub user_email : String
  pub pending : List SudoRequest
  pub history : List SudoRequest

-- approveView, with the request in place of the fields that are copied from it.
pub record ApproveView : Type 0 where
  pub uid : String
  pub token : String
  pub request : Result SudoRequest
  pub can_resubmit : Bool
  pub extras : Option SpecExtrasView
  pub pod_template : Option JobManifest
  pub permission_effects : List String
  pub user : String
  pub user_email : String
  pub csrf_token : Result (List ℕ)

pub data Body : Type 0 where
  refusal : Error → Body
  plain : String → Body
  created : CreateResponse → Body
  duplicate_of : String → Body
  status_of : RequestStatusResponse → Body
  output : List ℕ → Body
  events : List Event → Body
  profiles : String → List ExecutorProfile → Body
  index_page : IndexView → Body
  approve_page : ApproveView → Body
  result_page : ResultView → Body

-- `set_cookie` is the value of the CSRF cookie that the answer sets, with its MaxAge.
pub record Response : Type 0 where
  pub status : ℕ
  pub body : Body
  pub set_cookie : Option (List ℕ × ℕ)

abbrev pub with_body : ℕ → Body → Response
with_body status body = record { status = status; body = body; set_cookie = none }

-- http.Error, then return.
abbrev pub refuse : ℕ → Error → M Response
refuse status e = return (with_body status (Body.refusal e))

abbrev pub method_not_allowed : M Response
method_not_allowed = refuse 405 (errorf "method not allowed" [])
