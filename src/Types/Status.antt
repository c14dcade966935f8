-- ===== src/Types/Status.antt =====
-- SudoRequestStatus. Times are nanoseconds; `none` is a nil pointer and the empty text an unset
-- string. A reason is unset, a text that a human gave, or the message of an error.
use sudo_service.Prelude.{ℕ, String, Bool, false, List, [], Option, none}
use sudo_service.Types.Errors.{Error}
use sudo_service.Types.Phases.{
  Phase, NotificationState, AssessmentState, CaptureState, DeliveryState,
}
use sudo_service.Types.Spec.{ℤ}

pub data Reason : Type 0 where
  unstated : Reason
  said : String → Reason
  message : Error → Reason

pub record PermissionAssessment : Type 0 where
  pub request : String
  pub effects : List String
  pub model : String
  pub generated_at : ℕ

pub record SudoRequestStatus : Type 0 where
  pub phase : Phase
  pub approved_by : String
  pub approved_at : Option ℕ
  pub denied_by : String
  pub denied_at : Option ℕ
  pub denial_reason : Reason
  pub failure_reason : Reason
  pub resolved_profile : String
  pub resolved_image : String
  pub preflight_warnings : List String
  pub playbook_auto_approved : Bool
  pub playbook_target_uid : String
  pub playbook_target_absent : Bool
  pub superseded_by_uid : String
  pub exit_code : Option ℤ
  pub output_secret_ref : String
  pub output_capture_state : CaptureState
  pub output_delivery_state : DeliveryState
  pub output_failure_reason : Reason
  pub output_total_bytes : Option ℕ
  pub output_retained_bytes : Option ℕ
  pub output_sha256 : String
  pub stdin_secret_name : String
  pub summary : String
  pub permission_assessment : Option PermissionAssessment
  pub permission_assessment_state : AssessmentState
  pub executor_job_name : String
  pub executor_job_uid : String
  pub pushover_request_id : String
  pub notification_state : NotificationState
  pub notification_attempts : ℕ
  pub notification_last_attempt_at : Option ℕ
  pub notification_next_attempt_at : Option ℕ
  pub notification_delivered_at : Option ℕ
  pub notification_last_error : Reason
  pub approval_token_hash : List ℕ  -- the bytes of the hex digest
  pub approval_token_expires_at : Option ℕ
  pub approval_token_secret_name : String

-- The zero value.
abbrev pub empty_status : SudoRequestStatus
empty_status = record {
  phase = Phase.unset;
  approved_by = "";
  approved_at = none;
  denied_by = "";
  denied_at = none;
  denial_reason = Reason.unstated;
  failure_reason = Reason.unstated;
  resolved_profile = "";
  resolved_image = "";
  preflight_warnings = [];
  playbook_auto_approved = false;
  playbook_target_uid = "";
  playbook_target_absent = false;
  superseded_by_uid = "";
  exit_code = none;
  output_secret_ref = "";
  output_capture_state = CaptureState.unrecorded;
  output_delivery_state = DeliveryState.unrecorded;
  output_failure_reason = Reason.unstated;
  output_total_bytes = none;
  output_retained_bytes = none;
  output_sha256 = "";
  stdin_secret_name = "";
  summary = "";
  permission_assessment = none;
  permission_assessment_state = AssessmentState.unstated;
  executor_job_name = "";
  executor_job_uid = "";
  pushover_request_id = "";
  notification_state = NotificationState.untracked;
  notification_attempts = 0;
  notification_last_attempt_at = none;
  notification_next_attempt_at = none;
  notification_delivered_at = none;
  notification_last_error = Reason.unstated;
  approval_token_hash = [];
  approval_token_expires_at = none;
  approval_token_secret_name = "";
}
