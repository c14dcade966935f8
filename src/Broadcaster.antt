-- ===== src/Broadcaster.antt =====
-- broadcaster.go: the events that go to subscribers.
pub mod Subscribers
pub mod Subscribed
pub mod Audience
pub mod Delivery
use sudo_service.Prelude.{ℕ, String, Option, none}
use sudo_service.Types.{ℤ, Phase, Reason, CaptureState, DeliveryState, SudoRequest}

pub record Event : Type 0 where
  pub type : String
  pub uid : String
  pub phase : Phase
  pub requester : String
  pub reason : String
  pub command : String
  pub created_at : ℕ
  pub retry_of_uid : String
  pub approved_by : String
  pub denied_by : String
  pub denial_reason : Reason
  pub failure_reason : Reason
  pub exit_code : Option ℤ
  pub output_secret_ref : String
  pub output_capture_state : CaptureState
  pub output_delivery_state : DeliveryState
  pub output_failure_reason : Reason
  pub output_total_bytes : Option ℕ
  pub output_retained_bytes : Option ℕ
  pub output_sha256 : String

-- The literal that every publisher starts from: a phase event of the request, the rest unset.
abbrev pub phase_event : SudoRequest → Phase → Event
phase_event sr phase = record {
  type = "phase";
  uid = "";
  phase = phase;
  requester = sr.spec.requester;
  reason = sr.spec.reason;
  command = sr.spec.command;
  created_at = sr.creation_timestamp;
  retry_of_uid = sr.spec.retry_of_uid;
  approved_by = "";
  denied_by = "";
  denial_reason = Reason.unstated;
  failure_reason = Reason.unstated;
  exit_code = none;
  output_secret_ref = "";
  output_capture_state = CaptureState.unrecorded;
  output_delivery_state = DeliveryState.unrecorded;
  output_failure_reason = Reason.unstated;
  output_total_bytes = none;
  output_retained_bytes = none;
  output_sha256 = "";
}
