-- ===== src/Types/Phases.antt =====
-- The phases of a request. `unset` is the empty string of an object that the controller has not
-- seen; `unknown` is any string that is not one of the constants.
use sudo_service.Prelude.{String, Bool, true, false, ◌≡◌, refl, arith}

pub data Phase : Type 0 where
  unset pending approved denied executed failed expired : Phase
  unknown : String → Phase

abbrev pub is_unset : Phase → Bool
is_unset unset = true
is_unset _ = false

abbrev pub is_pending : Phase → Bool
is_pending pending = true
is_pending _ = false

abbrev pub is_approved : Phase → Bool
is_approved approved = true
is_approved _ = false

abbrev pub is_terminal_phase : Phase → Bool
is_terminal_phase executed = true
is_terminal_phase failed = true
is_terminal_phase denied = true
is_terminal_phase expired = true
is_terminal_phase _ = false

pub is_pending-eq : (p : Phase) → is_pending p ≡ true → p ≡ pending
is_pending-eq pending h = refl
is_pending-eq _ h = ground arith

pub is_approved-eq : (p : Phase) → is_approved p ≡ true → p ≡ approved
is_approved-eq approved h = refl
is_approved-eq _ h = ground arith

-- Delivery of the approval notification; `untracked` is the empty string of older records.
pub data NotificationState : Type 0 where
  untracked queued delivered : NotificationState

pub data AssessmentState : Type 0 where
  unstated pending generated failed : AssessmentState

pub data CaptureState : Type 0 where
  unrecorded complete truncated failed : CaptureState

pub data DeliveryState : Type 0 where
  unrecorded available failed : DeliveryState

abbrev pub is_queued : NotificationState → Bool
is_queued queued = true
is_queued _ = false

abbrev pub is_assessment_pending : AssessmentState → Bool
is_assessment_pending AssessmentState.pending = true
is_assessment_pending _ = false

-- `OutputCaptureState != ""`.
abbrev pub is_recorded : CaptureState → Bool
is_recorded CaptureState.unrecorded = false
is_recorded _ = true
