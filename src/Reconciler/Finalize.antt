-- ===== src/Reconciler/Finalize.antt =====
-- reconciler.go: applyCapturedOutputStatus and finalizeFromRecordedResult.
use sudo_service.Prelude.{some, if◌then◌else◌}
use sudo_service.Types.{ℤ, SudoRequest, Phase}
use sudo_service.Broadcaster.{phase_event}
use sudo_service.Effects.{record_event, publish, M, return, tell, ◌>>=◌, ◌>>◌, Requeue, done}
use sudo_service.Executor.Pods.{is_nonzero}
use sudo_service.Executor.Output.{CapturedOutput}
use sudo_service.Reconciler.Update.{UpdateReplies, update_status}

abbrev pub apply_captured_output_status : CapturedOutput → SudoRequest → SudoRequest
apply_captured_output_status result sr = record sr {
  status = record (sr.status) {
    exit_code = some result.exit_code;
    output_secret_ref = result.secret_ref;
    output_capture_state = result.capture_state;
    output_delivery_state = result.delivery_state;
    output_failure_reason = result.failure_reason;
    output_total_bytes = result.total_bytes;
    output_retained_bytes = result.retained_bytes;
    output_sha256 = result.sha256;
  };
}

-- The mutation takes the result from `sr`, which may be newer than the stored object.
abbrev pub set_result : ℤ → SudoRequest → SudoRequest → SudoRequest
set_result code sr s = record s {
  status = record (s.status) {
    exit_code = some code;
    output_secret_ref = sr.status.output_secret_ref;
    output_capture_state = sr.status.output_capture_state;
    output_delivery_state = sr.status.output_delivery_state;
    output_failure_reason = sr.status.output_failure_reason;
    output_total_bytes = sr.status.output_total_bytes;
    output_retained_bytes = sr.status.output_retained_bytes;
    output_sha256 = sr.status.output_sha256;
    phase = if is_nonzero code then Phase.failed else Phase.executed;
  };
}

-- `code` is the exit code that `sr` records.
unfoldable pub finalize_from_recorded_result :
    UpdateReplies → ℤ → SudoRequest → SudoRequest → M Requeue
finalize_from_recorded_result r code base sr = do
  persisted ← update_status (set_result code sr) r base sr
  tell (record_event "Executed")
  tell (
      publish persisted.uid (record (phase_event persisted (persisted.status.phase)) {
        uid = persisted.uid;
        exit_code = some code;
        output_secret_ref = sr.status.output_secret_ref;
        output_capture_state = persisted.status.output_capture_state;
        output_delivery_state = persisted.status.output_delivery_state;
        output_failure_reason = persisted.status.output_failure_reason;
        output_total_bytes = persisted.status.output_total_bytes;
        output_retained_bytes = persisted.status.output_retained_bytes;
        output_sha256 = persisted.status.output_sha256;
      }))
  return done
