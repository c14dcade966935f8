-- ===== src/Executor/Output.antt =====
-- executor.go: reading the logs of the reported container, bounding what is kept of them, and
-- delivering it in a Secret. A log stream is the list of its chunks; `read` is `none` where the
-- stream breaks. `sha256` stands for SHA-256 in hex of the whole stream.
use sudo_service.Prelude.{
  ℕ, ◌+◌, ◌-◌, String, List, [], ◌∷◌, ◌++◌, Option, none, some, ◌&&◌, length, take, ltb, ◌==◌,
  if◌then◌else◌,
}
use sudo_service.Types.{
  ℤ, SudoRequest, Error, api, errorf, wrapf, ApiError, is_already_exists, Reason, message,
  CaptureState, DeliveryState, Result, Reply, max_output_bytes,
}
use sudo_service.Cluster.{Job, Pod, WriteReply, write_error}
use sudo_service.Effects.{M, return, fail, on_option, resume, ◌>>◌, tell, create_output}
use sudo_service.Controller.{Controller}
use sudo_service.Executor.Target.{ttl_seconds_after_approval, resource_name}
use sudo_service.Executor.Pods.{get_job_pod, container_to_report}

pub record BoundedLogWriter : Type 0 where
  pub retained : List ℕ
  pub total : ℕ

-- Write appends what still fits, and counts the whole chunk.
unfoldable pub write_chunk : BoundedLogWriter → List ℕ → BoundedLogWriter
write_chunk w p =
    let remaining = max_output_bytes - length w.retained in
    let fits = if ltb (length p) remaining then length p else remaining in
    record w {
      total = w.total + length p;
      retained = if ltb 0 remaining then w.retained ++ take fits p else w.retained;
    }

unfoldable pub write_chunks : BoundedLogWriter → List (List ℕ) → BoundedLogWriter
write_chunks w [] = w
write_chunks w (p ∷ ps) = write_chunks (write_chunk w p) ps

abbrev pub empty_writer : BoundedLogWriter
empty_writer = record { retained = []; total = 0 }

pub record Consumed : Type 0 where
  pub retained : List ℕ
  pub total : ℕ
  pub digest : String

-- io.Copy over the chunks, ended by the end of the stream or by an error.
unfoldable pub consume_pod_logs :
    (List (List ℕ) → String) → List (List ℕ) → Option Error → Result Consumed
consume_pod_logs sha256 chunks (some e) = Result.err e
consume_pod_logs sha256 chunks none =
    let w = write_chunks empty_writer chunks in
    Result.ok (record { retained = w.retained; total = w.total; digest = sha256 chunks })

pub record CapturedOutput : Type 0 where
  pub exit_code : ℤ
  pub secret_ref : String
  pub capture_state : CaptureState
  pub delivery_state : DeliveryState
  pub failure_reason : Reason
  pub total_bytes : Option ℕ
  pub retained_bytes : Option ℕ
  pub sha256 : String

pub record OutputReplies : Type 0 where
  pub pods : Reply (List Pod)
  pub open_logs : Option Error
  pub chunks : List (List ℕ)
  pub stream_error : Option Error
  pub create : WriteReply

unfoldable pub exit_only : ℤ → CapturedOutput
exit_only code = record {
  exit_code = code;
  secret_ref = "";
  capture_state = CaptureState.unrecorded;
  delivery_state = DeliveryState.unrecorded;
  failure_reason = Reason.unstated;
  total_bytes = none;
  retained_bytes = none;
  sha256 = "";
}

-- A Job that is still open can be asked again; a finished one records the failed capture.
unfoldable pub unreadable : Job → String → ℤ → Error → M CapturedOutput
unfolding exit_only
unreadable job container code e =
    let failure = wrapf "fetch logs from %s: %w" (container ∷ []) e in
    if job.succeeded == 0 && job.failed == 0
    then fail failure
    else return (record (exit_only code) {
      capture_state = CaptureState.failed;
      failure_reason = message failure;
    })

-- `err != nil && !apierrors.IsAlreadyExists(err)`.
abbrev pub delivery_error : WriteReply → Option ApiError
delivery_error reply = elim (write_error reply) [
  | none ↦ none
  | some e ↦ if is_already_exists e then none else some e
]

unfoldable pub deliver : OutputReplies → Job → String → ℕ → ℤ → Consumed → M CapturedOutput
unfolding exit_only
deliver r job secret_name expires_at code logs =
    let kept = length logs.retained in
    let result = record (exit_only code) {
      capture_state = if ltb kept logs.total then CaptureState.truncated else CaptureState.complete;
      total_bytes = some logs.total;
      retained_bytes = some kept;
      sha256 = logs.digest;
    } in
    do
      tell (create_output secret_name logs.retained expires_at r.create)
      on_option (delivery_error r.create)
          (λ e.
            let failure = wrapf "create output secret: %v" [] (api e) in
            if job.succeeded == 0 && job.failed == 0
            then fail failure
            else return (record result {
              delivery_state = DeliveryState.failed;
              failure_reason = message failure;
            }))
          (return
            (record result { secret_ref = secret_name; delivery_state = DeliveryState.available }))

unfoldable pub capture_from :
    Controller → OutputReplies → SudoRequest → Job → ℕ → String → ℤ → M CapturedOutput
unfolding unreadable deliver
capture_from c r sr job now container code = on_option r.open_logs (unreadable job container code) (
    resume (consume_pod_logs c.sha256_stream r.chunks r.stream_error)
      (deliver r job (resource_name sr "sudo-out-") (now + ttl_seconds_after_approval sr) code)
      (unreadable job container code))

-- `now` is in Unix seconds.
unfoldable pub capture_job_output :
    Controller → OutputReplies → SudoRequest → Job → ℕ → M CapturedOutput
unfolding capture_from
capture_job_output c r sr job now =
    resume (get_job_pod job r.pods)
      (λ pod.
        on_option pod
          (λ p.
            resume (container_to_report p)
              (λ reported. capture_from c r sr job now reported.0 reported.1) fail)
          (fail (errorf "no pods for job %s yet" (job.name ∷ []))))
      fail
