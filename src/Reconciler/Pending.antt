-- ===== src/Reconciler/Pending.antt =====
-- reconciler.go: handlePending and generatePermissionAssessment. The model answers what it is shown in
-- any way.
use sudo_service.Prelude.{
  true, ℕ, String, ◌+◌, ◌-◌, ◌*◌, [], Option, none, some, Bool, leb, ltb, if◌then◌else◌,
}
use sudo_service.Types.{
  SudoRequest, PermissionAssessment, AssessmentState, Phase, Error, wrapf, is_assessment_pending,
  is_queued, second, pending_request_ttl, Result,
}
use sudo_service.Cluster.{WriteReply}
use sudo_service.Broadcaster.{phase_event}
use sudo_service.Effects.{
  write_status, record_event, publish, M, return, fail, tell, check, on_result, ◌>>◌, Requeue, done,
  after,
}
use sudo_service.Profiles.{image_for}
use sudo_service.Executor.Target.{has_spec_extras}
use sudo_service.Executor.Manifest.{JobManifest}
use sudo_service.Review.Extras.{spec_extras_text, display_pod_template}
use sudo_service.Summarizer.{ChatReply, Context, Prompt, summarize}
use sudo_service.Controller.{Controller, controller_namespace}
use sudo_service.Reconciler.Update.{UpdateReplies, update_status}
use sudo_service.Reconciler.Decide.{burn_token, delete_approval_token_secret}
use sudo_service.Reconciler.Deliver.{DeliverReplies, deliver_approval_notification}

pub record PendingReplies : Type 0 where
  pub time : ℕ
  pub expire : WriteReply
  pub delete : WriteReply
  pub chat : Prompt → ChatReply
  pub assessed_at : ℕ
  pub record_assessment : UpdateReplies
  pub time_after : ℕ
  pub deliver : DeliverReplies

abbrev pub set_expired : SudoRequest → SudoRequest
set_expired sr = burn_token (record sr { status = record (sr.status) { phase = Phase.expired } })

abbrev pub expiry : SudoRequest → ℕ
expiry sr = sr.creation_timestamp + pending_request_ttl * second

abbrev pub assessment_of : Result PermissionAssessment → Option PermissionAssessment × Option Error
assessment_of (Result.ok a) = (some a, none)
assessment_of (Result.err e) = (none, some e)

abbrev pub context_of : Result JobManifest → String → Context
context_of (Result.ok pod) text = Context.pod_context pod
context_of (Result.err e) text = Context.text_context text

-- The redacted pod, or the redacted text where the pod cannot be rendered.
unfoldable pub ai_context : Controller → SudoRequest → Context
ai_context c sr =
    let own = controller_namespace c in
    if has_spec_extras sr
    then context_of (display_pod_template c.shlex_split c.rules sr true own)
        (spec_extras_text sr true own)
    else Context.no_context

unfoldable pub prompt_of : Controller → SudoRequest → Prompt
unfolding ai_context
prompt_of c sr = record {
  command = sr.spec.command;
  image = image_for sr;
  reason = sr.spec.reason;
  extras = ai_context c sr;
}

unfoldable pub generate_permission_assessment :
    Controller → PendingReplies → SudoRequest → Option PermissionAssessment × Option Error
unfolding prompt_of
generate_permission_assessment c r sr =
    if c.has_summarizer
    then assessment_of (summarize c.summarizer_model (r.chat (prompt_of c sr)) r.assessed_at)
    else (none, none)

abbrev pub assessment_state : Option Error → AssessmentState
assessment_state none = AssessmentState.generated
assessment_state (some e) = AssessmentState.failed

abbrev pub set_assessment :
    Option PermissionAssessment → AssessmentState → SudoRequest → SudoRequest
set_assessment assessment state s = record s {
  status = record (s.status) {
    permission_assessment = assessment;
    permission_assessment_state = state;
  };
}

abbrev pub is_later : ℕ → Option ℕ → Bool
is_later now none = Bool.false
is_later now (some next) = ltb now next

abbrev pub or_zero : Option ℕ → ℕ
or_zero none = 0
or_zero (some t) = t

-- Deliver now, at the next attempt, or wait for the expiry.
unfoldable pub notify : Controller → PendingReplies → SudoRequest → M Requeue
notify c r sr =
    if is_queued sr.status.notification_state
    then if is_later r.time_after sr.status.notification_next_attempt_at
      then return (after (or_zero sr.status.notification_next_attempt_at - r.time_after))
      else deliver_approval_notification c r.deliver sr
    else return (after (expiry sr + second - r.time))

unfoldable pub expire : PendingReplies → SudoRequest → M Requeue
expire r sr = do
  tell (write_status sr (set_expired sr) r.expire)
  check (λ e. e) r.expire
  delete_approval_token_secret r.delete sr.namespace sr.status.approval_token_secret_name
  tell (record_event "Expired")
  tell (publish sr.uid (record (phase_event sr Phase.expired) { uid = sr.uid }))
  return done

unfoldable pub handle_pending : Controller → PendingReplies → SudoRequest → M Requeue
unfolding notify expire
handle_pending c r sr =
    if leb (expiry sr) r.time
    then expire r sr
    else if is_assessment_pending sr.status.permission_assessment_state
    then (let made = generate_permission_assessment c r sr in
        let mutate = set_assessment made.0 (assessment_state made.1) in
        on_result (update_status mutate r.record_assessment sr sr)
          (λ persisted. notify c r (mutate persisted))
          (λ e. fail (wrapf "record permission assessment: %w" [] e)))
    else notify c r sr
