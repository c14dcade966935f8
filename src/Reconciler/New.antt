-- ===== src/Reconciler/New.antt =====
-- reconciler.go: handleNew. The checks come first, then the two ways of approval without a human,
-- then the pending phase with a fresh token. `base` is the object as it was read.
use sudo_service.Prelude.{
  ℕ, ◌+◌, ◌*◌, String, List, [], ◌∷◌, ◌++◌, Option, none, some, true, false, ◌&&◌, not, is_empty,
  if◌then◌else◌, text_append,
}
use sudo_service.Types.{
  pos, SudoRequest, Phase, NotificationState, AssessmentState, message, Error, wrapf, Result, Reply,
  second, unix, approval_token_ttl,
}
use sudo_service.Cluster.{Job, Secret, ExpiryLabel, WriteReply}
use sudo_service.Broadcaster.{phase_event}
use sudo_service.Effects.{
  write_status, create_secret, record_event, publish, M, return, fail, tell, check, on_result,
  on_option, resume, ◌>>◌, Requeue, done, now,
}
use sudo_service.Controller.{Controller, controller_namespace}
use sudo_service.Profiles.Preflight.{preflight_command}
use sudo_service.Profiles.{ExecutorProfile, resolve_and_preflight}
use sudo_service.Validation.{validate_spec_extras}
use sudo_service.Playbooks.{PreparedPlaybook}
use sudo_service.Playbooks.Params.{validate_playbook_spec}
use sudo_service.Playbooks.Prepare.{prepare_auto_approved_playbook}
use sudo_service.Executor.Target.{is_set, auto_approve_tokens, owner_ref}
use sudo_service.Reconciler.Update.{UpdateReplies, update_status}
use sudo_service.Reconciler.Decide.{set_denied}

pub record NewReplies : Type 0 where
  pub time : ℕ
  pub deny : WriteReply
  pub lookup_job : Reply Job
  pub playbook : UpdateReplies
  pub auto : WriteReply
  pub token : Result String
  pub set_owner : Option Error
  pub create_secret : WriteReply
  pub secret_name : String
  pub pending : WriteReply

abbrev pub Resolution : Type 0
Resolution = Result (Option ExecutorProfile × String × List String)

abbrev pub profile_name : Option ExecutorProfile → SudoRequest → String
profile_name none sr = sr.status.resolved_profile
profile_name (some p) sr = p.name

-- The resolved image, warnings and profile, kept where the resolution succeeded.
unfoldable pub with_resolution : Resolution → SudoRequest → SudoRequest
with_resolution (Result.err e) sr = sr
with_resolution (Result.ok (profile, image, warnings)) sr = record sr {
  status = record (sr.status) {
    resolved_image = image;
    preflight_warnings = warnings;
    resolved_profile = profile_name profile sr;
  };
}

abbrev pub error_of : {A : Type 0} → Result A → Option Error
error_of (Result.ok a) = none
error_of (Result.err e) = some e

unfoldable pub first_error : List (Option Error) → Option Error
first_error [] = none
first_error (none ∷ errs) = first_error errs
first_error (some e ∷ errs) = some e

unfoldable pub deny_new :
    NewReplies → String → String → Error → SudoRequest → SudoRequest → M Requeue
deny_new r by format e base sr = do
  tell (write_status base (set_denied r.time by (message e) sr) r.deny)
  check (wrapf format []) r.deny
  tell (record_event "Denied")
  tell (
      publish sr.uid (record (phase_event sr Phase.denied) {
        uid = sr.uid;
        denied_by = by;
        denial_reason = message e;
      }))
  return done

abbrev pub set_auto_approved : ℕ → SudoRequest → SudoRequest
set_auto_approved time sr = record sr {
  status = record (sr.status) {
    phase = Phase.approved;
    approved_by = "auto-approve";
    approved_at = some time;
  };
}

abbrev pub set_playbook_approved : ℕ → PreparedPlaybook → SudoRequest → SudoRequest
set_playbook_approved time prepared sr = record sr {
  status = record (sr.status) {
    phase = Phase.approved;
    approved_by = "auto-approve";
    approved_at = some time;
    playbook_auto_approved = true;
    playbook_target_uid = prepared.target_uid;
    playbook_target_absent = prepared.target_absent;
  };
}

unfoldable pub announce_approved : SudoRequest → M (Unit {0})
announce_approved sr = do
  tell (record_event "Approved")
  tell (
      publish sr.uid
        (record (phase_event sr Phase.approved) { uid = sr.uid; approved_by = "auto-approve" }))

unfoldable pub approve_playbook :
    NewReplies → PreparedPlaybook → SudoRequest → SudoRequest → M Requeue
approve_playbook r prepared base sr =
    on_result (update_status (set_playbook_approved r.time prepared) r.playbook base sr)
      (λ persisted. announce_approved persisted >> return now)
      (λ e. fail (wrapf "status update Approved for playbook auto-approve: %w" [] e))

unfoldable pub approve_command : NewReplies → SudoRequest → SudoRequest → M Requeue
approve_command r base sr = do
  tell (write_status base (set_auto_approved r.time sr) r.auto)
  check (wrapf "status update Approved for auto-approve: %w" []) r.auto
  announce_approved sr
  return done

abbrev pub token_secret : NewReplies → SudoRequest → String → Secret
token_secret r sr token = record {
  name = r.secret_name;
  namespace = sr.namespace;
  type_is_token = false;
  owner_references = owner_ref sr ∷ [];
  expires_at = ExpiryLabel.at_time (pos (unix (r.time + approval_token_ttl * second)));
  content = token;
}

abbrev pub set_pending : Controller → NewReplies → String → SudoRequest → SudoRequest
set_pending c r token sr = record sr {
  status = record (sr.status) {
    phase = Phase.pending;
    approval_token_hash = c.sha256_hex token;
    approval_token_expires_at = some (r.time + approval_token_ttl * second);
    approval_token_secret_name = r.secret_name;
    notification_state = NotificationState.queued;
    permission_assessment_state =
        if c.has_summarizer then AssessmentState.pending else sr.status.permission_assessment_state;
  };
}

unfoldable pub await_human :
    Controller → NewReplies → SudoRequest → SudoRequest → String → M Requeue
await_human c r base sr token =
    on_option r.set_owner (λ e. fail (wrapf "set approval-token Secret owner: %w" [] e))
      (do
        tell (create_secret (token_secret r sr token) r.create_secret)
        check (wrapf "create approval-token Secret: %w" []) r.create_secret
        tell (write_status base (set_pending c r token sr) r.pending)
        check (wrapf "status update Pending: %w" []) r.pending
        tell (record_event "Pending")
        tell (publish sr.uid (record (phase_event sr Phase.pending) { uid = sr.uid }))
        return now)

-- Without a playbook's approval: the allowlist, then a human.
unfoldable pub approve_or_wait : Controller → NewReplies → SudoRequest → SudoRequest → M Requeue
unfolding approve_command await_human
approve_or_wait c r base sr =
    on_option (auto_approve_tokens c.shlex_split c.rules sr) (λ tokens. approve_command r base sr)
      (resume r.token (await_human c r base sr) (λ e. fail (wrapf "mint token: %w" [] e)))

unfoldable pub with_fallback : String → SudoRequest → SudoRequest
with_fallback reason sr =
    if is_set sr.spec.playbook && not (is_empty reason)
    then record sr {
      status = record (sr.status) {
        preflight_warnings =
            sr.status.preflight_warnings
            ++ text_append "playbook requires human approval: " reason ∷ [];
      };
    }
    else sr

unfoldable pub accept : Controller → NewReplies → SudoRequest → SudoRequest → M Requeue
unfolding approve_playbook approve_or_wait with_fallback announce_approved
accept c r base sr =
    resume (prepare_auto_approved_playbook c sr r.lookup_job)
      (λ prepared.
        on_option prepared.0 (λ p. approve_playbook r p base sr)
          (approve_or_wait c r base (with_fallback prepared.1 sr)))
      fail

-- The three checks of the specification, in order.
unfoldable pub spec_error : Controller → Resolution → SudoRequest → Option Error
unfolding first_error
spec_error c resolution sr = first_error (
    error_of resolution
    ∷ error_of (validate_spec_extras sr (controller_namespace c))
    ∷ error_of (validate_playbook_spec c sr)
    ∷ [])

unfoldable pub check_new :
    Controller → NewReplies → SudoRequest → Resolution → SudoRequest → M Requeue
unfolding deny_new accept
check_new c r base resolution sr =
    on_option (c.syntax_error sr.spec.command)
      (λ e. deny_new r "syntax-check" "status update Denied for invalid syntax: %w" e base sr)
      (on_option (spec_error c resolution sr)
        (λ e. deny_new r "spec-validation" "status update Denied for invalid spec: %w" e base sr)
        (accept c r base sr))

unfoldable pub handle_new : Controller → NewReplies → SudoRequest → M Requeue
unfolding check_new
handle_new c r sr =
    let resolution = resolve_and_preflight (preflight_command c.shell) sr in
    check_new c r sr resolution (with_resolution resolution sr)
