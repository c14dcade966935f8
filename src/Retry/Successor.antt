-- ===== src/Retry/Successor.antt =====
-- retry.go: retryRequest and what it calls. `link` holds the attempts of the retry on a
-- conflict. The refusal of a phase keeps its format only.
use sudo_service.Prelude.{
  String, List, [], ◌∷◌, Option, none, some, Bool, true, false, ◌||◌, not, is_empty, ◌===◌,
  if◌then◌else◌, text_append, to_lower,
}
use sudo_service.Types.{
  SudoRequest, empty_status, Phase, is_terminal_phase, expired, failed, Error, api, errorf, wrapf,
  pending_duplicate, conflict, is_conflict, is_not_found, is_already_exists, Result, ok, err, Reply,
}
use sudo_service.Cluster.{WriteReply, write_error}
use sudo_service.Effects.{
  write_status, create_request, M, return, fail, tell, lift, on_option, on_reply, ◌>>=◌, ◌>>◌,
}
use sudo_service.Profiles.Preflight.{preflight_command}
use sudo_service.Profiles.{resolve_and_preflight}
use sudo_service.Validation.{validate_spec_extras}
use sudo_service.Playbooks.Params.{validate_playbook_spec}
use sudo_service.Controller.{Controller, controller_namespace}
use sudo_service.Reconciler.Update.{Attempt}
use sudo_service.Reconciler.New.{error_of, first_error}
use sudo_service.Retry.Fingerprint.{execution_fingerprint, first_duplicate}

unfoldable pub retry_child_name : String → String
retry_child_name uid = text_append "retry-" (to_lower uid)

abbrev pub requester_retryable : Phase → Bool
requester_retryable expired = true
requester_retryable failed = true
requester_retryable _ = false

abbrev pub set_superseded : String → SudoRequest → SudoRequest
set_superseded uid s = record s { status = record (s.status) { superseded_by_uid = uid } }

unfoldable pub link_found :
    String → String → String → SudoRequest → WriteReply → M (Unit {0}) → M (Unit {0})
link_found name source_uid successor_uid current reply again =
    if not (current.uid === source_uid)
    then fail (errorf "source request %q was replaced" (name ∷ []))
    else if current.status.superseded_by_uid === successor_uid
    then return tt
    else if not (is_empty current.status.superseded_by_uid)
    then fail (errorf "source already superseded by %s" (current.status.superseded_by_uid ∷ []))
    else (do
      tell (write_status current (set_superseded successor_uid current) reply)
      on_option (write_error reply) (λ e. if is_conflict e then again else fail (api e))
          (return tt))

unfoldable pub ensure_superseded_link : List Attempt → String → String → String → M (Unit {0})
unfolding link_found
ensure_superseded_link [] name source_uid successor_uid = fail (api conflict)
ensure_superseded_link (a ∷ rest) name source_uid successor_uid =
    let again = ensure_superseded_link rest name source_uid successor_uid in
    on_reply a.latest (λ current. link_found name source_uid successor_uid current a.reply again)
      (λ e. if is_conflict e then again else fail (api e))

abbrev pub forget_image : SudoRequest → SudoRequest
forget_image s = record s { status = record (s.status) { resolved_image = "" } }

unfoldable pub same_digest : Result String → Result String → Result (Unit {0})
same_digest (Result.err e) got = err (wrapf "fingerprint retry source: %w" [] e)
same_digest (Result.ok want) (Result.err e) = err (wrapf "fingerprint retry successor: %w" [] e)
same_digest (Result.ok want) (Result.ok got) =
    if not (got === want)
    then err (
        errorf "deterministic retry name is occupied by a request with different execution fields"
          [])
    else ok tt

unfoldable pub validate_retry_successor : Controller → SudoRequest → SudoRequest → Result (Unit {0})
unfolding same_digest
validate_retry_successor c source successor =
    if not (successor.spec.retry_of_uid === source.uid)
      || not (successor.spec.requester === source.spec.requester)
    then err (errorf "deterministic retry name is occupied by an unrelated request" [])
    else same_digest (execution_fingerprint c (forget_image source) (controller_namespace c))
        (execution_fingerprint c (forget_image successor) (controller_namespace c))

-- The successor, and whether it was created by this call.
abbrev pub Outcome : Type 0
Outcome = SudoRequest × Bool

unfoldable pub adopt_retry_successor :
    Controller → List Attempt → SudoRequest → SudoRequest → M Outcome
adopt_retry_successor c link source successor = do
  lift (validate_retry_successor c source successor)
  ensure_superseded_link link source.name source.uid successor.uid
  return (successor, false)

pub record RetryReplies : Type 0 where
  pub existing : Reply SudoRequest
  pub listing : Reply (List SudoRequest)
  pub create : WriteReply
  pub created_uid : String
  pub winner : Reply SudoRequest
  pub link : List Attempt

unfoldable pub find_pending_duplicate :
    Controller → Reply (List SudoRequest) → SudoRequest → M (Option SudoRequest)
find_pending_duplicate c listing candidate = do
  want ← lift (execution_fingerprint c candidate (controller_namespace c))
  on_reply listing
      (λ items. return (first_duplicate c (controller_namespace c) candidate want items))
      (λ e. fail (api e))

abbrev pub successor_of : Controller → SudoRequest → String → SudoRequest
successor_of c source submitted_by = record {
  name = retry_child_name source.uid;
  namespace = controller_namespace c;
  uid = "";
  creation_timestamp = 0;
  deletion_timestamp = none;
  finalizers = [];
  spec = record (source.spec) { retry_of_uid = source.uid; submitted_by = submitted_by };
  status = empty_status;
}

abbrev pub preflight_error : Option Error → Option Error
preflight_error none = none
preflight_error (some e) = some (wrapf "retry preflight: %w" [] e)

unfoldable pub retry_error : Controller → SudoRequest → Option Error
unfolding first_error
retry_error c successor = first_error (
    preflight_error (error_of (resolve_and_preflight (preflight_command c.shell) successor))
    ∷ c.syntax_error successor.spec.command
    ∷ error_of (validate_spec_extras successor (controller_namespace c))
    ∷ error_of (validate_playbook_spec c successor)
    ∷ [])

unfoldable pub create_successor : Controller → RetryReplies → SudoRequest → SudoRequest → M Outcome
create_successor c r source successor = do
  tell (create_request successor r.create)
  on_option (write_error r.create)
      (λ e.
        if not (is_already_exists e)
        then fail (api e)
        else on_reply r.winner (adopt_retry_successor c r.link source) (λ g. fail (api g)))
      (ensure_superseded_link r.link source.name source.uid r.created_uid
        >> return (record successor { uid = r.created_uid }, true))

unfoldable pub submit_again : Controller → RetryReplies → SudoRequest → SudoRequest → M Outcome
unfolding create_successor
submit_again c r source successor = find_pending_duplicate c r.listing successor >>= λ duplicate.
    on_option duplicate
      (λ d.
        if d.name === successor.name
        then adopt_retry_successor c r.link source d
        else fail (pending_duplicate d.uid))
      (on_option (retry_error c successor) fail (create_successor c r source successor))

unfoldable pub retry_request : Controller → RetryReplies → SudoRequest → String → Bool → M Outcome
unfolding submit_again
retry_request c r source submitted_by admin =
    if is_empty source.uid
    then fail (errorf "source request has no UID" [])
    else if not (
        if admin
        then is_terminal_phase source.status.phase
        else requester_retryable source.status.phase)
    then fail (errorf "request phase %q is not eligible for %s resubmission" [])
    else on_reply r.existing (adopt_retry_successor c r.link source) (λ e.
      if not (is_not_found e)
      then fail (api e)
      else if not (is_empty source.status.superseded_by_uid)
      then fail (
          errorf "source already superseded by %s, but that successor is unavailable"
            (source.status.superseded_by_uid ∷ []))
      else submit_again c r source (successor_of c source submitted_by))
