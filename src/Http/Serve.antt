-- ===== src/Http/Serve.antt =====
-- api.go: requestSubpathHandler with what it serves, retryRequester of retry.go, and the two event
-- streams. A channel's events are a list, at whose end the client goes away.
use sudo_service.Prelude.{
  ℕ, String, List, [], ◌∷◌, Option, none, some, Bool, false, not, is_empty, ◌===◌, if◌then◌else◌,
  trim_prefix, split_once,
}
use sudo_service.Types.{
  SudoRequest, is_terminal_phase, Error, api, errorf, wrapf, pending_duplicate, Result, Reply,
}
use sudo_service.Broadcaster.{Event}
use sudo_service.Effects.{M, return, resume, on_result, on_reply}
use sudo_service.Controller.{controller_namespace}
use sudo_service.Profiles.{image_for, profile_for}
use sudo_service.Executor.Target.{executor_namespace, cluster_admin_enabled}
use sudo_service.Reconciler.Deliver.{submitted_by_for}
use sudo_service.Retry.Successor.{RetryReplies, retry_request}
use sudo_service.Http.Auth.{UserInfo}
use sudo_service.Http.Message.{
  ApiServer, HttpRequest, RequestStatusResponse, Body, Response, with_body, refuse,
  method_not_allowed,
}
use sudo_service.Http.Callers.{find_by_uid, authenticate_bearer}
use sudo_service.Http.Submit.{authorized, write_create_response}

unfoldable pub request_status : String → SudoRequest → RequestStatusResponse
request_status own sr = record {
  uid = sr.uid;
  name = sr.name;
  phase = sr.status.phase;
  requester = sr.spec.requester;
  submitted_by = submitted_by_for sr;
  retry_of_uid = sr.spec.retry_of_uid;
  superseded_by_uid = sr.status.superseded_by_uid;
  command = sr.spec.command;
  playbook = sr.spec.playbook;
  image = image_for sr;
  profile = profile_for sr;
  preflight_warnings = sr.status.preflight_warnings;
  namespace = executor_namespace sr own;
  cluster_admin = cluster_admin_enabled sr own;
  approved_by = sr.status.approved_by;
  approved_at = sr.status.approved_at;
  denied_by = sr.status.denied_by;
  denied_at = sr.status.denied_at;
  denial_reason = sr.status.denial_reason;
  failure_reason = sr.status.failure_reason;
  exit_code = sr.status.exit_code;
  output_secret_ref = sr.status.output_secret_ref;
  output_capture_state = sr.status.output_capture_state;
  output_delivery_state = sr.status.output_delivery_state;
  output_failure_reason = sr.status.output_failure_reason;
  output_total_bytes = sr.status.output_total_bytes;
  output_retained_bytes = sr.status.output_retained_bytes;
  output_sha256 = sr.status.output_sha256;
  summary = sr.status.summary;
  permission_assessment = sr.status.permission_assessment;
  permission_assessment_state = sr.status.permission_assessment_state;
}

abbrev pub serve_status : ApiServer → SudoRequest → M Response
serve_status s sr =
    return (with_body 200 (Body.status_of (request_status (controller_namespace s.controller) sr)))

-- `secret` answers for the output Secret of a name, with its bytes.
unfoldable pub serve_output : (String → Reply (List ℕ)) → SudoRequest → M Response
serve_output secret sr =
    if is_empty sr.status.output_secret_ref
    then refuse 409 (errorf "output not available yet" [])
    else on_reply (secret sr.status.output_secret_ref)
        (λ bytes. return (with_body 200 (Body.output bytes)))
        (λ e. refuse 500 (wrapf "fetch output: %w" [] (api e)))

-- The first event of a stream: the state of the request as it is then.
unfoldable pub snapshot : SudoRequest → Event
snapshot sr = record {
  type = "snapshot";
  uid = "";
  phase = sr.status.phase;
  requester = "";
  reason = "";
  command = "";
  created_at = 0;
  retry_of_uid = "";
  approved_by = "";
  denied_by = "";
  denial_reason = sr.status.denial_reason;
  failure_reason = sr.status.failure_reason;
  exit_code = sr.status.exit_code;
  output_secret_ref = sr.status.output_secret_ref;
  output_capture_state = sr.status.output_capture_state;
  output_delivery_state = sr.status.output_delivery_state;
  output_failure_reason = sr.status.output_failure_reason;
  output_total_bytes = sr.status.output_total_bytes;
  output_retained_bytes = sr.status.output_retained_bytes;
  output_sha256 = sr.status.output_sha256;
}

-- The loop of serveEvents: up to the first terminal event.
unfoldable pub forward : List Event → List Event
forward [] = []
forward (e ∷ es) = let rest = forward es in e ∷ (if is_terminal_phase e.phase then [] else rest)

-- The request as it is read again after the subscription, or as it was.
unfoldable pub refreshed : Result SudoRequest → SudoRequest → SudoRequest
refreshed (Result.ok fresh) sr = fresh
refreshed (Result.err e) sr = sr

unfoldable pub stream : SudoRequest → List Event → List Event
unfolding forward
stream sr channel =
    snapshot sr ∷ (if is_terminal_phase sr.status.phase then [] else forward channel)

-- `again` is the listing that is read after the subscription to the request's channel.
unfoldable pub serve_events :
    Bool → Reply (List SudoRequest) → List Event → SudoRequest → M Response
unfolding stream
serve_events flushes again channel sr =
    if not flushes
    then refuse 500 (errorf "streaming unsupported" [])
    else return
        (with_body 200 (Body.events (stream (refreshed (find_by_uid again sr.uid) sr) channel)))

-- 409, with the uid of the duplicate if that is what stands in the way.
unfoldable pub retry_refusal : Error → M Response
retry_refusal (pending_duplicate uid) = return (with_body 409 (Body.duplicate_of uid))
retry_refusal e = refuse 409 e

unfoldable pub retry_requester :
    ApiServer → RetryReplies → HttpRequest → SudoRequest → UserInfo → M Response
unfolding retry_refusal
retry_requester s q r source identity =
    if not (r.method === "POST")
    then method_not_allowed
    else authorized s identity (
        on_result (retry_request s.controller q source identity.username false)
          (λ o. write_create_response s.controller o.0 (not o.1)) retry_refusal)

pub record ServeReplies : Type 0 where
  pub listing : Reply (List SudoRequest)
  pub listing_again : Reply (List SudoRequest)
  pub output : String → Reply (List ℕ)
  pub channel : List Event
  pub retry : RetryReplies

-- The switch on the text behind the uid.
unfoldable pub serve_subpath :
    ApiServer → ServeReplies → HttpRequest → UserInfo → String → SudoRequest → M Response
serve_subpath s q r identity subpath sr =
    if is_empty subpath
    then serve_status s sr
    else if subpath === "retry"
    then retry_requester s q.retry r sr identity
    else if subpath === "output"
    then serve_output q.output sr
    else if subpath === "events"
    then serve_events r.flushes q.listing_again q.channel sr
    else refuse 404 (errorf "404 page not found" [])

abbrev pub or_empty : Option String → String
or_empty none = ""
or_empty (some t) = t

-- The uid in the path, and the text behind it; 47 is the number of the slash.
abbrev pub path_parts : HttpRequest → String × Option String
path_parts r = split_once 47 (trim_prefix r.path "/requests/")

unfoldable pub request_subpath_handler : ApiServer → ServeReplies → HttpRequest → M Response
unfolding serve_subpath
request_subpath_handler s q r =
    let parts = path_parts r in
    if is_empty parts.0
    then refuse 400 (errorf "missing uid" [])
    else resume (authenticate_bearer s r)
        (λ identity.
          resume (find_by_uid q.listing parts.0)
            (λ sr.
              if not (sr.spec.requester === identity.username)
              then refuse 403 (errorf "forbidden: not the requester" [])
              else serve_subpath s q r identity (or_empty parts.1) sr)
            (λ e. refuse 404 e))
        (λ e. refuse 401 (errorf "unauthorized" []))
