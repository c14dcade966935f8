-- ===== src/Http/Submit.antt =====
-- api.go: createRequestHandler, writeCreateResponse and profilesHandler.
use sudo_service.Prelude.{
  String, List, [], ◌∷◌, Option, none, Bool, true, false, ◌||◌, not, is_empty, is_cons, ◌===◌,
  if◌then◌else◌,
}
use sudo_service.Types.{SudoRequest, empty_status, Error, api, errorf, wrapf, Result, Reply}
use sudo_service.Cluster.{WriteReply, write_error}
use sudo_service.Effects.{create_request, M, return, tell, resume, on_option, on_result, ◌>>◌}
use sudo_service.Controller.{Controller, controller_namespace}
use sudo_service.Profiles.Preflight.{preflight_command}
use sudo_service.Profiles.{
  ExecutorProfile, executor_profiles, default_executor_profile, resolve_and_preflight, image_for,
  profile_for,
}
use sudo_service.Validation.{validate_spec_extras}
use sudo_service.Playbooks.Params.{validate_playbook_spec}
use sudo_service.Reconciler.New.{error_of, first_error}
use sudo_service.Retry.Successor.{find_pending_duplicate}
use sudo_service.Http.Auth.{UserInfo, authorize_submit}
use sudo_service.Http.Message.{
  ApiServer, CreateRequestBody, HttpRequest, CreateResponse, Body, Response, with_body, refuse,
  method_not_allowed,
}
use sudo_service.Http.Callers.{authenticate_bearer}

-- The guard that every requester's handler puts before its work.
unfoldable pub authorized : ApiServer → UserInfo → M Response → M Response
authorized s identity work =
    resume (authorize_submit s.access_review (controller_namespace s.controller) identity)
      (λ allowed. if not allowed then refuse 403 (errorf "forbidden" []) else work)
      (λ e. refuse 503 (errorf "request authorization unavailable" []))

-- The API server mints the name from the prefix "http-", and the uid.
abbrev pub http_request : Controller → UserInfo → CreateRequestBody → SudoRequest
http_request c identity body = record {
  name = "";
  namespace = controller_namespace c;
  uid = "";
  creation_timestamp = 0;
  deletion_timestamp = none;
  finalizers = [];
  spec = record {
    requester = identity.username;
    submitted_by = identity.username;
    retry_of_uid = "";
    reason = body.reason;
    command = body.command;
    playbook = body.playbook;
    image = body.image;
    profile = body.profile;
    ttl_seconds_after_approval = body.ttl_seconds_after_approval;
    target_namespace = body.target_namespace;
    stdin = body.stdin;
    env = body.env;
    env_from = body.env_from;
    volumes = body.volumes;
    volume_mounts = body.volume_mounts;
    init_containers = body.init_containers;
    image_pull_secrets = body.image_pull_secrets;
    cluster_admin = body.cluster_admin;
  };
  status = empty_status;
}

-- The first check that fails.
unfoldable pub submit_error : Controller → SudoRequest → Option Error
unfolding first_error
submit_error c sr = first_error (
    c.syntax_error sr.spec.command
    ∷ error_of (resolve_and_preflight (preflight_command c.shell) sr)
    ∷ error_of (validate_spec_extras sr (controller_namespace c))
    ∷ error_of (validate_playbook_spec c sr)
    ∷ [])

unfoldable pub warnings_of : Result (Option ExecutorProfile × String × List String) → List String
warnings_of (Result.ok (profile, image, warnings)) = warnings
warnings_of (Result.err e) = []

unfoldable pub create_response : Controller → SudoRequest → Bool → CreateResponse
unfolding warnings_of
create_response c sr duplicate = record {
  uid = sr.uid;
  name = sr.name;
  duplicate = duplicate;
  retry_of_uid = sr.spec.retry_of_uid;
  image = image_for sr;
  profile = profile_for sr;
  warnings =
      if not (is_cons sr.status.preflight_warnings)
      then warnings_of (resolve_and_preflight (preflight_command c.shell) sr)
      else sr.status.preflight_warnings;
}

abbrev pub write_create_response : Controller → SudoRequest → Bool → M Response
write_create_response c sr duplicate =
    return (with_body 200 (Body.created (create_response c sr duplicate)))

pub record SubmitReplies : Type 0 where
  pub listing : Reply (List SudoRequest)
  pub create : WriteReply
  pub created_name : String
  pub created_uid : String

unfoldable pub create_new : Controller → SubmitReplies → SudoRequest → M Response
create_new c q sr = do
  tell (create_request sr q.create)
  on_option (write_error q.create) (λ e. refuse 500 (wrapf "create: %w" [] (api e)))
      (write_create_response c (record sr { name = q.created_name; uid = q.created_uid }) false)

-- Under requestMu.
unfoldable pub create_unless_duplicate : Controller → SubmitReplies → SudoRequest → M Response
unfolding create_new
create_unless_duplicate c q sr =
    on_result (find_pending_duplicate c q.listing sr)
      (λ duplicate. on_option duplicate (λ d. write_create_response c d true) (create_new c q sr))
      (λ e. refuse 500 (wrapf "check pending duplicates: %w" [] e))

unfoldable pub submit_body : ApiServer → SubmitReplies → UserInfo → CreateRequestBody → M Response
unfolding create_unless_duplicate
submit_body s q identity body =
    let sr = http_request s.controller identity body in
    if is_empty body.command || is_empty body.reason
    then refuse 400 (errorf "command and reason are required" [])
    else on_option (submit_error s.controller sr) (λ e. refuse 400 e)
        (create_unless_duplicate s.controller q sr)

unfoldable pub create_request_handler : ApiServer → SubmitReplies → HttpRequest → M Response
unfolding authorized submit_body
create_request_handler s q r =
    if not (r.method === "POST")
    then method_not_allowed
    else resume (authenticate_bearer s r)
        (λ identity. authorized s identity (
          resume r.body (λ body. submit_body s q identity body)
            (λ e. refuse 400 (wrapf "invalid JSON: %w" [] e))))
        (λ e. refuse 401 (errorf "unauthorized" []))

-- The catalogue, sorted by name.
abbrev pub list_executor_profiles : List (String × ExecutorProfile) → List ExecutorProfile
list_executor_profiles [] = []
list_executor_profiles ((name, p) ∷ rest) = p ∷ list_executor_profiles rest

unfoldable pub profiles_handler : ApiServer → HttpRequest → M Response
unfolding authorized
profiles_handler s r =
    if not (r.method === "GET")
    then method_not_allowed
    else resume (authenticate_bearer s r)
        (λ identity. authorized s identity (
          return (
            with_body 200
              (Body.profiles default_executor_profile (list_executor_profiles executor_profiles)))))
        (λ e. refuse 401 (errorf "unauthorized" []))
