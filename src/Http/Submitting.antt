-- ===== src/Http/Submitting.antt =====
-- api.go: what a POST of a new request creates, and for whom.
use sudo_service.Prelude.{
  ℕ, Option, none, some, true, false, not, ◌||◌, ◌≡◌, refl, arith, is_empty, ◌===◌, eq_iff, All,
}
use sudo_service.Types.{SudoRequest, Error, ok}
use sudo_service.Effects.{Effect, create_request, M, on_option}
use sudo_service.Cluster.{write_error}
use sudo_service.Controller.{Controller, controller_namespace}
use sudo_service.Profiles.Preflight.{preflight_command}
use sudo_service.Profiles.{resolve_and_preflight}
use sudo_service.Validation.{validate_spec_extras}
use sudo_service.Playbooks.Params.{validate_playbook_spec}
use sudo_service.Reconciler.New.{error_of}
use sudo_service.Reconciler.Checks.{all-none, error_of-ok}
use sudo_service.Lifecycle.Rules.{Each, Each-on_option, Each-on_result_eq}
use sudo_service.Retry.Fresh.{IsFresh, find_pending_duplicate-IsFresh, find_pending_duplicate-Each}
use sudo_service.Retry.Successor.{find_pending_duplicate}
use sudo_service.Http.Auth.{UserInfo}
use sudo_service.Http.Message.{ApiServer, HttpRequest, CreateRequestBody, Response, refuse}
use sudo_service.Http.Callers.{authenticate_bearer}
use sudo_service.Http.Submit.{
  SubmitReplies, http_request, submit_error, create_new, create_unless_duplicate, submit_body,
  create_request_handler, write_create_response,
}
use sudo_service.Http.Guards.{if_guard, resume_guard, authorized_guard}
use sudo_service.Http.Identity.{
  Vouched, MaySubmit, authenticate_bearer-Vouched, authorize_submit-MaySubmit,
}

-- The request passes the checks that handleNew makes too.
abbrev pub PassesChecks : Controller → SudoRequest → Type 0
PassesChecks c sr =
    (c.syntax_error sr.spec.command ≡ none)
    × (error_of (resolve_and_preflight (preflight_command c.shell) sr) ≡ none)
    × (validate_spec_extras sr (controller_namespace c) ≡ ok tt)
    × (validate_playbook_spec c sr ≡ ok tt)

-- The request is the body of a POST, in the name of a caller that the API server vouches for and lets
-- submit; it gives a command and a reason, passes the checks, and has no open duplicate.
abbrev pub Submission : ApiServer → SubmitReplies → HttpRequest → SudoRequest → Type 0
Submission s q r sr =
    (identity : UserInfo) × (body : CreateRequestBody) × (r.method ≡ "POST")
    × Vouched s r identity
    × MaySubmit s identity
    × (r.body ≡ ok body)
    × (sr ≡ http_request s.controller identity body)
    × (is_empty sr.spec.command ≡ false)
    × (is_empty sr.spec.reason ≡ false)
    × PassesChecks s.controller sr
    × IsFresh s.controller q.listing sr

-- No effect but the creation of such a request.
abbrev pub Creates : (SudoRequest → Type 0) → Effect → Type 0
Creates C (create_request sr reply) = C sr
Creates C _ = ⊥

submit_error-none :
    (c : Controller) (sr : SudoRequest) → submit_error c sr ≡ none → PassesChecks c sr
unfolding submit_error
submit_error-none c sr h =
    let each =
      all-none (c.syntax_error sr.spec.command)
        (error_of (resolve_and_preflight (preflight_command c.shell) sr))
        (error_of (validate_spec_extras sr (controller_namespace c)))
        (error_of (validate_playbook_spec c sr)) h in
    (
      each.0,
      each.1,
      error_of-ok (validate_spec_extras sr (controller_namespace c)) each.2,
      error_of-ok (validate_playbook_spec c sr) each.3,
    )

module _ (s : ApiServer) (q : SubmitReplies) (r : HttpRequest) where
  abbrev P : M Response → Type 0
  P m = All (Creates (Submission s q r)) m.effects

  no : (status : ℕ) (e : Error) → P (refuse status e)
  no status e = tt

  create_new-Each : (sr : SudoRequest) → Submission s q r sr → P (create_new s.controller q sr)
  unfolding create_new
  create_new-Each sr h =
      (h, Each-on_option (Creates (Submission s q r)) (write_error q.create) _ _ (λ e. tt) tt)

  create_unless_duplicate-Each :
      (sr : SudoRequest)
      → (IsFresh s.controller q.listing sr → Submission s q r sr)
      → P (create_unless_duplicate s.controller q sr)
  unfolding create_unless_duplicate
  create_unless_duplicate-Each sr h =
      Each-on_result_eq (Creates (Submission s q r))
        (find_pending_duplicate s.controller q.listing sr) _ _
        (find_pending_duplicate-Each (Creates (Submission s q r)) s.controller q.listing sr)
        searched (λ e. tt)
    where
      searched :
          (duplicate : Option SudoRequest)
          → (find_pending_duplicate s.controller q.listing sr).result ≡ ok duplicate
          → P (
              on_option duplicate
                (λ d. write_create_response s.controller d true)
                (create_new s.controller q sr))
      searched none e =
          create_new-Each sr (h (find_pending_duplicate-IsFresh s.controller sr q.listing e))
      searched (some d) e = tt

  submit_body-Each :
      (identity : UserInfo) (body : CreateRequestBody)
      → (r.method ≡ "POST")
      → Vouched s r identity
      → MaySubmit s identity
      → r.body ≡ ok body
      → P (submit_body s q identity body)
  unfolding submit_body
  submit_body-Each identity body post vouched may decoded =
      if_guard P (is_empty body.command || is_empty body.reason) _ _ (λ _. tt)
        λ stated. checked stated (submit_error s.controller sr) refl
    where
      sr : SudoRequest
      sr = http_request s.controller identity body

      checked :
          (is_empty body.command || is_empty body.reason) ≡ false
          → (o : Option Error) → submit_error s.controller sr ≡ o
          → P (on_option o (λ e. refuse 400 e) (create_unless_duplicate s.controller q sr))
      checked stated (some e) g = tt
      checked stated none g = create_unless_duplicate-Each sr λ fresh. (
        identity,
        body,
        post,
        vouched,
        may,
        decoded,
        refl,
        ground (arith, stated),
        ground (arith, stated),
        submit_error-none s.controller sr g,
        fresh,
      )

-- For every request, configuration and answers, createRequestHandler has no effect but the creation
-- of a request: for a POST by a caller whose bearer token the API server vouches for under the
-- controller's audience and whom it lets submit, of the fields in the body under the caller's own
-- name; the request has a command and a reason, passes the four checks that handleNew makes too,
-- and no open request in the list that was read has its requester and execution fingerprint.
pub create_request_handler-Submission :
    (s : ApiServer) (q : SubmitReplies) (r : HttpRequest)
    → Each (Creates (Submission s q r)) (create_request_handler s q r)
unfolding create_request_handler
create_request_handler-Submission s q r =
    let P = P s q r in
    if_guard P (not (r.method === "POST")) _ _ (λ _. tt)
      λ post.
        resume_guard P (authenticate_bearer s r) _ _
          (λ identity known. authorized_guard P (no s q r) s identity _ λ allowed.
            resume_guard P r.body _ _
              (λ body decoded.
                submit_body-Each s q r identity body
                  ((eq_iff r.method "POST").0 (ground (arith, post)))
                  (authenticate_bearer-Vouched s r identity known)
                  (authorize_submit-MaySubmit s identity allowed) decoded)
              λ e _. tt)
          λ e _. tt
