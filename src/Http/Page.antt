-- ===== src/Http/Page.antt =====
-- api.go: renderApprovePage, the page on which a request is approved.
use sudo_service.Prelude.{
  ℕ, String, List, [], Option, none, some, Bool, true, false, ◌&&◌, not, is_empty, if◌then◌else◌,
}
use sudo_service.Types.{
  SudoRequest, is_pending, is_terminal_phase, Error, errorf, approval_token_expired, Result, ok,
  err, Reply,
}
use sudo_service.Effects.{M, return}
use sudo_service.Controller.{Controller, controller_namespace}
use sudo_service.Reconciler.Decide.{verify_approval_token}
use sudo_service.Reconciler.Deliver.{labels_of}
use sudo_service.Executor.Manifest.{JobManifest}
use sudo_service.Review.Extras.{SpecExtrasView, new_spec_extras_view, display_pod_template}
use sudo_service.Http.Auth.{HumanClaims, is_in_group}
use sudo_service.Http.Message.{ApiServer, HttpRequest, Body, Response, refuse}
use sudo_service.Http.Callers.{find_by_uid, csrf_token_for, ensure_csrf_cookie}

-- `errors.Is(err, errApprovalTokenExpired)`.
abbrev pub is_token_expired : Error → Bool
is_token_expired approval_token_expired = true
is_token_expired _ = false

-- The request that the page shows, with the token that its form carries. `listing` is what the
-- second look finds.
unfoldable pub shown_after_expiry :
    Result SudoRequest → String → Error → Result SudoRequest × String
shown_after_expiry (Result.ok sr) token e =
    (ok sr, if is_pending sr.status.phase then "" else token)
shown_after_expiry (Result.err d) token e = (err d, token)

unfoldable pub shown_by_token :
    Bool → Result SudoRequest → Result SudoRequest → String → Result SudoRequest × String
unfolding shown_after_expiry
shown_by_token admin again (Result.ok sr) token = (ok sr, token)
shown_by_token admin again (Result.err e) token =
    if is_token_expired e && admin then shown_after_expiry again token e else (err e, token)

-- `adminRetryable(phase) && supersededByUID == ""`, of a request that was found.
unfoldable pub can_resubmit : Result SudoRequest → Bool
can_resubmit (Result.err e) = false
can_resubmit (Result.ok sr) =
    is_terminal_phase sr.status.phase && is_empty sr.status.superseded_by_uid

unfoldable pub effects_shown : Result SudoRequest → List String
effects_shown (Result.err e) = []
effects_shown (Result.ok sr) = elim sr.status.permission_assessment [
  | none ↦ []
  | some a ↦ labels_of a.effects
]

unfoldable pub extras_shown : Controller → Result SudoRequest → Option SpecExtrasView
extras_shown c (Result.err e) = none
extras_shown c (Result.ok sr) = some (new_spec_extras_view sr false (controller_namespace c))

abbrev pub if_rendered : Result JobManifest → Option JobManifest
if_rendered (Result.err e) = none
if_rendered (Result.ok pod) = some pod

unfoldable pub pod_shown : Controller → Result SudoRequest → Option JobManifest
pod_shown c (Result.err e) = none
pod_shown c (Result.ok sr) =
    if_rendered (display_pod_template c.shlex_split c.rules sr false (controller_namespace c))

pub record PageReplies : Type 0 where
  pub verify_listing : Reply (List SudoRequest)
  pub verify_time : ℕ
  pub listing : Reply (List SudoRequest)
  pub random : Result (List ℕ)

abbrev pub approve_page_of :
    Controller → HttpRequest → PageReplies → HumanClaims → Result SudoRequest × String → M Response
approve_page_of c r q claims shown = return (record {
  status = 200;
  body = Body.approve_page (record {
    uid = r.query_id;
    token = shown.1;
    request = shown.0;
    can_resubmit = can_resubmit shown.0;
    extras = extras_shown c shown.0;
    pod_template = pod_shown c shown.0;
    permission_effects = effects_shown shown.0;
    user = claims.preferred_username;
    user_email = claims.email;
    csrf_token = csrf_token_for r.csrf_cookie q.random;
  });
  set_cookie = ensure_csrf_cookie r.csrf_cookie q.random;
})

unfoldable pub render_approve_page :
    ApiServer → PageReplies → HttpRequest → HumanClaims → M Response
unfolding shown_by_token can_resubmit effects_shown
render_approve_page s q r claims =
    let admin = is_in_group claims s.admin_group in
    let again = find_by_uid q.listing r.query_id in
    if is_empty r.query_id
    then refuse 400 (errorf "missing id" [])
    else if not (is_empty r.query_token)
    then approve_page_of s.controller r q claims (
        shown_by_token admin again
          (verify_approval_token s.controller q.verify_listing q.verify_time r.query_id
            r.query_token)
          r.query_token)
    else if admin
    then approve_page_of s.controller r q claims (again, r.query_token)
    else refuse 401 (errorf "missing token or not an admin" [])
