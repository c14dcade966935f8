-- ===== src/Http/Decide.antt =====
-- api.go: the pages of the humans who decide: approveHandler, denyHandler and resubmitHandler.
use sudo_service.Prelude.{
  ℕ, String, List, [], ◌∷◌, Bool, true, false, ◌||◌, not, is_empty, ◌===◌, if◌then◌else◌,
}
use sudo_service.Types.{SudoRequest, Error, errorf, wrapf, pending_duplicate, Reply}
use sudo_service.Effects.{M, return, resume, on_result}
use sudo_service.Reconciler.Decide.{DecideReplies, approve, deny, verify_approval_token}
use sudo_service.Retry.Successor.{RetryReplies, retry_request}
use sudo_service.Http.Auth.{HumanClaims, is_in_group}
use sudo_service.Http.Message.{
  ApiServer, HttpRequest, Form, Body, Response, ResultView, with_body, refuse, method_not_allowed,
}
use sudo_service.Http.Callers.{find_by_uid, authenticate_human, validate_csrf, actor_of}
use sudo_service.Http.Page.{is_token_expired, PageReplies, render_approve_page}

abbrev pub result_page : HumanClaims → String → String → String → Bool → Bool → ResultView
result_page claims title message uid link_uid is_success = record {
  title = title;
  message = message;
  uid = uid;
  link_uid = link_uid;
  is_success = is_success;
  user = claims.preferred_username;
  user_email = claims.email;
}

-- The answers that a decision gets. `verify_listing` and `verify_time` are those of the token check.
pub record PostReplies : Type 0 where
  pub verify_listing : Reply (List SudoRequest)
  pub verify_time : ℕ
  pub decide : DecideReplies

-- The check of the token in the form, before the work: an expired token is as good as none.
unfoldable pub check_token :
    ApiServer → PostReplies → HumanClaims → Form → Error → M Response → M Response
check_token s q claims form no_token work =
    if not (is_empty form.token)
    then resume
        (verify_approval_token s.controller q.verify_listing q.verify_time form.id form.token)
        (λ sr. work)
        (λ e.
          if not (is_token_expired e) || not (is_in_group claims s.admin_group)
          then refuse 400 (wrapf "approval token check failed: %w" [] e)
          else work)
    else if not (is_in_group claims s.admin_group)
    then refuse 403 no_token
    else work

-- ParseForm and validateCSRF, before the work on the form.
unfoldable pub with_form : HttpRequest → (Form → M Response) → M Response
with_form r work =
    resume r.form
      (λ form.
        resume (validate_csrf r.csrf_cookie form.csrf_token) (λ _. work form)
          (λ e. refuse 403 (wrapf "forbidden: %w" [] e)))
      (λ e. refuse 400 (errorf "bad form" []))

unfoldable pub handle_approve_post :
    ApiServer → PostReplies → HttpRequest → HumanClaims → M Response
unfolding with_form check_token
handle_approve_post s q r claims = with_form r λ form.
    check_token s q claims form (errorf "forbidden: admin required for token-less approval" []) (
      on_result (approve q.decide form.id (actor_of claims))
        (λ _. return (
          with_body 200 (
            Body.result_page (
              result_page claims "Approved" "This request will execute shortly." form.id false
                true))))
        (λ e. refuse 500 (wrapf "approve: %w" [] e)))

unfoldable pub deny_handler_with_claims :
    ApiServer → PostReplies → HttpRequest → HumanClaims → M Response
unfolding with_form check_token
deny_handler_with_claims s q r claims = with_form r λ form.
    check_token s q claims form (errorf "forbidden: admin required for token-less denial" []) (
      on_result (deny q.decide form.id (actor_of claims) form.reason)
        (λ _. return (
          with_body 200 (
            Body.result_page (
              result_page claims "Denied" "The requester has been notified." form.id false false))))
        (λ e. refuse 500 (wrapf "deny: %w" [] e)))

abbrev pub requires_group : ApiServer → Error
requires_group s = errorf "forbidden: requires group %q" (s.admin_group ∷ [])

-- The guard of the pages: a verified human in the admin group.
unfoldable pub for_admin : ApiServer → HttpRequest → Error → (HumanClaims → M Response) → M Response
for_admin s r forbidden work =
    resume (authenticate_human s r)
      (λ claims.
        if not (is_in_group claims s.admin_group) then refuse 403 forbidden else work claims)
      (λ e. refuse 401 (wrapf "unauthorized: %w" [] e))

unfoldable pub deny_handler : ApiServer → PostReplies → HttpRequest → M Response
unfolding for_admin deny_handler_with_claims
deny_handler s q r =
    if not (r.method === "POST")
    then method_not_allowed
    else for_admin s r (errorf "forbidden" []) (deny_handler_with_claims s q r)

unfoldable pub approve_handler : ApiServer → PageReplies → PostReplies → HttpRequest → M Response
unfolding for_admin handle_approve_post render_approve_page
approve_handler s p q r = for_admin s r (requires_group s) λ claims.
    if r.method === "GET"
    then render_approve_page s p r claims
    else if r.method === "POST"
    then handle_approve_post s q r claims
    else method_not_allowed

-- The page that says which request stands in the way of a retry, or the refusal.
unfoldable pub resubmit_refusal : HumanClaims → Error → M Response
resubmit_refusal claims (pending_duplicate uid) = return (
    with_body 409 (
      Body.result_page (
        result_page claims "Equivalent request already pending"
          "Use the active request below instead of creating another retry." uid true false)))
resubmit_refusal claims e = refuse 409 (wrapf "resubmit: %w" [] e)

unfoldable pub resubmit_handler_with_claims :
    ApiServer → Reply (List SudoRequest) → RetryReplies → HttpRequest → HumanClaims → M Response
unfolding with_form resubmit_refusal
resubmit_handler_with_claims s listing q r claims =
    if not (is_in_group claims s.admin_group)
    then refuse 403 (errorf "forbidden" [])
    else with_form r λ form.
      resume (find_by_uid listing form.id)
        (λ source.
          on_result (retry_request s.controller q source (actor_of claims) true)
            (λ o. return (
              with_body 200 (
                Body.result_page (
                  result_page claims "Resubmitted" "A new request was created for explicit review."
                    (o.0).uid true true))))
            (resubmit_refusal claims))
        (λ e. refuse 404 (wrapf "source: %w" [] e))

unfoldable pub resubmit_handler :
    ApiServer → Reply (List SudoRequest) → RetryReplies → HttpRequest → M Response
unfolding resubmit_handler_with_claims
resubmit_handler s listing q r =
    if not (r.method === "POST")
    then method_not_allowed
    else resume (authenticate_human s r) (resubmit_handler_with_claims s listing q r)
        (λ e. refuse 401 (wrapf "unauthorized: %w" [] e))
