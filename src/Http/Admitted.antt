-- ===== src/Http/Admitted.antt =====
-- api.go: what the pages of the humans change, and for whom.
use sudo_service.Prelude.{
  ℕ, List, [], ◌++◌, true, not, ◌≡◌, ◌⊎◌, inl, inr, refl, ap, ◌∙◌, arith, ◌===◌, eq_iff,
}
use mathlib.Core.List.{append-nil}
use sudo_service.Types.{SudoRequest, Error, Result, ok, err, Reply}
use sudo_service.Effects.{Effect, M, resume, on_result}
use sudo_service.Reconciler.Decide.{approve, deny}
use sudo_service.Retry.Successor.{RetryReplies, retry_request}
use sudo_service.Http.Auth.{HumanClaims, is_in_group}
use sudo_service.Http.Message.{ApiServer, HttpRequest, Form, Response, refuse}
use sudo_service.Http.Callers.{find_by_uid, actor_of, authenticate_human}
use sudo_service.Http.Decide.{
  PostReplies, approve_handler, deny_handler, resubmit_handler, handle_approve_post,
  deny_handler_with_claims, resubmit_handler_with_claims, resubmit_refusal, requires_group,
}
use sudo_service.Http.Page.{PageReplies, render_approve_page}
use sudo_service.Http.Guards.{
  Stands, if_guard, resume_guard, for_admin_guard, with_form_guard, check_token_guard,
}
use sudo_service.Http.Identity.{
  Verified, SameToken, authenticate_human-Verified, validate_csrf-SameToken,
}
use sudo_service.Http.Groups.{InGroup, is_in_group_iff}

-- A POST of a form by a human of the admin group, whose JWT verifies and whose form carries the token
-- of the cookie.
abbrev pub Admission : ApiServer → HttpRequest → HumanClaims → Form → Type 0
Admission s r claims form =
    (r.method ≡ "POST")
    × Verified s r claims
    × InGroup s.admin_group claims
    × (r.form ≡ ok form)
    × SameToken r.csrf_cookie form.csrf_token

-- The handler does nothing but answer, or the caller is admitted and its effects satisfy `A`.
abbrev pub Acts :
    ApiServer → HttpRequest → (HumanClaims → Form → List Effect → Type 0) → M Response → Type 0
Acts s r A m =
    (m.effects ≡ [])
    ⊎ ((claims : HumanClaims) × (form : Form) × Admission s r claims form × A claims form m.effects)

-- What is done after a call adds no effect to the call's.
pub on_result-effects :
    {A B : Type 0} (m : M A) (f : A → M B) (g : Error → M B)
    → ((a : A) → (f a).effects ≡ [])
    → ((e : Error) → (g e).effects ≡ [])
    → (on_result m f g).effects ≡ m.effects
on_result-effects {A} m f g hf hg =
    ap (λ es. m.effects ++ es) (after m.result) ∙ append-nil m.effects
  where
    after : (r : Result A) → (resume r f g).effects ≡ []
    after (ok a) = hf a
    after (err e) = hg e

module _ (s : ApiServer) (r : HttpRequest) where
  Acts-refuse :
      (A : HumanClaims → Form → List Effect → Type 0) (status : ℕ) (e : Error)
      → Acts s r A (refuse status e)
  Acts-refuse A status e = inl refl

  admitted :
      (claims : HumanClaims) (form : Form)
      → (r.method === "POST") ≡ true
      → Verified s r claims
      → InGroup s.admin_group claims
      → r.form ≡ ok form
      → SameToken r.csrf_cookie form.csrf_token
      → Admission s r claims form
  admitted claims form post verified member parsed same =
      ((eq_iff r.method "POST").0 post, verified, member, parsed, same)

  module _ (q : PostReplies) where
    abbrev pub Approves : HumanClaims → Form → List Effect → Type 0
    Approves claims form es =
        Stands s q form × (es ≡ (approve q.decide form.id (actor_of claims)).effects)

    abbrev pub Denies : HumanClaims → Form → List Effect → Type 0
    Denies claims form es =
        Stands s q form × (es ≡ (deny q.decide form.id (actor_of claims) form.reason).effects)

    approve_post-Acts :
        (claims : HumanClaims)
        → (r.method === "POST") ≡ true
        → Verified s r claims
        → InGroup s.admin_group claims
        → Acts s r Approves (handle_approve_post s q r claims)
    unfolding handle_approve_post
    approve_post-Acts claims post verified member =
        let P = Acts s r Approves in
        let no = Acts-refuse Approves in
        with_form_guard P no r _ λ form parsed csrf.
          check_token_guard P no s q claims form _ _ λ stands. inr (
            claims,
            form,
            admitted claims form post verified member parsed
                (validate_csrf-SameToken r.csrf_cookie form.csrf_token csrf),
            (
              stands,
              on_result-effects (approve q.decide form.id (actor_of claims)) _ _ (λ _. refl)
                  (λ _. refl),
            ),
          )

    deny_post-Acts :
        (claims : HumanClaims)
        → (r.method === "POST") ≡ true
        → Verified s r claims
        → InGroup s.admin_group claims
        → Acts s r Denies (deny_handler_with_claims s q r claims)
    unfolding deny_handler_with_claims
    deny_post-Acts claims post verified member =
        let P = Acts s r Denies in
        let no = Acts-refuse Denies in
        with_form_guard P no r _ λ form parsed csrf.
          check_token_guard P no s q claims form _ _ λ stands. inr (
            claims,
            form,
            admitted claims form post verified member parsed
                (validate_csrf-SameToken r.csrf_cookie form.csrf_token csrf),
            (
              stands,
              on_result-effects (deny q.decide form.id (actor_of claims) form.reason) _ _
                  (λ _. refl) (λ _. refl),
            ),
          )

    page-quiet :
        (p : PageReplies) (claims : HumanClaims) → (render_approve_page s p r claims).effects ≡ []
    unfolding render_approve_page
    page-quiet p claims = ground arith

    approve_handler-Acts : (p : PageReplies) → Acts s r Approves (approve_handler s p q r)
    unfolding approve_handler
    approve_handler-Acts p =
        let P = Acts s r Approves in
        let no = Acts-refuse Approves in
        for_admin_guard P no s r (requires_group s) _ λ claims verified member.
          if_guard P (r.method === "GET") _ _ (λ _. inl (page-quiet p claims))
            λ _.
              if_guard P (r.method === "POST") _ _
                (λ post.
                  approve_post-Acts claims post (authenticate_human-Verified s r claims verified)
                    ((is_in_group_iff s.admin_group claims).0 member))
                λ _. inl refl

    deny_handler-Acts : Acts s r Denies (deny_handler s q r)
    unfolding deny_handler
    deny_handler-Acts =
        let P = Acts s r Denies in
        let no = Acts-refuse Denies in
        if_guard P (not (r.method === "POST")) _ _ (λ _. inl refl)
          λ post. for_admin_guard P no s r _ _ λ claims verified member.
            deny_post-Acts claims (ground (arith, post))
              (authenticate_human-Verified s r claims verified)
              ((is_in_group_iff s.admin_group claims).0 member)

  module _ (listing : Reply (List SudoRequest)) (t : RetryReplies) where
    abbrev pub Resubmits : HumanClaims → Form → List Effect → Type 0
    Resubmits claims form es =
        (source : SudoRequest) × (find_by_uid listing form.id ≡ ok source)
        × (es ≡ (retry_request s.controller t source (actor_of claims) true).effects)

    resubmit_refusal-quiet :
        (claims : HumanClaims) (e : Error) → (resubmit_refusal claims e).effects ≡ []
    unfolding resubmit_refusal
    resubmit_refusal-quiet claims (Error.pending_duplicate uid) = refl
    resubmit_refusal-quiet claims _ = refl

    resubmit_handler-Acts : Acts s r Resubmits (resubmit_handler s listing t r)
    unfolding resubmit_handler resubmit_handler_with_claims
    resubmit_handler-Acts =
        let P = Acts s r Resubmits in
        let no = Acts-refuse Resubmits in
        if_guard P (not (r.method === "POST")) _ _ (λ _. inl refl)
          λ post.
            resume_guard P (authenticate_human s r) _ _
              (λ claims verified.
                if_guard P (not (is_in_group claims s.admin_group)) _ _ (λ _. inl refl)
                  λ member. with_form_guard P no r _ λ form parsed csrf.
                    resume_guard P (find_by_uid listing form.id) _ _
                      (λ source at. inr (
                        claims,
                        form,
                        admitted claims form (ground (arith, post))
                            (authenticate_human-Verified s r claims verified)
                            ((is_in_group_iff s.admin_group claims).0 (ground (arith, member)))
                            parsed (validate_csrf-SameToken r.csrf_cookie form.csrf_token csrf),
                        (
                          source,
                          at,
                          on_result-effects
                              (retry_request s.controller t source (actor_of claims) true) _ _
                              (λ _. refl) (resubmit_refusal-quiet claims),
                        ),
                      ))
                      λ e _. inl refl)
              λ e _. inl refl

-- For every request, configuration and answers, approveHandler, denyHandler and resubmitHandler
-- have no effect, or it is a POST whose JWT verifies, of a human in the admin group, whose form
-- carries the token of the CSRF cookie; the effects are then those of Approve, Deny or retryRequest
-- for the id in the form in that human's name, and for Approve and Deny a token in the form, if
-- there is one, was verified or has expired.
pub handlers-Admitted :
    (s : ApiServer) (r : HttpRequest) (p : PageReplies) (q : PostReplies)
    (listing : Reply (List SudoRequest)) (t : RetryReplies)
    → Acts s r (Approves s r q) (approve_handler s p q r)
      × Acts s r (Denies s r q) (deny_handler s q r)
      × Acts s r (Resubmits s r listing t) (resubmit_handler s listing t r)
handlers-Admitted s r p q listing t =
    (approve_handler-Acts s r q p, deny_handler-Acts s r q, resubmit_handler-Acts s r listing t)
