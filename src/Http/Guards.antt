-- ===== src/Http/Guards.antt =====
-- api.go: what holds behind each guard of the handlers. `P` is a predicate on what a handler does that
-- every refusal satisfies.
use sudo_service.Prelude.{
  ℕ, Bool, true, false, not, ◌||◌, ◌≡◌, ◌⊎◌, inl, inr, ◌∙◌, refl, ap, arith, is_empty,
  if◌then◌else◌,
}
use sudo_service.Types.{Error, Result, ok, err, is_ok, approval_token_expired}
use sudo_service.Effects.{M, resume}
use sudo_service.Controller.{controller_namespace}
use sudo_service.Reconciler.Decide.{verify_approval_token}
use sudo_service.Http.Auth.{HumanClaims, UserInfo, is_in_group, authorize_submit}
use sudo_service.Http.Message.{ApiServer, HttpRequest, Form, Response, refuse}
use sudo_service.Http.Callers.{authenticate_human, validate_csrf}
use sudo_service.Http.Submit.{authorized}
use sudo_service.Http.Decide.{PostReplies, check_token, with_form, for_admin}
use sudo_service.Http.Page.{is_token_expired}

-- The token of the form is not set, or it opens the request, or it did until it expired.
abbrev pub Stands : ApiServer → PostReplies → Form → Type 0
Stands s q form =
    let opened =
      verify_approval_token s.controller q.verify_listing q.verify_time form.id form.token in
    (is_empty form.token ≡ true) ⊎ (is_ok opened ≡ true) ⊎ (opened ≡ err approval_token_expired)

is_token_expired-eq : (e : Error) → is_token_expired e ≡ true → e ≡ approval_token_expired
is_token_expired-eq Error.approval_token_expired h = refl
is_token_expired-eq _ h = ground arith

module _ (P : M Response → Type 0) where
  pub if_guard :
      (b : Bool) (m n : M Response) → (b ≡ true → P m) → (b ≡ false → P n) → P (if b then m else n)
  if_guard true m n hm hn = hm refl
  if_guard false m n hm hn = hn refl

  pub resume_guard :
      {A : Type 0} (r : Result A) (f : A → M Response) (g : Error → M Response)
      → ((a : A) → r ≡ ok a → P (f a))
      → ((e : Error) → r ≡ err e → P (g e))
      → P (resume r f g)
  resume_guard (ok a) f g hf hg = hf a refl
  resume_guard (err e) f g hf hg = hg e refl

  module _ (refusal : (status : ℕ) (e : Error) → P (refuse status e)) where
    pub for_admin_guard :
        (s : ApiServer) (r : HttpRequest) (forbidden : Error) (work : HumanClaims → M Response)
        → ((claims : HumanClaims)
            → authenticate_human s r ≡ ok claims
            → is_in_group claims s.admin_group ≡ true
            → P (work claims))
        → P (for_admin s r forbidden work)
    unfolding for_admin
    for_admin_guard s r forbidden work h =
        resume_guard (authenticate_human s r) _ _
          (λ claims e.
            if_guard (not (is_in_group claims s.admin_group)) _ _ (λ _. refusal _ _)
              λ g. h claims e (ground (arith, g)))
          λ e _. refusal _ _

    pub with_form_guard :
        (r : HttpRequest) (work : Form → M Response)
        → ((form : Form)
            → r.form ≡ ok form
            → validate_csrf r.csrf_cookie form.csrf_token ≡ ok tt
            → P (work form))
        → P (with_form r work)
    unfolding with_form
    with_form_guard r work h =
        resume_guard r.form _ _
          (λ form e.
            resume_guard (validate_csrf r.csrf_cookie form.csrf_token) _ _ (λ u c. h form e c)
              λ d _. refusal _ _)
          λ e _. refusal _ _

    pub check_token_guard :
        (s : ApiServer) (q : PostReplies) (claims : HumanClaims) (form : Form) (no_token : Error)
        (work : M Response)
        → (Stands s q form → P work)
        → P (check_token s q claims form no_token work)
    unfolding check_token
    check_token_guard s q claims form no_token work h =
        let opened =
          verify_approval_token s.controller q.verify_listing q.verify_time form.id form.token in
        if_guard (not (is_empty form.token)) _ _
          (λ _.
            resume_guard opened _ _ (λ sr v. h (inr (inl (ap is_ok v))))
              λ e v.
                if_guard (not (is_token_expired e) || not (is_in_group claims s.admin_group)) _ _
                  (λ _. refusal _ _)
                  λ x. h (inr (inr (v ∙ ap err (is_token_expired-eq e (ground (arith, x)))))))
          λ t.
            if_guard (not (is_in_group claims s.admin_group)) _ _ (λ _. refusal _ _)
              λ _. h (inl (ground (arith, t)))

    pub authorized_guard :
        (s : ApiServer) (identity : UserInfo) (work : M Response)
        → (authorize_submit s.access_review (controller_namespace s.controller) identity ≡ ok true
            → P work)
        → P (authorized s identity work)
    unfolding authorized
    authorized_guard s identity work h =
        resume_guard (authorize_submit s.access_review (controller_namespace s.controller) identity)
          _ _
          (λ allowed e. if_guard (not allowed) _ _ (λ _. refusal _ _) λ g. h (ground (arith, e, g)))
          λ e _. refusal _ _
