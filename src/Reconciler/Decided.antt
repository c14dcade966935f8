-- ===== src/Reconciler/Decided.antt =====
-- After a decision that the API server accepted, no second decision is possible.
use sudo_service.Prelude.{
  ℕ, String, List, [], ◌∷◌, not, ◌≡◌, refl, ap, All, ◌∙◌, subst, sym, is_empty, if◌then◌else◌,
}
use sudo_service.Types.{
  SudoRequest, Phase, pending, approved, denied, is_pending, said, errorf, err,
}
use sudo_service.Cluster.{WriteReply, accepted}
use sudo_service.Effects.{
  write_status, write_object, return, tell, check, ◌>>◌, Effect, M, fail, commit, commit_all,
  delete_secret,
}
use sudo_service.Controller.{Controller}
use sudo_service.Reconciler.Decide.{
  DecideReplies, not_pending, announce_approval, announce_denial, approve_found, deny_found,
  set_approved, set_denied, burn_token, delete_approval_token_secret, verify_found,
}
use sudo_service.Lifecycle.Rules.{Each, Each->>=, Each-if}

-- `sr` is in phase `q` and holds no token; it can be neither approved nor denied, with or without
-- a token.
abbrev pub Closed : Phase → SudoRequest → Type 0
Closed q sr =
    (sr.status.phase ≡ q)
    × (sr.status.approval_token_hash ≡ [])
    × ((r : DecideReplies) (by : String) → approve_found r by sr ≡ fail not_pending)
    × ((r : DecideReplies) (by reason : String) → deny_found r by reason sr ≡ fail not_pending)
    × ((c : Controller) (now : ℕ) (token : String)
        → verify_found c now token sr ≡ err (errorf "not pending (phase=%s)" []))

-- Anything but a write of the object.
abbrev Aside : Effect → Type 0
Aside (write_status base new reply) = ⊥
Aside (write_object new reply) = ⊥
Aside _ = Unit

commit-Aside : (s : SudoRequest) (e : Effect) → Aside e → commit s e ≡ s
commit-Aside s (write_status base new reply) a = absurd a
commit-Aside s (write_object new reply) a = absurd a
commit-Aside s _ a = refl

commit_all-Aside : (s : SudoRequest) (es : List Effect) → All Aside es → commit_all s es ≡ s
commit_all-Aside s [] h = refl
commit_all-Aside s (e ∷ es) h =
    ap (λ t. commit_all t es) (commit-Aside s e h.0) ∙ commit_all-Aside s es h.1

delete_token-Aside :
    (reply : WriteReply) (namespace name : String)
    → Each Aside (delete_approval_token_secret reply namespace name)
unfolding delete_approval_token_secret
delete_token-Aside reply namespace name =
    Each-if Aside (is_empty name) (return tt) (tell (delete_secret namespace name reply)) tt
      (tt, tt)

abbrev with_status : SudoRequest → SudoRequest → SudoRequest
with_status sr new = record sr { status = new.status }

-- The write, the deletion of the token's Secret, and the announcement.
abbrev decision : SudoRequest → SudoRequest → WriteReply → M (Unit {0}) → M (Unit {0})
decision sr new delete rest =
    tell (write_status sr new accepted)
    >> (check (λ e. e) accepted
        >> (delete_approval_token_secret delete sr.namespace sr.status.approval_token_secret_name
            >> rest))

if_pending :
    (p : Phase) (m : M (Unit {0}))
    → p ≡ pending
    → (if not (is_pending p) then fail not_pending else m) ≡ m
if_pending p m e = ap (λ q. if not (is_pending q) then fail not_pending else m) e

-- What an accepted decision `new` leaves stored, whatever it does besides.
accepted_decision :
    (sr new : SudoRequest) (delete : WriteReply) (rest : M (Unit {0}))
    → Each Aside rest
    → commit_all sr (decision sr new delete rest).effects ≡ with_status sr new
accepted_decision sr new delete rest h = commit_all-Aside (with_status sr new) _ (
    Each->>= Aside
      (delete_approval_token_secret delete sr.namespace sr.status.approval_token_secret_name)
      (λ _. rest) (delete_token-Aside delete sr.namespace sr.status.approval_token_secret_name)
      λ _. h)

accepted_approval :
    (r : DecideReplies) (by : String) (sr : SudoRequest)
    → sr.status.phase ≡ pending
    → commit_all sr (approve_found (record r { update = accepted }) by sr).effects
      ≡ with_status sr (set_approved r.time by sr)
unfolding approve_found announce_approval
accepted_approval r by sr e =
    ap (λ m. commit_all sr m.effects) (if_pending sr.status.phase body e)
    ∙ accepted_decision sr (set_approved r.time by sr) r.delete (announce_approval by sr)
        (tt, (tt, tt))
  where
    body : M (Unit {0})
    body = decision sr (set_approved r.time by sr) r.delete (announce_approval by sr)

accepted_denial :
    (r : DecideReplies) (by reason : String) (sr : SudoRequest)
    → sr.status.phase ≡ pending
    → commit_all sr (deny_found (record r { update = accepted }) by reason sr).effects
      ≡ with_status sr (burn_token (set_denied r.time by (said reason) sr))
unfolding deny_found announce_denial
accepted_denial r by reason sr e =
    ap (λ m. commit_all sr m.effects) (if_pending sr.status.phase body e)
    ∙ accepted_decision sr (burn_token (set_denied r.time by (said reason) sr)) r.delete
        (announce_denial by reason sr) (tt, (tt, tt))
  where
    body : M (Unit {0})
    body =
        decision sr (burn_token (set_denied r.time by (said reason) sr)) r.delete
          (announce_denial by reason sr)

-- After Approve on a pending request whose status write was accepted, the stored request is
-- approved and holds no token digest; every further Approve and Deny of it fails with no effect,
-- and no token is verified for it.
pub approve_found-Closed :
    (r : DecideReplies) (by : String) (sr : SudoRequest)
    → sr.status.phase ≡ pending
    → Closed approved (commit_all sr (approve_found (record r { update = accepted }) by sr).effects)
unfolding approve_found deny_found verify_found
approve_found-Closed r by sr e =
    subst (Closed approved) (sym (accepted_approval r by sr e))
      (refl, refl, λ r' by'. refl, λ r' by' reason. refl, λ c now token. refl)

-- After Deny on a pending request whose status write was accepted, the stored request is denied and
-- holds no token digest; every further Approve and Deny of it fails with no effect, and no token is
-- verified for it.
pub deny_found-Closed :
    (r : DecideReplies) (by reason : String) (sr : SudoRequest)
    → sr.status.phase ≡ pending
    → Closed denied
        (commit_all sr (deny_found (record r { update = accepted }) by reason sr).effects)
unfolding approve_found deny_found verify_found
deny_found-Closed r by reason sr e =
    subst (Closed denied) (sym (accepted_denial r by reason sr e))
      (refl, refl, λ r' by'. refl, λ r' by' reason. refl, λ c now token. refl)
