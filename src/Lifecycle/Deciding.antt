-- ===== src/Lifecycle/Deciding.antt =====
-- The writes of Approve, Deny and the two expiries: each leaves a pending request, and burns its
-- token.
use sudo_service.Prelude.{
  ℕ, String, List, [], ◌∷◌, ◌++◌, none, Bool, true, false, not, ◌≡◌, refl, All, arith, is_empty,
  if◌then◌else◌,
}
use sudo_service.Types.{
  said, SudoRequest, Phase, pending, approved, denied, expired, is_pending, is_pending-eq,
}
use sudo_service.Cluster.{WriteReply, accepted, rejected, lost}
use sudo_service.Effects.{Effect, write_status, M, return, lift, tell, delete_secret, check, ◌>>◌}
use sudo_service.Reconciler.Decide.{
  DecideReplies, find_by_uid, approve, approve_found, deny, deny_found,
  delete_approval_token_secret, set_approved, set_denied, burn_token,
}
use sudo_service.Reconciler.Pending.{PendingReplies, expire, set_expired}
use sudo_service.Gc.{expire_all, expire_one, must_expire, after_expiry}
use sudo_service.Lifecycle.{OnWrite}
use sudo_service.Lifecycle.Rules.{
  All-append, All-if, Each, Each->>=, Each-check, Each-if, Each-if_eq,
}

-- The write takes a pending object to `q` and leaves nothing of its token.
abbrev pub Decides : Phase → SudoRequest → SudoRequest → Type 0
Decides q base new =
    (base.status.phase ≡ pending)
    × (new.status.phase ≡ q)
    × (new.status.approval_token_hash ≡ [])
    × (new.status.approval_token_expires_at ≡ none)
    × (new.status.approval_token_secret_name ≡ "")

delete_token-Each :
    (Q : SudoRequest → SudoRequest → Type 0) (reply : WriteReply) (namespace name : String)
    → Each (OnWrite Q) (delete_approval_token_secret reply namespace name)
unfolding delete_approval_token_secret
delete_token-Each Q reply namespace name =
    Each-if (OnWrite Q) (is_empty name) (return tt) (tell (delete_secret namespace name reply)) tt
      (tt, tt)

-- The steps that Approve, Deny and the expiry share, before they announce the outcome.
decision-Each :
    {A : Type 0} (Q : SudoRequest → SudoRequest → Type 0) (base new : SudoRequest)
    (update delete : WriteReply) (namespace name : String) (rest : M A)
    → Q base new
    → Each (OnWrite Q) rest
    → Each (OnWrite Q) (
        tell (write_status base new update)
        >> (check (λ e. e) update >> (delete_approval_token_secret delete namespace name >> rest)))
decision-Each Q base new update delete namespace name rest q h = (
  q,
  Each->>= P (check (λ e. e) update) _ (Each-check P (λ e. e) update) λ _.
      Each->>= P (delete_approval_token_secret delete namespace name) _
        (delete_token-Each Q delete namespace name) λ _. h,
)
  where
    P : Effect → Type 0
    P = OnWrite Q

pub approve-Decides :
    (r : DecideReplies) (uid by : String) → Each (OnWrite (Decides approved)) (approve r uid by)
unfolding approve
approve-Decides r uid by =
    Each->>= P (lift (find_by_uid r.listing uid)) (approve_found r by) tt λ sr.
      Each-if_eq P (not (is_pending sr.status.phase)) _ _ (λ _. tt)
        λ e.
          decision-Each (Decides approved) sr (set_approved r.time by sr) r.update r.delete
            sr.namespace sr.status.approval_token_secret_name _
            (is_pending-eq sr.status.phase (ground arith), refl, refl, refl, refl) (tt, (tt, tt))
  where
    P : Effect → Type 0
    P = OnWrite (Decides approved)

pub deny-Decides :
    (r : DecideReplies) (uid by reason : String)
    → Each (OnWrite (Decides denied)) (deny r uid by reason)
unfolding deny
deny-Decides r uid by reason =
    Each->>= P (lift (find_by_uid r.listing uid)) (deny_found r by reason) tt λ sr.
      Each-if_eq P (not (is_pending sr.status.phase)) _ _ (λ _. tt)
        λ e.
          decision-Each (Decides denied) sr (burn_token (set_denied r.time by (said reason) sr))
            r.update r.delete sr.namespace sr.status.approval_token_secret_name _
            (is_pending-eq sr.status.phase (ground arith), refl, refl, refl, refl) (tt, (tt, tt))
  where
    P : Effect → Type 0
    P = OnWrite (Decides denied)

pub expire-Decides :
    (r : PendingReplies) (sr : SudoRequest)
    → sr.status.phase ≡ pending
    → Each (OnWrite (Decides expired)) (expire r sr)
unfolding expire
expire-Decides r sr e =
    decision-Each (Decides expired) sr (set_expired sr) r.expire r.delete sr.namespace
      sr.status.approval_token_secret_name _ (e, refl, refl, refl, refl) (tt, (tt, tt))

must_expire-phase :
    (now : ℕ) (sr : SudoRequest) → must_expire now sr ≡ true → sr.status.phase ≡ pending
unfolding must_expire
must_expire-phase now sr h = is_pending-eq sr.status.phase (ground arith)

after_expiry-writes :
    (Q : SudoRequest → SudoRequest → Type 0) (reply : WriteReply) (b : Bool) (sr : SudoRequest)
    → All (OnWrite Q) (after_expiry reply b sr)
unfolding after_expiry
after_expiry-writes Q reply b sr =
    All-append (OnWrite Q) _ _
      (All-if (OnWrite Q) (is_empty sr.status.approval_token_secret_name) _ _ tt (tt, tt))
      (All-if (OnWrite Q) b _ _ (tt, tt) tt)

expire_one-Decides :
    (update reply : WriteReply) (b : Bool) (sr : SudoRequest)
    → sr.status.phase ≡ pending
    → All (OnWrite (Decides expired)) (expire_one update reply b sr)
unfolding expire_one
expire_one-Decides accepted reply b sr e =
    ((e, refl, refl, refl, refl), after_expiry-writes (Decides expired) reply b sr)
expire_one-Decides (rejected x) reply b sr e = ((e, refl, refl, refl, refl), tt)
expire_one-Decides (lost x) reply b sr e = ((e, refl, refl, refl, refl), tt)

pub expire_all-Decides :
    (now : ℕ) (update reply : SudoRequest → WriteReply) (b : Bool) (items : List SudoRequest)
    → All (OnWrite (Decides expired)) (expire_all now update reply b items)
unfolding expire_all
expire_all-Decides now update reply b [] = tt
expire_all-Decides now update reply b (sr ∷ rest) =
    by_test (must_expire now sr) refl (expire_all-Decides now update reply b rest)
  where
    P : Effect → Type 0
    P = OnWrite (Decides expired)

    by_test :
        (t : Bool)
        → must_expire now sr ≡ t
        → All P (expire_all now update reply b rest)
        → All P (
            if t
            then expire_one (update sr) (reply sr) b sr ++ expire_all now update reply b rest
            else expire_all now update reply b rest)
    by_test true e h =
        All-append P (expire_one (update sr) (reply sr) b sr) _
          (expire_one-Decides (update sr) (reply sr) b sr (must_expire-phase now sr e)) h
    by_test false e h = h

-- Every status write of Approve, of Deny and of the garbage collector's loop over the listed
-- requests takes a pending object to approved, to denied and to expired, and leaves nothing of its
-- token.
pub decisions-Decides :
    (r : DecideReplies) (uid by reason : String) (now : ℕ) (update reply : SudoRequest → WriteReply)
    (b : Bool) (items : List SudoRequest)
    → Each (OnWrite (Decides approved)) (approve r uid by)
      × Each (OnWrite (Decides denied)) (deny r uid by reason)
      × All (OnWrite (Decides expired)) (expire_all now update reply b items)
decisions-Decides r uid by reason now update reply b items = (
  approve-Decides r uid by,
  deny-Decides r uid by reason,
  expire_all-Decides now update reply b items,
)
