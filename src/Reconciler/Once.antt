-- ===== src/Reconciler/Once.antt =====
-- The one-time token, and what it takes to decide on a request.
use sudo_service.Prelude.{
  subst, ℕ, String, List, [], ◌∷◌, Option, none, some, Bool, true, false, not, ◌≡◌, ◌↔◌, ◌≤◌, refl,
  ap, ◌∙◌, arith, length, ◌==◌, if◌then◌else◌, bit_or_zero_iff, bit_xor_zero_iff,
}
use Prim.Native.Nat.{bit_or, bit_xor}
use sudo_service.Types.{
  is_ok, SudoRequest, pending, is_pending, is_pending-eq, Error, Result, ok, err, Reply,
}
use sudo_service.Controller.{Controller}
use sudo_service.Reconciler.Token.{difference, constant_time_equal}
use sudo_service.Reconciler.Decide.{verify_found, verify_approval_token, find_by_uid, is_expired}

difference-eq :
    (d : ℕ) (as' bs : List ℕ)
    → length as' ≡ length bs
    → difference d as' bs ≡ 0
    → (d ≡ 0) × (as' ≡ bs)
unfolding difference
difference-eq d [] [] e h = (h, refl)
difference-eq d [] (b ∷ bs) e h = absurd (omega (arith, e))
difference-eq d (a ∷ as') [] e h = absurd (omega (arith, e))
difference-eq d (a ∷ as') (b ∷ bs) e h =
    let rest = difference-eq (bit_or d (bit_xor a b)) as' bs (omega (arith, e)) h in
    let here = (bit_or_zero_iff d (bit_xor a b)).0 rest.0 in
    (here.0, cc ((bit_xor_zero_iff a b).0 here.1, rest.1))

difference_self : (as' : List ℕ) → difference 0 as' as' ≡ 0
unfolding difference
difference_self [] = refl
difference_self (a ∷ as') =
    ap (λ d. difference d as' as')
      ((bit_or_zero_iff 0 (bit_xor a a)).1 (refl, (bit_xor_zero_iff a a).1 refl))
    ∙ difference_self as'

constant_time_equal_self : (a : List ℕ) → constant_time_equal a a ≡ true
unfolding constant_time_equal
constant_time_equal_self a = by_zero (difference 0 a a) (difference_self a)
  where
    by_zero : (d : ℕ) → d ≡ 0 → (if not (length a == length a) then false else d == 0) ≡ true
    by_zero d e = ground arith

-- constantTimeEqual, which folds the exclusive ors of all bytes, holds of two byte strings exactly
-- when they are equal.
pub constant_time_equal_iff : (a b : List ℕ) → (constant_time_equal a b ≡ true) ↔ (a ≡ b)
unfolding constant_time_equal
constant_time_equal_iff a b = (
  λ h. (difference-eq 0 a b (ground arith) (ground arith)).1,
  λ e. subst (λ x. constant_time_equal a x ≡ true) e (constant_time_equal_self a),
)

-- The token's deadline is set and not past.
abbrev pub Unexpired : ℕ → Option ℕ → Type 0
Unexpired now none = ⊥
Unexpired now (some t) = now ≤ t

-- What the holder of a token must present, and when.
abbrev pub Opens : Controller → ℕ → String → SudoRequest → Type 0
Opens c now token sr =
    (sr.status.phase ≡ pending)
    × Unexpired now sr.status.approval_token_expires_at
    × (c.sha256_hex token ≡ sr.status.approval_token_hash)

expired_iff : (now : ℕ) (o : Option ℕ) → (is_expired now o ≡ false) ↔ Unexpired now o
expired_iff now none = (λ h. ground arith, λ h. absurd h)
expired_iff now (some t) = (λ h. ground arith, λ h. ground arith)

or_this : {A : Type 0} → A → Result A → A
or_this a (ok b) = b
or_this a (err e) = a

-- The chain of tests of verify_found, apart from what they test.
chain :
    (p x t : Bool) (e1 e2 e3 : Error) (s sr : SudoRequest)
    → (if not p then err e1 else if x then err e2 else if not t then err e3 else ok s) ≡ ok sr
    → (p ≡ true) × (x ≡ false) × (t ≡ true) × (s ≡ sr)
unfolding or_this
chain true false true e1 e2 e3 s sr h = (refl, refl, refl, ap (or_this s) h)
chain false x t e1 e2 e3 s sr h = ground (arith, ap is_ok h)
chain true true t e1 e2 e3 s sr h = ground (arith, ap is_ok h)
chain true false false e1 e2 e3 s sr h = ground (arith, ap is_ok h)

chain_back :
    (p x t : Bool) (e1 e2 e3 : Error) (s : SudoRequest)
    → p ≡ true
    → x ≡ false
    → t ≡ true
    → (if not p then err e1 else if x then err e2 else if not t then err e3 else ok s) ≡ ok s
chain_back true false true e1 e2 e3 s a b d = refl
chain_back false x t e1 e2 e3 s a b d = ground arith
chain_back true true t e1 e2 e3 s a b d = ground arith
chain_back true false false e1 e2 e3 s a b d = ground arith

verify_found-Opens :
    (c : Controller) (now : ℕ) (token : String) (s sr : SudoRequest)
    → verify_found c now token s ≡ ok sr
    → (s ≡ sr) × Opens c now token sr
unfolding verify_found
verify_found-Opens c now token s sr h =
    let parts =
      chain (is_pending s.status.phase) (is_expired now s.status.approval_token_expires_at)
        (constant_time_equal (c.sha256_hex token) s.status.approval_token_hash) _ _ _ s sr h in
    (
      parts.3,
      subst (Opens c now token) parts.3 (
        is_pending-eq s.status.phase parts.0,
        (expired_iff now s.status.approval_token_expires_at).0 parts.1,
        (constant_time_equal_iff (c.sha256_hex token) s.status.approval_token_hash).0 parts.2,
      ),
    )

Opens-verify_found :
    (c : Controller) (now : ℕ) (token : String) (sr : SudoRequest)
    → Opens c now token sr
    → verify_found c now token sr ≡ ok sr
unfolding verify_found
Opens-verify_found c now token sr o =
    let p : is_pending sr.status.phase ≡ true = ap is_pending o.0 in
    let x : is_expired now sr.status.approval_token_expires_at ≡ false =
      (expired_iff now sr.status.approval_token_expires_at).1 o.1 in
    let t : constant_time_equal (c.sha256_hex token) sr.status.approval_token_hash ≡ true =
      (constant_time_equal_iff (c.sha256_hex token) sr.status.approval_token_hash).1 o.2 in
    chain_back (is_pending sr.status.phase) (is_expired now sr.status.approval_token_expires_at)
      (constant_time_equal (c.sha256_hex token) sr.status.approval_token_hash) _ _ _ sr p x t

-- VerifyApprovalToken answers with a request exactly when that is the first listed one of the uid,
-- it is pending, its token has a deadline that is not past, and the digest of the token presented
-- equals the digest on record.
pub verify_approval_token_iff :
    (c : Controller) (listing : Reply (List SudoRequest)) (now : ℕ) (uid token : String)
    (sr : SudoRequest)
    → (verify_approval_token c listing now uid token ≡ ok sr)
      ↔ ((find_by_uid listing uid ≡ ok sr) × Opens c now token sr)
unfolding verify_approval_token or_this
verify_approval_token_iff c listing now uid token sr = by_result (find_by_uid listing uid)
  where
    by_result :
        (f : Result SudoRequest)
        → ((elim f [ Result.err e ↦ err e | Result.ok s ↦ verify_found c now token s ]) ≡ ok sr)
          ↔ ((f ≡ ok sr) × Opens c now token sr)
    by_result (err e) = (λ h. ground (arith, ap is_ok h), λ h. h.0)
    by_result (ok s) = (
      λ h. (
        ap ok (verify_found-Opens c now token s sr h).0,
        (verify_found-Opens c now token s sr h).1,
      ),
      λ h.
          ap (verify_found c now token) (ap (or_this s) h.0)
          ∙ Opens-verify_found c now token sr h.1,
    )
