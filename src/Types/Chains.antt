-- ===== src/Types/Chains.antt =====
-- What it says of its parts that a chain of checks succeeds.
use sudo_service.Prelude.{Bool, true, false, not, ◌≡◌, ◌↔◌, refl, ap, arith, if◌then◌else◌}
use sudo_service.Types.Errors.{Error, Result, ok, err, is_ok, ◌>>=◌, ◌>>◌}

-- A chain succeeds where both of its parts do.
pub seq_iff :
    {A : Type 0} {a : A} (m : Result (Unit {0})) (k : Result A)
    → ((m >> k) ≡ ok a) ↔ ((m ≡ ok tt) × (k ≡ ok a))
seq_iff (ok tt) k = (λ h. (refl, h), λ h. h.1)
seq_iff (err e) k = (λ h. ground (arith, ap is_ok h), λ h. ground (arith, ap is_ok h.0))

pub guard_iff :
    {A : Type 0} {a : A} (b : Bool) (e : Error) (k : Result A)
    → ((if b then err e else k) ≡ ok a) ↔ ((b ≡ false) × (k ≡ ok a))
guard_iff true e k = (λ h. ground (arith, ap is_ok h), λ h. ground (arith, h.0))
guard_iff false e k = (λ h. (refl, h), λ h. h.1)

pub not_iff : (b : Bool) → (not b ≡ false) ↔ (b ≡ true)
not_iff true = (λ h. refl, λ h. refl)
not_iff false = (λ h. ground (arith, h), λ h. ground (arith, h))

pub bind-ok :
    {A B : Type 0} (r : Result A) (f : A → Result B) (b : B)
    → (r >>= f) ≡ ok b
    → (a : A) × (r ≡ ok a) × (f a ≡ ok b)
bind-ok (ok a) f b h = (a, refl, h)
bind-ok (err e) f b h = ground (arith, ap is_ok h)

value_or : {A : Type 0} → A → Result A → A
value_or a (ok b) = b
value_or a (err e) = a

pub ok-inj : {A : Type 0} (a b : A) → ◌≡◌ {A = Result A} (ok a) (ok b) → a ≡ b
unfolding value_or
ok-inj a b h = ap (value_or a) h
