-- ===== src/Reconciler/Checks.antt =====
-- A chain of checks that finds no error: each check has passed.
use sudo_service.Prelude.{
  List, [], ◌∷◌, Option, none, some, Bool, true, false, ◌≡◌, refl, ap, arith,
}
use sudo_service.Types.{Error, Result, ok}
use sudo_service.Reconciler.New.{error_of, first_error}

is_some : Option Error → Bool
is_some none = false
is_some (some e) = true

first_error-head :
    (o : Option Error) (rest : List (Option Error)) → first_error (o ∷ rest) ≡ none → o ≡ none
unfolding first_error
first_error-head none rest h = refl
first_error-head (some e) rest h = h

first_error-tail :
    (o : Option Error) (rest : List (Option Error))
    → first_error (o ∷ rest) ≡ none
    → first_error rest ≡ none
unfolding first_error is_some
first_error-tail none rest h = h
first_error-tail (some e) rest h = ground (arith, ap is_some h)

pub error_of-ok : (x : Result (Unit {0})) → error_of x ≡ none → x ≡ ok tt
unfolding is_some
error_of-ok (Result.ok u) h = refl
error_of-ok (Result.err e) h = ground (arith, ap is_some h)

pub all-none :
    (a b c d : Option Error)
    → first_error (a ∷ b ∷ c ∷ d ∷ []) ≡ none
    → (a ≡ none) × (b ≡ none) × (c ≡ none) × (d ≡ none)
all-none a b c d h =
    let one = first_error-tail a (b ∷ c ∷ d ∷ []) h in
    let two = first_error-tail b (c ∷ d ∷ []) one in
    let three = first_error-tail c (d ∷ []) two in
    (
      first_error-head a (b ∷ c ∷ d ∷ []) h,
      first_error-head b (c ∷ d ∷ []) one,
      first_error-head c (d ∷ []) two,
      first_error-head d [] three,
    )
