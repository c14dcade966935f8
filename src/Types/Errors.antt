-- ===== src/Types/Errors.antt =====
-- Go's `error` values. A message is kept as its format string and its arguments; what `fmt` makes
-- of them is not computed. `apierrors.IsNotFound` and its siblings look through `%w`.
use sudo_service.Prelude.{String, List, Bool, true, false}

pub data ApiError : Type 0 where
  not_found conflict already_exists invalid forbidden : ApiError
  other : String → ApiError

pub data Error : Type 0 where
  api : ApiError → Error
  errorf : String → List String → Error
  wrapf : String → List String → Error → Error
  foreign_child_object disallowed_secret approval_token_expired : Error
  pending_duplicate : String → Error

abbrev pub is_not_found : ApiError → Bool
is_not_found not_found = true
is_not_found _ = false

abbrev pub is_conflict : ApiError → Bool
is_conflict conflict = true
is_conflict _ = false

abbrev pub is_already_exists : ApiError → Bool
is_already_exists already_exists = true
is_already_exists _ = false

-- IsInvalid, IsForbidden or IsNotFound.
abbrev pub is_rejection : ApiError → Bool
is_rejection invalid = true
is_rejection forbidden = true
is_rejection not_found = true
is_rejection _ = false

-- A result of a fallible call.
pub data Result {ℓ} (A : Type ℓ) : Type ℓ where
  ok : A → Result A
  err : Error → Result A

abbrev pub is_ok {ℓ} : {A : Type ℓ} → Result A → Bool
is_ok (ok a) = true
is_ok (err e) = false

-- What the API server answers to a read.
pub data Reply {ℓ} (A : Type ℓ) : Type ℓ where
  found : A → Reply A
  refused : ApiError → Reply A

infixl 5 ◌>>=◌ ◌>>◌
abbrev pub ◌>>=◌ {ℓ κ} : {A : Type ℓ} {B : Type κ} → Result A → (A → Result B) → Result B
ok x >>= next = next x
err failure >>= next = err failure

abbrev pub ◌>>◌ {ℓ} : {B : Type ℓ} → Result (Unit {0}) → Result B → Result B
check >> next = check >>= λ _. next
