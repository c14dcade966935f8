-- ===== src/Retry/Adopting.antt =====
-- retry.go: what retryRequest returns, against what a repeated call adopts.
use sudo_service.Prelude.{◌≡◌}
use sudo_service.Types.{SudoRequest, Result, ok, err}
use sudo_service.Controller.{Controller}
use sudo_service.Retry.Successor.{Outcome, validate_retry_successor}

-- The value that is returned, where there is one, satisfies `Q`.
abbrev pub Gives : {A : Type 0} → (A → Type 0) → Result A → Type 0
Gives Q (ok a) = Q a
Gives Q (err e) = Unit

-- A repeated call would adopt it.
abbrev pub IsAdoptable : Controller → SudoRequest → Outcome → Type 0
IsAdoptable c source o = validate_retry_successor c source o.0 ≡ ok tt
