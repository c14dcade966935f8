-- ===== src/Lifecycle/Stays.antt =====
-- Mutations of an approved request that keep its phase.
use sudo_service.Prelude.{Bool, true, false, ◌≡◌, sym, subst, if◌then◌else◌}
use sudo_service.Types.{SudoRequest, approved}
use sudo_service.Lifecycle.{Moves, stay}

-- A mutation that keeps the phase.
pub stays : (s : SudoRequest) → s.status.phase ≡ approved → Moves approved s.status.phase
stays s e = subst (Moves approved) (sym e) stay

pub stays_if :
    (b : Bool) (x y : SudoRequest)
    → Moves approved x.status.phase
    → Moves approved y.status.phase
    → Moves approved (if b then x else y).status.phase
stays_if true x y hx hy = hx
stays_if false x y hx hy = hy
