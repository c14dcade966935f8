-- ===== src/Lifecycle.antt =====
-- The life of a request: the graph of its phases, and what the handlers' status writes do to it.
pub mod Rules
pub mod Deciding
pub mod Approving
pub mod Children
pub mod Stays
pub mod RunPlaybook
pub mod Starting
pub mod Watching
pub mod Handling
pub mod Safety
pub mod Entering
pub mod Waiting
pub mod Reconciling
pub mod Steps
pub mod Concluding
pub mod Overwriting
use sudo_service.Prelude.{String, List, [], ◌∷◌, All}
use sudo_service.Types.{
  Phase, unset, pending, approved, denied, executed, failed, expired, SudoRequest,
}
use sudo_service.Effects.{Effect, write_status}

-- The moves that the comment on SudoRequestReconciler draws, with the two ways of approval without
-- a human, the denials, and a write that leaves the phase alone.
pub data Moves : Phase → Phase → Type 0 where
  stay : {p : Phase} → Moves p p
  ask : Moves unset pending
  auto_approve : Moves unset approved
  reject : Moves unset denied
  approve : Moves pending approved
  deny : Moves pending denied
  expire : Moves pending expired
  execute : Moves approved executed
  fail : Moves approved failed

-- What holds of the object as read and as written, at each status write.
abbrev pub OnWrite : (SudoRequest → SudoRequest → Type 0) → Effect → Type 0
OnWrite P (write_status base new reply) = P base new
OnWrite P _ = Unit

abbrev pub PhaseMoves : SudoRequest → SudoRequest → Type 0
PhaseMoves base new = Moves base.status.phase new.status.phase

abbrev pub KeepsPhase : SudoRequest → SudoRequest → Type 0
KeepsPhase base new = Moves base.status.phase base.status.phase

pub OnWrite-map :
    (P Q : SudoRequest → SudoRequest → Type 0)
    → ((base new : SudoRequest) → P base new → Q base new)
    → (es : List Effect) → All (OnWrite P) es
    → All (OnWrite Q) es
OnWrite-map P Q f [] h = tt
OnWrite-map P Q f (e ∷ es) h = (on_effect e h.0, OnWrite-map P Q f es h.1)
  where
    on_effect : (e : Effect) → OnWrite P e → OnWrite Q e
    on_effect (write_status base new reply) p = f base new p
    on_effect _ p = tt
