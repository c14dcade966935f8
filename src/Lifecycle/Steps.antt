-- ===== src/Lifecycle/Steps.antt =====
-- The stored request over time. A step is a status write that the API server accepted, of a run of
-- any entry point; the write carries the resource version of the object it was computed from, so
-- that object is the stored one.
use mathlib.Core.List.{Memᴰ}
use sudo_service.Prelude.{
  ℕ, String, List, [], ◌∷◌, Bool, true, false, ◌<◌, ◌∙◌, ◌≢◌, arith, if◌then◌else◌, ◌≡◌, refl, sym,
  All, subst, inl, inr, ◌⊎◌,
}
use sudo_service.Types.{SudoRequest, Phase, unset, pending, approved, denied, executed, expired}
use sudo_service.Cluster.{WriteReply, took}
use sudo_service.Effects.{Effect, write_status, commit}
use sudo_service.Controller.{Controller}
use sudo_service.Reconciler.Decide.{DecideReplies, approve, deny}
use sudo_service.Reconciler.Dispatch.{ReconcileReplies, reconcile}
use sudo_service.Gc.{expire_all}
use sudo_service.Lifecycle.{Moves, stay, OnWrite, OnWrite-map, PhaseMoves}
use sudo_service.Lifecycle.Deciding.{Decides, approve-Decides, deny-Decides, expire_all-Decides}
use sudo_service.Lifecycle.Reconciling.{ReconcileSteady, reconcile-PhaseMoves, from_both}

-- A run of an entry point, as the effects that it has.
pub data Run (c : Controller) : List Effect → Type 0 where
  by_reconcile : (r : ReconcileReplies) → ReconcileSteady r → Run c (reconcile c r).effects
  by_approve : (r : DecideReplies) (uid by : String) → Run c (approve r uid by).effects
  by_deny : (r : DecideReplies) (uid by reason : String) → Run c (deny r uid by reason).effects
  by_collector :
      (now : ℕ) (update reply : SudoRequest → WriteReply) (b : Bool) (items : List SudoRequest)
      → Run c (expire_all now update reply b items)

pub data Step (c : Controller) : SudoRequest → SudoRequest → Type 0 where
  writes :
      {es : List Effect} (base new : SudoRequest) (reply : WriteReply)
      → Run c es
      → Memᴰ (write_status base new reply) es
      → Step c base (commit base (write_status base new reply))

pub data Reach (c : Controller) : SudoRequest → SudoRequest → Type 0 where
  here : {s : SudoRequest} → Reach c s s
  then_step : {s t u : SudoRequest} → Reach c s t → Step c t u → Reach c s u

All-Mem : (P : Effect → Type 0) (es : List Effect) (e : Effect) → All P es → Memᴰ e es → P e
All-Mem P [] e h m = elim m [ ]
All-Mem P (x ∷ es) e h (Memᴰ.head p) = subst P (sym p) h.0
All-Mem P (x ∷ es) e h (Memᴰ.tail m) = All-Mem P es e h.1 m

Run-PhaseMoves : (c : Controller) (es : List Effect) → Run c es → All (OnWrite PhaseMoves) es
Run-PhaseMoves c es (by_reconcile r st) = reconcile-PhaseMoves c r st
Run-PhaseMoves c es (by_approve r uid by) =
    OnWrite-map (Decides approved) PhaseMoves
      (λ base new d. from_both pending approved base new d.0 d.1 Moves.approve)
      (approve r uid by).effects (approve-Decides r uid by)
Run-PhaseMoves c es (by_deny r uid by reason) =
    OnWrite-map (Decides denied) PhaseMoves
      (λ base new d. from_both pending denied base new d.0 d.1 Moves.deny)
      (deny r uid by reason).effects (deny-Decides r uid by reason)
Run-PhaseMoves c es (by_collector now update reply b items) =
    OnWrite-map (Decides expired) PhaseMoves
      (λ base new d. from_both pending expired base new d.0 d.1 Moves.expire)
      (expire_all now update reply b items) (expire_all-Decides now update reply b items)

commit-Moves :
    (base new : SudoRequest) (b : Bool)
    → PhaseMoves base new
    → Moves base.status.phase (if b then record base { status = new.status } else base).status.phase
commit-Moves base new true m = m
commit-Moves base new false m = stay

step-Moves : (c : Controller) (s t : SudoRequest) → Step c s t → Moves s.status.phase t.status.phase
step-Moves c s t (writes {es} base new reply run m) =
    commit-Moves base new (took reply)
      (All-Mem (OnWrite PhaseMoves) es (write_status base new reply) (Run-PhaseMoves c es run) m)

-- How far a request has come.
abbrev pub rank : Phase → ℕ
rank unset = 0
rank pending = 1
rank approved = 2
rank _ = 3

Moves-rank : (p q : Phase) → Moves p q → (p ≡ q) ⊎ (rank p < rank q)
Moves-rank p q stay = inl refl
Moves-rank p q Moves.ask = inr (omega arith)
Moves-rank p q Moves.auto_approve = inr (omega arith)
Moves-rank p q Moves.reject = inr (omega arith)
Moves-rank p q Moves.approve = inr (omega arith)
Moves-rank p q Moves.deny = inr (omega arith)
Moves-rank p q Moves.expire = inr (omega arith)
Moves-rank p q Moves.execute = inr (omega arith)
Moves-rank p q Moves.fail = inr (omega arith)

Moves-trans_rank :
    (p q r : Phase)
    → (p ≡ q) ⊎ (rank p < rank q)
    → (q ≡ r) ⊎ (rank q < rank r)
    → (p ≡ r) ⊎ (rank p < rank r)
Moves-trans_rank p q r (inl e) (inl f) = inl (e ∙ f)
Moves-trans_rank p q r (inl e) (inr f) = inr (subst (λ x. rank x < rank r) (sym e) f)
Moves-trans_rank p q r (inr e) (inl f) = inr (subst (λ x. rank p < rank x) f e)
Moves-trans_rank p q r (inr e) (inr f) = inr (omega (arith, e, f))

-- If a stored request gets from one state to another by accepted status writes of runs of
-- Reconcile, Approve, Deny and the garbage collector, whose conflicting updates in handleNew and
-- handleApproved read objects in the phase that they act on, then its phase is the same or later in
-- the order unset, pending, approved, terminal: no phase is ever entered twice, and a terminal one
-- is never left.
pub Reach-rank :
    (c : Controller) (s t : SudoRequest)
    → Reach c s t
    → (s.status.phase ≡ t.status.phase) ⊎ (rank s.status.phase < rank t.status.phase)
Reach-rank c s t here = inl refl
Reach-rank c s t (then_step {t = m} h step) =
    Moves-trans_rank s.status.phase m.status.phase t.status.phase (Reach-rank c s m h)
      (Moves-rank m.status.phase t.status.phase (step-Moves c m t step))

into_executed : (p q : Phase) → Moves p q → q ≡ executed → (p ≡ executed) ⊎ (p ≡ approved)
into_executed p q stay e = inl e
into_executed p q Moves.execute e = inr refl
into_executed p q m e = ground arith

-- Some request on the way was approved.
abbrev pub Through : (c : Controller) → Phase → SudoRequest → SudoRequest → Type 0
Through c p s t = (m : SudoRequest) × Reach c s m × (m.status.phase ≡ p) × Reach c m t

last-Step :
    (c : Controller) (s m t : SudoRequest)
    → Reach c s m
    → Step c m t
    → (m.status.phase ≡ executed → Through c approved s m)
    → (m.status.phase ≡ executed) ⊎ (m.status.phase ≡ approved)
    → Through c approved s t
last-Step c s m t h step before (inr a) = (m, h, a, then_step here step)
last-Step c s m t h step before (inl x) =
    ((before x).0, (before x).1, (before x).2, then_step (before x).3 step)

-- If a stored request gets from one state to another by accepted status writes of runs of
-- Reconcile, Approve, Deny and the garbage collector, whose conflicting updates in handleNew and
-- handleApproved read objects in the phase that they act on, and it is executed at the end and was
-- not at the start, then it was approved on the way.
pub Reach-executed :
    (c : Controller) (s t : SudoRequest)
    → Reach c s t
    → t.status.phase ≡ executed
    → s.status.phase ≢ executed
    → Through c approved s t
Reach-executed c s t here e n = absurd (n e)
Reach-executed c s t (then_step {t = m} h step) e n =
    last-Step c s m t h step (λ x. Reach-executed c s m h x n)
      (into_executed m.status.phase t.status.phase (step-Moves c m t step) e)
