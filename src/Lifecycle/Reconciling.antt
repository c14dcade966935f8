-- ===== src/Lifecycle/Reconciling.antt =====
-- The writes of Reconcile, whichever handler it dispatches to: each is a move of the graph.
use sudo_service.Prelude.{not, ◌≡◌, refl, sym, subst, contains, is_empty, inl, inr}
use sudo_service.Types.{
  SudoRequest, Phase, unset, pending, approved, denied, executed, failed, expired, is_not_found,
}
use sudo_service.Effects.{Effect, write_status, return, check, done}
use sudo_service.Controller.{Controller}
use sudo_service.Executor.Target.{is_set}
use sudo_service.Executor.Children.{stop_job}
use sudo_service.Reconciler.New.{handle_new}
use sudo_service.Reconciler.Pending.{handle_pending}
use sudo_service.Reconciler.Approved.{handle_approved, executor_cleanup_finalizer}
use sudo_service.Reconciler.Dispatch.{
  ReconcileReplies, reconcile, dispatch, finalize_deletion, release_request,
}
use sudo_service.Lifecycle.{Moves, stay, expire, OnWrite, OnWrite-map, PhaseMoves}
use sudo_service.Lifecycle.Rules.{
  Each, Each->>=, Each-check, Each-if, Each-on_reply, Each-on_result,
}
use sudo_service.Lifecycle.Approving.{Quiet, Steady, ApprovedSteady, stop_job-Each}
use sudo_service.Lifecycle.Safety.{IsApproved, LeavesApproved, handle_approved-LeavesApproved}
use sudo_service.Lifecycle.Entering.{IsNew, LeavesNew, handle_new-LeavesNew}
use sudo_service.Lifecycle.Waiting.{Waits, handle_pending-Waits}

-- What a conflicting update reads again is still in the phase that its handler acts on.
abbrev pub ReconcileSteady : ReconcileReplies → Type 0
ReconcileSteady r = Steady IsNew r.for_new.playbook × ApprovedSteady IsApproved r.for_approved

-- A move from `p`, as a move from the phase of an object in it.
from :
    (p : Phase) (base new : SudoRequest)
    → base.status.phase ≡ p
    → Moves p new.status.phase
    → PhaseMoves base new
from p base new e m = subst (λ q. Moves q new.status.phase) (sym e) m

pub from_both :
    (p q : Phase) (base new : SudoRequest)
    → base.status.phase ≡ p
    → new.status.phase ≡ q
    → Moves p q
    → PhaseMoves base new
from_both p q base new e f m = from p base new e (subst (Moves p) (sym f) m)

Waits-PhaseMoves : (base new : SudoRequest) → Waits base new → PhaseMoves base new
Waits-PhaseMoves base new (inl d) = from_both pending expired base new d.0 d.1 expire
Waits-PhaseMoves base new (inr k) = subst (Moves base.status.phase) (sym k.0) stay

no_write : (e : Effect) → Quiet e → OnWrite PhaseMoves e
no_write (write_status base new reply) q = absurd q
no_write _ q = tt

release_request-PhaseMoves :
    (r : ReconcileReplies) (sr : SudoRequest) → Each (OnWrite PhaseMoves) (release_request r sr)
unfolding release_request
release_request-PhaseMoves r sr = (
  tt,
  Each->>= (OnWrite PhaseMoves) (check (λ e. e) r.release) _
      (Each-check (OnWrite PhaseMoves) (λ e. e) r.release) λ _. tt,
)

finalize_deletion-PhaseMoves :
    (r : ReconcileReplies) (sr : SudoRequest) → Each (OnWrite PhaseMoves) (finalize_deletion r sr)
unfolding finalize_deletion
finalize_deletion-PhaseMoves r sr =
    Each-if (OnWrite PhaseMoves) (not (contains sr.finalizers executor_cleanup_finalizer))
      (return done) _ tt
      (Each-if (OnWrite PhaseMoves) (is_empty sr.status.executor_job_name) (release_request r sr) _
        released
        (Each-on_reply (OnWrite PhaseMoves) r.get_job _ _
          (λ job.
            Each-on_result (OnWrite PhaseMoves) (stop_job r.stop job) _ _
              (stop_job-Each (OnWrite PhaseMoves) no_write r.stop job) (λ _. released) λ _. tt)
          λ e. Each-if (OnWrite PhaseMoves) (is_not_found e) (release_request r sr) _ released tt))
  where
    released : Each (OnWrite PhaseMoves) (release_request r sr)
    released = release_request-PhaseMoves r sr

dispatch-PhaseMoves :
    (c : Controller) (r : ReconcileReplies)
    → ReconcileSteady r
    → (sr : SudoRequest) (p : Phase) → sr.status.phase ≡ p
    → Each (OnWrite PhaseMoves) (dispatch c r sr p)
unfolding dispatch
dispatch-PhaseMoves c r st sr unset e =
    OnWrite-map LeavesNew PhaseMoves (λ base new l. from unset base new l.0 l.1)
      (handle_new c r.for_new sr).effects (handle_new-LeavesNew c r.for_new sr e st.0)
dispatch-PhaseMoves c r st sr pending e =
    OnWrite-map Waits PhaseMoves Waits-PhaseMoves (handle_pending c r.for_pending sr).effects
      (handle_pending-Waits c r.for_pending sr e)
dispatch-PhaseMoves c r st sr approved e =
    OnWrite-map LeavesApproved PhaseMoves (λ base new l. from approved base new l.0 l.1)
      (handle_approved c r.for_approved).effects
      (handle_approved-LeavesApproved c r.for_approved st.1)
dispatch-PhaseMoves c r st sr denied e = tt
dispatch-PhaseMoves c r st sr executed e = tt
dispatch-PhaseMoves c r st sr failed e = tt
dispatch-PhaseMoves c r st sr expired e = tt
dispatch-PhaseMoves c r st sr (Phase.unknown s) e = tt

-- Every status write of Reconcile, to whichever handler it dispatches and whatever the API server
-- answers, moves the phase of the object it was computed from along the graph of phases or leaves
-- it, provided the updates that handleNew and handleApproved retry after a conflict read objects in
-- the phase that they act on.
pub reconcile-PhaseMoves :
    (c : Controller) (r : ReconcileReplies)
    → ReconcileSteady r
    → Each (OnWrite PhaseMoves) (reconcile c r)
unfolding reconcile
reconcile-PhaseMoves c r st =
    Each-on_reply (OnWrite PhaseMoves) r.get _ _
      (λ sr.
        Each-if (OnWrite PhaseMoves) (is_set sr.deletion_timestamp) (finalize_deletion r sr) _
          (finalize_deletion-PhaseMoves r sr) (dispatch-PhaseMoves c r st sr sr.status.phase refl))
      λ e. Each-if (OnWrite PhaseMoves) (is_not_found e) _ _ tt tt
