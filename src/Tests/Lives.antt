-- ===== src/Tests/Lives.antt =====
-- The theorems on the life of a request, at concrete runs.
use mathlib.Core.List.{Memᴰ}
use sudo_service.Prelude.{lookup, ◌*◌, [], ◌∷◌, ◌≡◌, ◌⊎◌, ◌<◌, refl, All, arith, true}
use sudo_service.Types.{SudoRequest, approved, denied, expired, second}
use sudo_service.Cluster.{accepted, job_terminal}
use sudo_service.Effects.{write_status, commit}
use sudo_service.Playbooks.Params.{cleanup_parameters, check_names}
use sudo_service.Playbooks.Execute.{
  set_playbook_executed, mark_playbook_executed, delete_job_target, run_playbook,
  execute_auto_approved_playbook,
}
use sudo_service.Reconciler.Update.{update_status, settle}
use sudo_service.Reconciler.Decide.{approve, deny}
use sudo_service.Reconciler.New.{handle_new}
use sudo_service.Reconciler.Pending.{handle_pending}
use sudo_service.Reconciler.Approved.{handle_approved}
use sudo_service.Reconciler.Dispatch.{reconcile, dispatch}
use sudo_service.Gc.{expire_all}
use sudo_service.Lifecycle.{OnWrite, PhaseMoves}
use sudo_service.Lifecycle.Rules.{Each}
use sudo_service.Lifecycle.Deciding.{Decides, decisions-Decides}
use sudo_service.Lifecycle.Safety.{
  OnCreate, OnDelete, FirstRun, Pinned, LeavesApproved, handle_approved-LeavesApproved,
  handle_approved-FirstRun, handle_approved-Pinned,
}
use sudo_service.Lifecycle.Entering.{LeavesNew, handle_new-LeavesNew}
use sudo_service.Lifecycle.Waiting.{Waits, handle_pending-Waits}
use sudo_service.Lifecycle.Reconciling.{ReconcileSteady, reconcile-PhaseMoves}
use sudo_service.Lifecycle.Steps.{
  by_reconcile, Step, writes, Reach, here, then_step, rank, Through, Reach-rank, Reach-executed,
}
use sudo_service.Tests.Requests.{
  controller, new_request, pending_request, named_request, cleanup_request,
}
use sudo_service.Tests.Runs.{
  decide_replies, new_replies, pending_replies, approved_replies, reconcile_replies,
}

abbrev executed_request : SudoRequest
executed_request =
    commit cleanup_request
      (write_status cleanup_request (set_playbook_executed cleanup_request) accepted)

steady : ReconcileSteady (reconcile_replies cleanup_request)
steady = (tt, (tt, tt, (refl, tt), tt, tt))

-- The pinned Job is deleted, and the request is executed.
executes : Step controller cleanup_request executed_request
unfolding reconcile dispatch handle_approved execute_auto_approved_playbook run_playbook
    delete_job_target mark_playbook_executed update_status settle cleanup_parameters check_names
    lookup job_terminal
executes =
    writes cleanup_request (set_playbook_executed cleanup_request) accepted
      (by_reconcile (reconcile_replies cleanup_request) steady) (Memᴰ.tail (Memᴰ.head refl))

life : Reach controller cleanup_request executed_request
life = then_step here executes

Reach-executed_example : Through controller approved cleanup_request executed_request
Reach-executed_example =
    Reach-executed controller cleanup_request executed_request life refl (λ e. ground (arith, e))

Reach-rank_example :
    (cleanup_request.status.phase ≡ executed_request.status.phase)
    ⊎ (rank cleanup_request.status.phase < rank executed_request.status.phase)
Reach-rank_example = Reach-rank controller cleanup_request executed_request life

reconcile-PhaseMoves_example :
    Each (OnWrite PhaseMoves) (reconcile controller (reconcile_replies cleanup_request))
reconcile-PhaseMoves_example =
    reconcile-PhaseMoves controller (reconcile_replies cleanup_request) steady

handle_approved-LeavesApproved_example :
    Each (OnWrite LeavesApproved) (handle_approved controller (approved_replies named_request))
handle_approved-LeavesApproved_example =
    handle_approved-LeavesApproved controller (approved_replies named_request)
      (tt, tt, (refl, tt), tt, tt)

handle_approved-FirstRun_example :
    Each
      (OnCreate (λ m. FirstRun controller m named_request))
      (handle_approved controller (approved_replies named_request))
handle_approved-FirstRun_example =
    handle_approved-FirstRun controller (approved_replies named_request)

handle_approved-Pinned_example :
    Each
      (OnDelete (λ job uid. Pinned job uid cleanup_request))
      (handle_approved controller (approved_replies cleanup_request))
handle_approved-Pinned_example =
    handle_approved-Pinned controller (approved_replies cleanup_request)

handle_new-LeavesNew_example :
    Each (OnWrite LeavesNew) (handle_new controller new_replies new_request)
handle_new-LeavesNew_example = handle_new-LeavesNew controller new_replies new_request refl tt

handle_pending-Waits_example :
    Each (OnWrite Waits) (handle_pending controller pending_replies pending_request)
handle_pending-Waits_example = handle_pending-Waits controller pending_replies pending_request refl

decisions-Decides_example :
    Each (OnWrite (Decides approved)) (approve decide_replies "uid-1" "bob")
    × Each (OnWrite (Decides denied)) (deny decide_replies "uid-1" "bob" "no")
    × All (OnWrite (Decides expired)) (
        expire_all
          (9000 * second)
          (λ sr. accepted)
          (λ sr. accepted)
          true
          (pending_request ∷ new_request ∷ []))
decisions-Decides_example =
    decisions-Decides decide_replies "uid-1" "bob" "no" (9000 * second) (λ sr. accepted)
      (λ sr. accepted) true (pending_request ∷ new_request ∷ [])
