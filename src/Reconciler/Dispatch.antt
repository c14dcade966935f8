-- ===== src/Reconciler/Dispatch.antt =====
-- reconciler.go: Reconcile. `stop` answers the deletion of the executor Job of a request that is
-- being deleted, `release` the update that drops the finalizer.
use sudo_service.Prelude.{String, List, [], ◌∷◌, not, contains, is_empty, ◌===◌, if◌then◌else◌}
use sudo_service.Types.{
  SudoRequest, Phase, unset, pending, approved, api, wrapf, is_not_found, Reply,
}
use sudo_service.Cluster.{Job, WriteReply}
use sudo_service.Effects.{
  write_object, M, return, fail, tell, check, on_result, on_reply, ◌>>◌, Requeue, done,
}
use sudo_service.Controller.{Controller}
use sudo_service.Executor.Target.{is_set}
use sudo_service.Executor.Children.{stop_job}
use sudo_service.Reconciler.New.{NewReplies, handle_new}
use sudo_service.Reconciler.Pending.{PendingReplies, handle_pending}
use sudo_service.Reconciler.Approved.{ApprovedReplies, handle_approved, executor_cleanup_finalizer}

pub record ReconcileReplies : Type 0 where
  pub get : Reply SudoRequest
  pub get_job : Reply Job
  pub stop : WriteReply
  pub release : WriteReply
  pub for_new : NewReplies
  pub for_pending : PendingReplies
  pub for_approved : ApprovedReplies

-- controllerutil.RemoveFinalizer.
unfoldable pub remove_finalizer : List String → String → List String
remove_finalizer [] f = []
remove_finalizer (x ∷ xs) f = let rest = remove_finalizer xs f in if x === f then rest else x ∷ rest

unfoldable pub release_request : ReconcileReplies → SudoRequest → M Requeue
unfolding remove_finalizer
release_request r sr =
    let released = record sr {
      finalizers = remove_finalizer sr.finalizers executor_cleanup_finalizer;
    } in
    do tell (write_object released r.release); check (λ e. e) r.release; return done

unfoldable pub finalize_deletion : ReconcileReplies → SudoRequest → M Requeue
unfolding release_request
finalize_deletion r sr =
    if not (contains sr.finalizers executor_cleanup_finalizer)
    then return done
    else if is_empty sr.status.executor_job_name
    then release_request r sr
    else on_reply r.get_job
        (λ job.
          on_result (stop_job r.stop job) (λ _. release_request r sr)
            (λ e. fail (wrapf "stop executor job during finalize: %w" [] e)))
        (λ e.
          if is_not_found e
          then release_request r sr
          else fail (wrapf "read executor job during finalize: %w" [] (api e)))

unfoldable pub dispatch : Controller → ReconcileReplies → SudoRequest → Phase → M Requeue
dispatch c r sr unset = handle_new c r.for_new sr
dispatch c r sr pending = handle_pending c r.for_pending sr
dispatch c r sr approved = handle_approved c r.for_approved
dispatch c r sr _ = return done

unfoldable pub reconcile : Controller → ReconcileReplies → M Requeue
unfolding dispatch
reconcile c r =
    on_reply r.get
      (λ sr.
        if is_set sr.deletion_timestamp
        then finalize_deletion r sr
        else dispatch c r sr sr.status.phase)
      (λ e. if is_not_found e then return done else fail (api e))
