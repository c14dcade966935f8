-- ===== src/Lifecycle/Starting.antt =====
-- What holds of every effect of the steps that name and create the executor Job.
use sudo_service.Prelude.{String, not, ◌≡◌, refl, is_empty}
use sudo_service.Types.{SudoRequest, Reason, Result}
use sudo_service.Cluster.{WriteReply}
use sudo_service.Effects.{Effect, write_status, create_job, return, fail}
use sudo_service.Controller.{Controller, controller_namespace}
use sudo_service.Executor.Target.{executor_namespace}
use sudo_service.Executor.Manifest.{PodExtras, build_executor_job}
use sudo_service.Executor.Children.{find_or_create_job, stop_job}
use sudo_service.Reconciler.Update.{update_status, mark_failed}
use sudo_service.Reconciler.Approved.{
  ApprovedReplies, minted, mint_names, start_job, is_permanent, set_names, set_job_uid,
}
use sudo_service.Lifecycle.Rules.{Each, Each->>=, Each-if, Each-on_result}
use sudo_service.Lifecycle.Approving.{
  Quiet, Mutation, ApprovedSteady, update-Each, mark_failed-Each, fail_approved-Each, stop_job-Each,
}
use sudo_service.Lifecycle.Children.{find_or_create_job-Each}
use sudo_service.Lifecycle.Stays.{stays, stays_if}

module _ (P : Effect → Type 0) (Q : SudoRequest → Type 0) (quiet : (e : Effect) → Quiet e → P e)
    (write : (base current : SudoRequest) (mutate : SudoRequest → SudoRequest) (reply : WriteReply)
      → Q base
      → current.status.phase ≡ base.status.phase
      → Mutation mutate
      → P (write_status base (mutate current) reply)) where
  module _ (c : Controller) (r : ApprovedReplies) (st : ApprovedSteady Q r) (sr : SudoRequest)
      (q : Q sr) where
    minted-Each : (format prefix : String) (s : Result String) → Each P (minted format prefix s)
    unfolding minted
    minted-Each format prefix (Result.ok s) = tt
    minted-Each format prefix (Result.err e) = tt

    pub mint_names-Each : Each P (mint_names r sr)
    unfolding mint_names
    mint_names-Each =
        Each->>= P (minted "mint executor job name: %w" "sudo-exec-" r.job_suffix) _
          (minted-Each _ _ r.job_suffix)
          λ a.
            Each->>= P _ _
              (Each-if P (is_empty sr.spec.stdin) (return "") _ tt (minted-Each _ _ r.stdin_suffix))
              λ b.
                Each->>= P _ _
                  (Each-on_result P (update_status (set_names a b) r.record_names sr sr) return _
                    (update-Each P Q quiet write (set_names a b)
                      (λ s e.
                        stays_if (not (is_empty s.status.executor_job_name)) s _ (stays s e)
                          (stays s e))
                      r.record_names st.1 sr sr q refl)
                    (λ _. tt) λ _. tt)
                  λ _. tt

    pub start_job-Each :
        ((extras : PodExtras)
          → P (
              create_job
                (build_executor_job c.shlex_split c.rules sr
                  (executor_namespace sr (controller_namespace c))
                  sr.status.executor_job_name
                  extras
                  (controller_namespace c))
                r.child.create))
        → Each P (start_job c r sr)
    unfolding start_job
    start_job-Each create =
        Each-on_result P (find_or_create_job c r.child sr) _ _
          (find_or_create_job-Each P quiet c r.child sr create)
          (λ job.
            Each-on_result P (update_status (set_job_uid job.uid) r.record_uid sr sr) _ _
              (update-Each P Q quiet write (set_job_uid job.uid)
                (λ s e.
                  stays_if (not (is_empty s.status.executor_job_uid)) s _ (stays s e) (stays s e))
                r.record_uid st.2 sr sr q refl)
              (λ _. tt)
              λ e.
                Each-on_result P (stop_job r.stop job) _ _ (stop_job-Each P quiet r.stop job)
                  (λ _. tt) λ _. tt)
          λ e.
            Each-if P (is_permanent e) _ (fail e) (fail_approved-Each P Q quiet write r st.4 _ sr q)
              tt

    pub finish-Each : (reason : Reason) → Each P (mark_failed reason r.finish sr)
    finish-Each reason = mark_failed-Each P Q quiet write reason r.finish st.4 sr q
