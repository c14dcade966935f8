-- ===== src/Lifecycle/Watching.antt =====
-- What holds of every effect of the steps that follow the Job's creation.
use sudo_service.Prelude.{
  Option, none, some, Bool, not, ◌≡◌, refl, is_empty, ◌===◌, ltb, ◌&&◌, ◌||◌,
}
use sudo_service.Types.{ℤ, SudoRequest, api, is_not_found, unix, is_recorded}
use sudo_service.Cluster.{Job, WriteReply}
use sudo_service.Effects.{Effect, write_status, M, return, fail, Requeue}
use sudo_service.Controller.{Controller}
use sudo_service.Executor.Target.{is_set}
use sudo_service.Executor.Children.{stop_job}
use sudo_service.Executor.Pods.{get_job_pod, executor_start_timed_out}
use sudo_service.Executor.Output.{CapturedOutput, capture_job_output}
use sudo_service.Reconciler.Update.{update_status}
use sudo_service.Reconciler.Finalize.{finalize_from_recorded_result, apply_captured_output_status}
use sudo_service.Reconciler.Approved.{
  ApprovedReplies, wrapping, lost_job, missing_job, is_terminated, await_start, conclude,
  uncaptured, observe_job, watch_job,
}
use sudo_service.Lifecycle.Rules.{
  Each, Each->>=, Each-if, Each-on_reply, Each-resume, Each-on_result,
}
use sudo_service.Lifecycle.Approving.{
  Quiet, Mutation, ApprovedSteady, update-Each, fail_approved-Each, finalize-Each, stop_job-Each,
}
use sudo_service.Lifecycle.Children.{capture_job_output-Each}
use sudo_service.Lifecycle.Stays.{stays}
use sudo_service.Lifecycle.Starting.{finish-Each}

module _ (P : Effect → Type 0) (Q : SudoRequest → Type 0) (quiet : (e : Effect) → Quiet e → P e)
    (write : (base current : SudoRequest) (mutate : SudoRequest → SudoRequest) (reply : WriteReply)
      → Q base
      → current.status.phase ≡ base.status.phase
      → Mutation mutate
      → P (write_status base (mutate current) reply)) where
  module _ (c : Controller) (r : ApprovedReplies) (st : ApprovedSteady Q r) (sr : SudoRequest)
      (q : Q sr) where
    missing_job-Each : (code : Option ℤ) → Each P (missing_job r sr code)
    unfolding missing_job lost_job
    missing_job-Each none = finish-Each P Q quiet write c r st sr q _
    missing_job-Each (some code) =
        Each-if P
          (not (is_empty sr.status.output_secret_ref) || is_recorded sr.status.output_capture_state)
          (finalize_from_recorded_result r.finish code sr sr) _
          (finalize-Each P Q quiet write r.finish st.4 code sr sr q refl)
          (finish-Each P Q quiet write c r st sr q _)

    conclude-Each :
        (job : Job) (b : Bool) (result : CapturedOutput) → Each P (conclude r sr job b result)
    unfolding conclude
    conclude-Each job b result = Each-if P b final _ each (
        Each-if P (not (is_set sr.status.exit_code)) _ _
          (Each->>= P (update_status (apply_captured_output_status result) r.record_result sr sr) _
            (update-Each P Q quiet write (apply_captured_output_status result) stays r.record_result
              st.3 sr sr q refl)
            λ _. tt)
          (Each->>= P
            (wrapping "stop job %s after executor completion (injected sidecar?): %w"
              (stop_job r.stop job))
            _
            (Each-on_result P (stop_job r.stop job) return _ (stop_job-Each P quiet r.stop job)
              (λ _. tt) λ _. tt)
            λ _. each))
      where
        final : M Requeue
        final =
            finalize_from_recorded_result r.finish result.exit_code sr
              (apply_captured_output_status result sr)

        each : Each P final
        each =
            finalize-Each P Q quiet write r.finish st.4 result.exit_code sr
              (apply_captured_output_status result sr) q refl

    await_start-Each : (job : Job) → Each P (await_start r sr job)
    unfolding await_start
    await_start-Each job =
        Each-resume P (get_job_pod job r.pods_again) _ fail
          (λ pod.
            Each-if P (executor_start_timed_out r.time job pod).0 _ _
              (fail_approved-Each P Q quiet write r st.4 _ sr q) tt)
          λ _. tt

    observe_job-Each : (job : Job) → Each P (observe_job c r sr job)
    unfolding observe_job uncaptured
    observe_job-Each job =
        Each-resume P (get_job_pod job r.pods) _ fail
          (λ pod.
            Each-if P (not (finished) && not (is_terminated pod)) (await_start r sr job) _
              (await_start-Each job)
              (Each-on_result P (capture_job_output c r.output sr job (unix r.time)) _ _
                (capture_job_output-Each P quiet c r.output sr job (unix r.time))
                (conclude-Each job finished)
                λ e. Each-if P (not finished) _ _ tt (finish-Each P Q quiet write c r st sr q _)))
          λ _. tt
      where
        finished : Bool
        finished = ltb 0 job.succeeded || ltb 0 job.failed

    pub watch_job-Each : Each P (watch_job c r sr)
    unfolding watch_job
    watch_job-Each =
        Each-on_reply P r.get_job _ _
          (λ job.
            Each-if P (not (job.uid === sr.status.executor_job_uid)) _ _
              (fail_approved-Each P Q quiet write r st.4 _ sr q) (observe_job-Each job))
          λ e. Each-if P (is_not_found e) _ (fail (api e)) (missing_job-Each sr.status.exit_code) tt
