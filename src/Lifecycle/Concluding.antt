-- ===== src/Lifecycle/Concluding.antt =====
-- How handleApproved ends: what is on record before the Job is stopped.
use sudo_service.Prelude.{List, [], ◌∷◌, Bool, true, not, ◌≡◌, refl, arith}
use sudo_service.Types.{api, is_not_found, ℤ, SudoRequest, Reply, found, refused}
use sudo_service.Cluster.{write_error, Job}
use sudo_service.Effects.{Requeue, fail, Effect, delete_job, M, return}
use sudo_service.Executor.Target.{is_set}
use sudo_service.Executor.Children.{stop_job}
use sudo_service.Executor.Output.{CapturedOutput}
use sudo_service.Reconciler.Update.{Attempt, update_status}
use sudo_service.Reconciler.Finalize.{
  finalize_from_recorded_result, apply_captured_output_status, set_result,
}
use sudo_service.Reconciler.Approved.{ApprovedReplies, wrapping, conclude}
use sudo_service.Lifecycle.Rules.{
  Each, Each->>=, Each-if, Each-if_eq, Each-on_option, Each-on_result, Each-update_status,
  OnAttempt, OnAttempts,
}

-- What holds of the Job at its deletion.
abbrev pub OnStop : (Job → Type 0) → Effect → Type 0
OnStop P (delete_job job reply) = P job
OnStop P _ = Unit

abbrev pub Durable : SudoRequest → Job → Job → Type 0
Durable sr job stopped = (is_set sr.status.exit_code ≡ true) × (stopped ≡ job)

attempts-OnStop :
    (Q : Job → Type 0) (mutate : SudoRequest → SudoRequest) (attempts : List Attempt)
    → OnAttempts (OnStop Q) mutate attempts
attempts-OnStop Q mutate [] = tt
attempts-OnStop Q mutate (a ∷ rest) = (on_attempt a.latest, attempts-OnStop Q mutate rest)
  where
    on_attempt : (l : Reply SudoRequest) → OnAttempt (OnStop Q) mutate l a.reply
    on_attempt (refused e) = tt
    on_attempt (found o) = tt

finalize-OnStop :
    (Q : Job → Type 0) (r : ApprovedReplies) (code : ℤ) (base sr : SudoRequest)
    → Each (OnStop Q) (finalize_from_recorded_result r.finish code base sr)
unfolding finalize_from_recorded_result
finalize-OnStop Q r code base sr =
    Each->>= (OnStop Q) (update_status (set_result code sr) r.finish base sr) _
      (Each-update_status (OnStop Q) (set_result code sr) r.finish base sr tt
        (attempts-OnStop Q (set_result code sr) r.finish.attempts))
      λ persisted. (tt, (tt, tt))

-- The last part of handleApproved stops a Job only if the request as it was read has an exit code
-- on record, and the Job is the one at hand: a result is durable before the pod that holds the logs
-- goes.
pub conclude-Durable :
    (r : ApprovedReplies) (sr : SudoRequest) (job : Job) (finished : Bool) (result : CapturedOutput)
    → Each (OnStop (Durable sr job)) (conclude r sr job finished result)
unfolding conclude stop_job
conclude-Durable r sr job finished result = Each-if P finished final _ each (
    Each-if_eq P (not (is_set sr.status.exit_code)) _ _
      (λ _.
        Each->>= P (update_status (apply_captured_output_status result) r.record_result sr sr) _
          (Each-update_status P (apply_captured_output_status result) r.record_result sr sr tt (
            attempts-OnStop (Durable sr job) (apply_captured_output_status result)
              r.record_result.attempts))
          λ _. tt)
      λ e.
        Each->>= P
          (wrapping "stop job %s after executor completion (injected sidecar?): %w"
            (stop_job r.stop job))
          _
          (Each-on_result P (stop_job r.stop job) return _
            (
              ((ground (arith, e)), refl),
              Each-on_option P (write_error r.stop) _ (return tt)
                  (λ x. Each-if P (is_not_found x) (return tt) (fail (api x)) tt tt) tt,
            )
            (λ _. tt) λ _. tt)
          λ _. each)
  where
    P : Effect → Type 0
    P = OnStop (Durable sr job)

    final : M Requeue
    final =
        finalize_from_recorded_result r.finish result.exit_code sr
          (apply_captured_output_status result sr)

    each : Each P final
    each =
        finalize-OnStop (Durable sr job) r result.exit_code sr
          (apply_captured_output_status result sr)
