-- ===== src/Reconciler/Approved.antt =====
-- reconciler.go: handleApproved, with failApproved. The names are minted, the Job is created, its
-- end is awaited and its result is recorded, one step for each reconcile.
use sudo_service.Prelude.{
  ℕ, ◌*◌, String, List, [], ◌∷◌, ◌++◌, Option, none, some, Bool, true, false, ◌&&◌, ◌||◌, not,
  contains, is_empty, ltb, ◌===◌, if◌then◌else◌, text_append,
}
use sudo_service.Types.{
  ℤ, SudoRequest, Reason, said, message, Error, api, errorf, wrapf, foreign_child_object,
  disallowed_secret, is_not_found, is_rejection, is_approved, is_recorded, second, unix, Result,
  Reply,
}
use sudo_service.Cluster.{Job, Pod, WriteReply}
use sudo_service.Effects.{
  write_object, M, return, fail, tell, check, on_result, on_reply, resume, ◌>>=◌, ◌>>◌, Requeue,
  done, now, after,
}
use sudo_service.Controller.{Controller, controller_namespace}
use sudo_service.Playbooks.Execute.{PlaybookReplies, execute_auto_approved_playbook}
use sudo_service.Executor.Target.{executor_namespace, is_set}
use sudo_service.Executor.Children.{JobReplies, find_or_create_job, stop_job}
use sudo_service.Executor.Pods.{
  get_job_pod, executor_container_terminated, executor_start_timed_out,
}
use sudo_service.Executor.Output.{CapturedOutput, OutputReplies, capture_job_output}
use sudo_service.Reconciler.Update.{UpdateReplies, update_status, mark_failed}
use sudo_service.Reconciler.Finalize.{apply_captured_output_status, finalize_from_recorded_result}

pub record ApprovedReplies : Type 0 where
  pub time : ℕ
  pub refetch : Reply SudoRequest
  pub playbook : PlaybookReplies
  pub add_finalizer : WriteReply
  pub job_suffix : Result String
  pub stdin_suffix : Result String
  pub record_names : UpdateReplies
  pub child : JobReplies
  pub record_uid : UpdateReplies
  pub get_job : Reply Job
  pub pods : Reply (List Pod)
  pub pods_again : Reply (List Pod)
  pub output : OutputReplies
  pub record_result : UpdateReplies
  pub stop : WriteReply
  pub fail_get : Reply Job
  pub fail_stop : WriteReply
  pub finish : UpdateReplies

abbrev pub executor_cleanup_finalizer : String
executor_cleanup_finalizer = "sudo.andrewgarrett.dev/executor-cleanup"

-- `if err := m; err != nil { return fmt.Errorf(…) }`.
abbrev pub wrapping : {A : Type 0} → String → M A → M A
wrapping format m = on_result m return (λ e. fail (wrapf format [] e))

unfoldable pub fail_approved : ApprovedReplies → Reason → SudoRequest → M Requeue
fail_approved r reason sr =
    let recorded = mark_failed reason r.finish sr in
    if is_empty sr.status.executor_job_name
    then recorded
    else on_reply r.fail_get
        (λ job.
          wrapping "stop executor job before failing: %w" (stop_job r.fail_stop job) >> recorded)
        (λ e. if is_not_found e then recorded else fail (api e))

-- An already minted name is kept.
abbrev pub set_names : String → String → SudoRequest → SudoRequest
set_names job_name stdin_name s =
    if not (is_empty s.status.executor_job_name) then s else record s {
      status = record (s.status) { executor_job_name = job_name; stdin_secret_name = stdin_name };
    }

abbrev pub set_job_uid : String → SudoRequest → SudoRequest
set_job_uid uid s =
    if not (is_empty s.status.executor_job_uid)
    then s
    else record s { status = record (s.status) { executor_job_uid = uid } }

unfoldable pub minted : String → String → Result String → M String
minted format prefix (Result.ok suffix) = return (text_append prefix suffix)
minted format prefix (Result.err e) = fail (wrapf format [] e)

unfoldable pub mint_names : ApprovedReplies → SudoRequest → M Requeue
unfolding minted
mint_names r sr = do
  job_name ← minted "mint executor job name: %w" "sudo-exec-" r.job_suffix
  stdin_name ←
      if is_empty sr.spec.stdin
      then return ""
      else minted "mint stdin secret name: %w" "sudo-stdin-" r.stdin_suffix
  _ ←
      wrapping "record minted resource names: %w"
        (update_status (set_names job_name stdin_name) r.record_names sr sr)
  return now

-- The errors that no retry can mend.
unfoldable pub is_permanent : Error → Bool
is_permanent (api e) = is_rejection e
is_permanent (wrapf format args e) = is_permanent e
is_permanent foreign_child_object = true
is_permanent disallowed_secret = true
is_permanent _ = false

unfoldable pub start_job : Controller → ApprovedReplies → SudoRequest → M Requeue
unfolding fail_approved
start_job c r sr =
    on_result (find_or_create_job c r.child sr)
      (λ job.
        on_result (update_status (set_job_uid job.uid) r.record_uid sr sr)
          (λ _. return (after (5 * second)))
          (λ e.
            on_result (stop_job r.stop job) (λ _. fail (wrapf "record executorJobUID: %w" [] e))
              (λ _. fail (wrapf "record executorJobUID: %w" [] e))))
      (λ e.
        if is_permanent e
        then fail_approved r (message (wrapf "executor Job rejected: %v" [] e)) sr
        else fail e)

-- The Job was collected before its end was seen; creating it again would run the command twice.
unfoldable pub lost_job : ApprovedReplies → SudoRequest → M Requeue
lost_job r sr =
    mark_failed
      (message (
        errorf
          "Executor Job %s disappeared before controller observed completion (likely ttlSecondsAfterApproval too short)"
          (sr.status.executor_job_name ∷ [])))
      r.finish sr

unfoldable pub missing_job : ApprovedReplies → SudoRequest → Option ℤ → M Requeue
unfolding lost_job
missing_job r sr none = lost_job r sr
missing_job r sr (some code) =
    if not (is_empty sr.status.output_secret_ref) || is_recorded sr.status.output_capture_state
    then finalize_from_recorded_result r.finish code sr sr
    else lost_job r sr

unfoldable pub await_start : ApprovedReplies → SudoRequest → Job → M Requeue
unfolding fail_approved
await_start r sr job =
    resume (get_job_pod job r.pods_again)
      (λ pod.
        let wait = executor_start_timed_out r.time job pod in
        if wait.0
        then fail_approved r
            (message (errorf "executor pod did not start within %ds: %s" ("600" ∷ wait.1 ∷ []))) sr
        else return (after (5 * second)))
      fail

-- What follows a captured result; `finished` is the Job's own end, not its executor's.
unfoldable pub conclude : ApprovedReplies → SudoRequest → Job → Bool → CapturedOutput → M Requeue
conclude r sr job finished result =
    let final =
      finalize_from_recorded_result r.finish result.exit_code sr
        (apply_captured_output_status result sr) in
    if finished
    then final
    else if not (is_set sr.status.exit_code)
    then (update_status (apply_captured_output_status result) r.record_result sr sr >>= λ _.
        return now)
    else wrapping "stop job %s after executor completion (injected sidecar?): %w"
        (stop_job r.stop job)
      >> final

unfoldable pub is_terminated : Option Pod → Bool
is_terminated none = false
is_terminated (some pod) = executor_container_terminated pod

-- The result could not be determined; a Job that is still open is asked again.
unfoldable pub uncaptured : ApprovedReplies → SudoRequest → Job → Bool → Error → M Requeue
uncaptured r sr job finished e =
    if not finished
    then fail (wrapf "capture output while sidecar holds job %s open: %w" (job.name ∷ []) e)
    else mark_failed (message (wrapf "Failed to determine executor result: %v" [] e)) r.finish sr

unfoldable pub observe_job : Controller → ApprovedReplies → SudoRequest → Job → M Requeue
unfolding await_start conclude is_terminated uncaptured
observe_job c r sr job =
    resume (get_job_pod job r.pods)
      (λ pod.
        let finished = ltb 0 job.succeeded || ltb 0 job.failed in
        let executor_done = is_terminated pod in
        if not finished && not executor_done
        then await_start r sr job
        else on_result (capture_job_output c r.output sr job (unix r.time))
            (conclude r sr job finished) (uncaptured r sr job finished))
      fail

unfoldable pub watch_job : Controller → ApprovedReplies → SudoRequest → M Requeue
unfolding missing_job observe_job
watch_job c r sr =
    on_reply r.get_job
      (λ job.
        if not (job.uid === sr.status.executor_job_uid)
        then fail_approved r
            (said "executor Job was replaced by a different object; refusing to use it") sr
        else observe_job c r sr job)
      (λ e. if is_not_found e then missing_job r sr sr.status.exit_code else fail (api e))

unfoldable pub add_finalizer : ApprovedReplies → SudoRequest → M Requeue
add_finalizer r sr =
    let finalized = record sr { finalizers = sr.finalizers ++ executor_cleanup_finalizer ∷ [] } in
    do
      tell (write_object finalized r.add_finalizer)
      check (wrapf "add executor-cleanup finalizer: %w" []) r.add_finalizer
      return now

-- The Job's owner reference does not reach another namespace, so a finalizer guards it there.
unfoldable pub needs_finalizer : Controller → SudoRequest → Bool
needs_finalizer c sr =
    not (executor_namespace sr (controller_namespace c) === controller_namespace c)
    && not (contains sr.finalizers executor_cleanup_finalizer)

unfoldable pub run_executor : Controller → ApprovedReplies → SudoRequest → M Requeue
unfolding add_finalizer mint_names start_job watch_job
run_executor c r sr =
    if needs_finalizer c sr
    then add_finalizer r sr
    else if is_empty sr.status.executor_job_name
    then mint_names r sr
    else if is_empty sr.status.executor_job_uid
    then start_job c r sr
    else watch_job c r sr

abbrev pub or_else : Option (M Requeue) → M Requeue → M Requeue
or_else none rest = rest
or_else (some handled) rest = handled

-- `r.refetch` is the uncached read that every decision rests on.
unfoldable pub handle_approved : Controller → ApprovedReplies → M Requeue
unfolding run_executor
handle_approved c r =
    on_reply r.refetch
      (λ sr.
        if not (is_approved sr.status.phase)
        then return now
        else or_else (execute_auto_approved_playbook c r.playbook sr) (run_executor c r sr))
      (λ e. if is_not_found e then return done else fail (api e))
