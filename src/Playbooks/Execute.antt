-- ===== src/Playbooks/Execute.antt =====
-- playbooks.go: the execution of a playbook that the controller approved by itself.
use sudo_service.Prelude.{Option, none, some, ◌||◌, not, ◌===◌, if◌then◌else◌}
use sudo_service.Types.{
  pos, SudoRequest, Phase, Reason, said, api, ApiError, is_not_found, Reply, found, refused,
}
use sudo_service.Cluster.{Job, WriteReply, write_error, job_terminal}
use sudo_service.Broadcaster.{phase_event}
use sudo_service.Effects.{
  record_event, publish, delete_target, M, return, fail, tell, on_option, lift, ◌>>=◌, ◌>>◌,
  Requeue, done,
}
use sudo_service.Executor.Target.{is_set}
use sudo_service.Controller.{Controller}
use sudo_service.Reconciler.Update.{UpdateReplies, update_status, mark_failed}
use sudo_service.Playbooks.Params.{terminal_job_cleanup_parameters}

abbrev pub set_playbook_executed : SudoRequest → SudoRequest
set_playbook_executed current = record current {
  status = record (current.status) {
    phase = Phase.executed;
    exit_code = some (pos 0);
    failure_reason = Reason.unstated;
  };
}

unfoldable pub mark_playbook_executed : UpdateReplies → SudoRequest → M Requeue
mark_playbook_executed r sr = do
  persisted ← update_status set_playbook_executed r sr sr
  tell (record_event "Executed")
  tell (
      publish persisted.uid (record (phase_event persisted Phase.executed) {
        uid = persisted.uid;
        exit_code = some (pos 0);
      }))
  return done

pub record PlaybookReplies : Type 0 where
  pub lookup_job : Reply Job
  pub delete : WriteReply
  pub update : UpdateReplies

-- `err != nil && !apierrors.IsNotFound(err)`.
abbrev pub deletion_error : WriteReply → Option ApiError
deletion_error reply = elim (write_error reply) [
  | none ↦ none
  | some e ↦ if is_not_found e then none else some e
]

unfoldable pub delete_job_target : PlaybookReplies → SudoRequest → Job → M Requeue
delete_job_target r sr job =
    if not (job.uid === sr.status.playbook_target_uid)
    then mark_failed (said "target Job was replaced by a different object; refusing to delete it")
        r.update sr
    else if not (job_terminal job)
    then mark_failed (said "target Job no longer satisfies the terminal-state precondition")
        r.update sr
    else do
      tell (delete_target job job.uid r.delete)
      on_option (deletion_error r.delete) (λ e. fail (api e)) (mark_playbook_executed r.update sr)

unfoldable pub run_playbook : PlaybookReplies → SudoRequest → Reply Job → M Requeue
unfolding delete_job_target
run_playbook r sr (refused e) =
    if is_not_found e then mark_playbook_executed r.update sr else fail (api e)
run_playbook r sr (found job) =
    if sr.status.playbook_target_absent
    then mark_failed
        (said "Job appeared after the playbook was auto-approved; refusing to delete it") r.update
        sr
    else delete_job_target r sr job

-- `none` where the request is no auto-approved playbook, and the caller goes on.
unfoldable pub execute_auto_approved_playbook :
    Controller → PlaybookReplies → SudoRequest → Option (M Requeue)
unfolding run_playbook
execute_auto_approved_playbook c r sr =
    if not (is_set sr.spec.playbook) || not sr.status.playbook_auto_approved
    then none
    else some (do _ ← lift (terminal_job_cleanup_parameters c sr); run_playbook r sr r.lookup_job)
