-- ===== src/Lifecycle/RunPlaybook.antt =====
-- What holds of every effect of runPlaybook, of executeAutoApprovedPlaybook's two branches.
use sudo_service.Prelude.{true, false, not, ◌≡◌, arith, ◌===◌}
use sudo_service.Types.{SudoRequest, api, is_not_found, Reply, found, refused}
use sudo_service.Cluster.{Job, WriteReply, job_terminal}
use sudo_service.Effects.{Effect, write_status, delete_target, fail}
use sudo_service.Playbooks.Execute.{
  PlaybookReplies, mark_playbook_executed, delete_job_target, run_playbook, deletion_error,
}
use sudo_service.Lifecycle.Rules.{Each, Each-if, Each-if_eq, Each-on_option}
use sudo_service.Lifecycle.Approving.{
  Quiet, Mutation, Steady, mark_failed-Each, mark_playbook_executed-Each,
}

module _ (P : Effect → Type 0) (Q : SudoRequest → Type 0) (quiet : (e : Effect) → Quiet e → P e)
    (write : (base current : SudoRequest) (mutate : SudoRequest → SudoRequest) (reply : WriteReply)
      → Q base
      → current.status.phase ≡ base.status.phase
      → Mutation mutate
      → P (write_status base (mutate current) reply)) where
  module _ (r : PlaybookReplies) (st : Steady Q r.update) (sr : SudoRequest) (q : Q sr)
      (delete : (job : Job)
        → sr.status.playbook_target_absent ≡ false
        → (job.uid === sr.status.playbook_target_uid) ≡ true
        → job_terminal job ≡ true
        → P (delete_target job job.uid r.delete)) where
    delete_job_target-Each :
        sr.status.playbook_target_absent ≡ false → (job : Job) → Each P (delete_job_target r sr job)
    unfolding delete_job_target
    delete_job_target-Each a job =
        Each-if_eq P (not (job.uid === sr.status.playbook_target_uid)) _ _
          (λ _. mark_failed-Each P Q quiet write _ r.update st sr q)
          λ e.
            Each-if_eq P (not (job_terminal job)) _ _
              (λ _. mark_failed-Each P Q quiet write _ r.update st sr q)
              λ d. (
                delete job a (ground arith) (ground arith),
                Each-on_option P (deletion_error r.delete) _ _ (λ x. tt)
                    (mark_playbook_executed-Each P Q quiet write r.update st sr q),
              )

    pub run_playbook-Each : (l : Reply Job) → Each P (run_playbook r sr l)
    unfolding run_playbook
    run_playbook-Each (refused e) =
        Each-if P (is_not_found e) (mark_playbook_executed r.update sr) (fail (api e))
          (mark_playbook_executed-Each P Q quiet write r.update st sr q) tt
    run_playbook-Each (found job) =
        Each-if_eq P sr.status.playbook_target_absent _ _
          (λ _. mark_failed-Each P Q quiet write _ r.update st sr q)
          λ a. delete_job_target-Each a job
