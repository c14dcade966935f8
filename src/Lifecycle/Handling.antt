-- ===== src/Lifecycle/Handling.antt =====
-- The whole of handleApproved, from the lemmas on its parts.
use sudo_service.Prelude.{
  [], none, some, Bool, true, false, not, ◌≡◌, refl, is_empty, ◌===◌, ◌||◌, if◌then◌else◌,
}
use sudo_service.Types.{wrapf, SudoRequest}
use sudo_service.Cluster.{Job, WriteReply, job_terminal}
use sudo_service.Effects.{Effect, write_status, create_job, delete_target, check, lift, ◌>>=◌}
use sudo_service.Controller.{Controller, controller_namespace}
use sudo_service.Executor.Target.{executor_namespace, is_set}
use sudo_service.Executor.Manifest.{PodExtras, build_executor_job}
use sudo_service.Playbooks.Params.{terminal_job_cleanup_parameters}
use sudo_service.Playbooks.Execute.{run_playbook, execute_auto_approved_playbook}
use sudo_service.Reconciler.Approved.{
  ApprovedReplies, mint_names, start_job, watch_job, run_executor, add_finalizer, needs_finalizer,
  or_else,
}
use sudo_service.Lifecycle.Rules.{Each, Each->>=, Each-check, Each-if, Each-if_eq}
use sudo_service.Lifecycle.Approving.{Quiet, Mutation, ApprovedSteady}
use sudo_service.Lifecycle.Starting.{mint_names-Each, start_job-Each}
use sudo_service.Lifecycle.Watching.{watch_job-Each}
use sudo_service.Lifecycle.RunPlaybook.{run_playbook-Each}

module _ (P : Effect → Type 0) (Q : SudoRequest → Type 0) (quiet : (e : Effect) → Quiet e → P e)
    (write : (base current : SudoRequest) (mutate : SudoRequest → SudoRequest) (reply : WriteReply)
      → Q base
      → current.status.phase ≡ base.status.phase
      → Mutation mutate
      → P (write_status base (mutate current) reply)) where
  module _ (c : Controller) (r : ApprovedReplies) (st : ApprovedSteady Q r) (sr : SudoRequest)
      (q : Q sr) where
    add_finalizer-Each : Each P (add_finalizer r sr)
    unfolding add_finalizer
    add_finalizer-Each = (
      quiet _ tt,
      Each->>= P (check (wrapf "add executor-cleanup finalizer: %w" []) r.add_finalizer) _
          (Each-check P (wrapf "add executor-cleanup finalizer: %w" []) r.add_finalizer) λ _. tt,
    )

    pub run_executor-Each :
        (is_empty sr.status.executor_job_name ≡ false
          → is_empty sr.status.executor_job_uid ≡ true
          → (extras : PodExtras)
          → P (
              create_job
                (build_executor_job c.shlex_split c.rules sr
                  (executor_namespace sr (controller_namespace c))
                  sr.status.executor_job_name
                  extras
                  (controller_namespace c))
                r.child.create))
        → Each P (run_executor c r sr)
    unfolding run_executor
    run_executor-Each create =
        Each-if P (needs_finalizer c sr) (add_finalizer r sr) _ add_finalizer-Each (
          Each-if_eq P (is_empty sr.status.executor_job_name) (mint_names r sr) _
            (λ _. mint_names-Each P Q quiet write c r st sr q)
            λ n.
              Each-if_eq P (is_empty sr.status.executor_job_uid) (start_job c r sr)
                (watch_job c r sr) (λ u. start_job-Each P Q quiet write c r st sr q (create n u))
                λ _. watch_job-Each P Q quiet write c r st sr q)

    -- The playbook step and the executor step together.
    pub approved-Each :
        ((job : Job)
          → sr.status.playbook_auto_approved ≡ true
          → sr.status.playbook_target_absent ≡ false
          → (job.uid === sr.status.playbook_target_uid) ≡ true
          → job_terminal job ≡ true
          → P (delete_target job job.uid r.playbook.delete))
        → Each P (run_executor c r sr)
        → Each P (or_else (execute_auto_approved_playbook c r.playbook sr) (run_executor c r sr))
    unfolding execute_auto_approved_playbook
    approved-Each delete run =
        by_test (not (is_set sr.spec.playbook)) sr.status.playbook_auto_approved refl
      where
        by_test :
            (a b : Bool)
            → sr.status.playbook_auto_approved ≡ b
            → Each P (
                or_else
                  (if a || not b
                    then none
                    else some (
                        lift (terminal_job_cleanup_parameters c sr) >>= λ _.
                        run_playbook r.playbook sr r.playbook.lookup_job))
                  (run_executor c r sr))
        by_test true b e = run
        by_test false false e = run
        by_test false true e = Each->>= P (lift (terminal_job_cleanup_parameters c sr)) _ tt λ _.
            run_playbook-Each P Q quiet write r.playbook st.0 sr q (λ job a u t. delete job e a u t)
              r.playbook.lookup_job
