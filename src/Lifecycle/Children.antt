-- ===== src/Lifecycle/Children.antt =====
-- What holds of every effect of findOrCreateJob and of captureJobOutput, as far as it does not
-- restrict what these do besides the creation of the Job.
use sudo_service.Prelude.{ℕ, String, List, [], ◌∷◌, not, ◌&&◌, ◌||◌, ◌==◌, ◌===◌, is_empty}
use sudo_service.Types.{
  ℤ, SudoRequest, Error, api, errorf, wrapf, foreign_child_object, is_not_found, is_already_exists,
  Reply, found, refused,
}
use sudo_service.Cluster.{Job, Secret, write_error}
use sudo_service.Effects.{Effect, create_job, M, return, fail, check, lift}
use sudo_service.Controller.{Controller, controller_namespace}
use sudo_service.Executor.Target.{executor_namespace, cluster_admin_enabled}
use sudo_service.Executor.Manifest.{PodExtras, build_executor_job}
use sudo_service.Executor.Decode.{decode_pod_extras}
use sudo_service.Executor.Children.{
  JobReplies, StdinReplies, find_or_create_job, adopt_job, create_executor_job, provide_stdin,
  ensure_stdin_secret, verify_existing, is_owned_by, reject_service_account_token_secrets,
  referenced_secrets, check_secret, stop_job,
}
use sudo_service.Executor.Pods.{get_job_pod, container_to_report}
use sudo_service.Executor.Output.{
  Consumed, OutputReplies, capture_job_output, capture_from, deliver, unreadable, consume_pod_logs,
  delivery_error,
}
use sudo_service.Lifecycle.Rules.{
  Each, Each->>=, Each-check, Each-if, Each-on_reply, Each-on_option, Each-resume, Each-on_result,
}
use sudo_service.Lifecycle.Approving.{Quiet, stop_job-Each}

module _ (P : Effect → Type 0) (quiet : (e : Effect) → Quiet e → P e) where
  verify_existing-Each :
      (sr : SudoRequest) (job : Job) (existing : Reply Secret)
      → Each P (verify_existing sr job existing)
  unfolding verify_existing
  verify_existing-Each sr job (refused e) = tt
  verify_existing-Each sr job (found s) =
      Each-if P (not (is_owned_by job s) || not (s.content === sr.spec.stdin))
        (fail foreign_child_object) (return tt) tt tt

  ensure_stdin_secret-Each :
      (r : StdinReplies) (sr : SudoRequest) (job : Job) → Each P (ensure_stdin_secret r sr job)
  unfolding ensure_stdin_secret
  ensure_stdin_secret-Each r sr job = Each-if P (is_empty sr.spec.stdin) (return tt) _ tt (
    quiet _ tt,
    Each-on_option P (write_error r.create) _ (return tt)
        (λ e.
          Each-if P (is_already_exists e) (verify_existing sr job r.existing) _
            (verify_existing-Each sr job r.existing) tt)
        tt,
  )

  secrets-Each :
      (read : String → Reply Secret) (names : List String)
      → Each P (reject_service_account_token_secrets read names)
  unfolding reject_service_account_token_secrets
  secrets-Each read [] = tt
  secrets-Each read (name ∷ names) =
      Each->>= P (lift (check_secret name (read name))) _ tt λ _. secrets-Each read names

  adopt_job-Each :
      (c : Controller) (r : JobReplies) (sr : SudoRequest) (job : Job)
      → Each P (adopt_job c r sr job)
  unfolding adopt_job
  adopt_job-Each c r sr job =
      Each-if P job.deleting
        (fail (errorf "executor Job %s is terminating; waiting for deletion" (job.name ∷ []))) _ tt
        (Each-if P (not (executor_namespace sr (controller_namespace c) === controller_namespace c))
          (fail foreign_child_object) _ tt
          (Each->>= P (ensure_stdin_secret r.stdin sr job) _
            (ensure_stdin_secret-Each r.stdin sr job) λ _. tt))

  provide_stdin-Each :
      (r : JobReplies) (job : Job) (ensured : M (Unit {0}))
      → Each P ensured
      → Each P (provide_stdin r job ensured)
  unfolding provide_stdin
  provide_stdin-Each r job ensured h =
      Each-on_result P ensured _ _ h (λ _. tt)
        λ e.
          Each-on_result P (stop_job r.roll_back job) _ _ (stop_job-Each P quiet r.roll_back job)
            (λ _. tt) λ d. tt

  -- The Job that is created is the one that the request describes.
  create_executor_job-Each :
      (c : Controller) (r : JobReplies) (sr : SudoRequest) (extras : PodExtras)
      → P (
          create_job
            (build_executor_job c.shlex_split c.rules sr
              (executor_namespace sr (controller_namespace c))
              sr.status.executor_job_name
              extras
              (controller_namespace c))
            r.create)
      → Each P (create_executor_job c r sr extras)
  unfolding create_executor_job
  create_executor_job-Each c r sr extras h =
      Each->>= P _ _
        (Each-if P (cluster_admin_enabled sr (controller_namespace c)) (return tt)
          (reject_service_account_token_secrets r.secrets (referenced_secrets extras)) tt
          (secrets-Each r.secrets (referenced_secrets extras)))
        λ _. (
          h,
          Each->>= P (check (wrapf "create job: %w" []) r.create) _
              (Each-check P (wrapf "create job: %w" []) r.create)
              λ _. provide_stdin-Each r _ _ (ensure_stdin_secret-Each r.stdin sr _),
        )

  pub find_or_create_job-Each :
      (c : Controller) (r : JobReplies) (sr : SudoRequest)
      → ((extras : PodExtras)
          → P (
              create_job
                (build_executor_job c.shlex_split c.rules sr
                  (executor_namespace sr (controller_namespace c))
                  sr.status.executor_job_name
                  extras
                  (controller_namespace c))
                r.create))
      → Each P (find_or_create_job c r sr)
  unfolding find_or_create_job
  find_or_create_job-Each c r sr h =
      Each-on_reply P r.get (adopt_job c r sr) _ (adopt_job-Each c r sr) λ e.
        Each-if P (not (is_not_found e)) (fail (api e)) _ tt (
          Each-resume P (decode_pod_extras sr) (create_executor_job c r sr) _
            (λ extras. create_executor_job-Each c r sr extras (h extras)) λ d. tt)

  unreadable-Each :
      (job : Job) (container : String) (code : ℤ) (e : Error)
      → Each P (unreadable job container code e)
  unfolding unreadable
  unreadable-Each job container code e = Each-if P (job.succeeded == 0 && job.failed == 0) _ _ tt tt

  deliver-Each :
      (r : OutputReplies) (job : Job) (name : String) (at : ℕ) (code : ℤ) (logs : Consumed)
      → Each P (deliver r job name at code logs)
  unfolding deliver
  deliver-Each r job name at code logs = (
    quiet _ tt,
    Each-on_option P (delivery_error r.create) _ _
        (λ e. Each-if P (job.succeeded == 0 && job.failed == 0) _ _ tt tt) tt,
  )

  pub capture_job_output-Each :
      (c : Controller) (r : OutputReplies) (sr : SudoRequest) (job : Job) (now : ℕ)
      → Each P (capture_job_output c r sr job now)
  unfolding capture_job_output capture_from
  capture_job_output-Each c r sr job now =
      Each-resume P (get_job_pod job r.pods) _ fail
        (λ pod.
          Each-on_option P pod _ _
            (λ p.
              Each-resume P (container_to_report p) _ fail
                (λ reported.
                  Each-on_option P r.open_logs _ _ (unreadable-Each job reported.0 reported.1) (
                    Each-resume P (consume_pod_logs c.sha256_stream r.chunks r.stream_error) _ _
                      (deliver-Each r job _ _ reported.1)
                      (unreadable-Each job reported.0 reported.1)))
                λ e. tt)
            tt)
        λ e. tt
