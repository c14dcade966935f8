-- ===== src/Executor/Children.antt =====
-- executor.go: the Job and the stdin Secret of a request. A Job that the API server creates gets
-- the uid and the creation time that it chooses, which are among the answers.
use sudo_service.Prelude.{
  ℕ, String, List, [], ◌∷◌, ◌++◌, none, some, Bool, true, false, ◌&&◌, ◌||◌, not, any, is_empty,
  ◌===◌, if◌then◌else◌,
}
use sudo_service.Types.{
  SudoRequest, EnvVar, EnvFromSource, Volume, Container, api, errorf, wrapf, foreign_child_object,
  disallowed_secret, is_not_found, is_already_exists, Result, Reply, found, refused,
}
use sudo_service.Cluster.{Job, Secret, ExpiryLabel, WriteReply, write_error}
use sudo_service.Effects.{
  create_job, delete_job, create_secret, M, return, fail, tell, on_reply, on_option, on_result,
  resume, lift, check, ◌>>◌,
}
use sudo_service.Controller.{Controller, controller_namespace}
use sudo_service.Executor.Target.{executor_namespace, cluster_admin_enabled}
use sudo_service.Executor.Manifest.{PodExtras, JobManifest, build_executor_job}
use sudo_service.Executor.Decode.{decode_pod_extras}

unfoldable pub secrets_of_env : List EnvVar → List String
secrets_of_env [] = []
secrets_of_env (e ∷ es) =
    let rest = secrets_of_env es in elim e.secret_key_ref [ none ↦ rest | some n ↦ n ∷ rest ]

unfoldable pub secrets_of_env_from : List EnvFromSource → List String
secrets_of_env_from [] = []
secrets_of_env_from (e ∷ es) =
    let rest = secrets_of_env_from es in elim e.secret_ref [ none ↦ rest | some n ↦ n ∷ rest ]

unfoldable pub secrets_of_volumes : List Volume → List String
secrets_of_volumes [] = []
secrets_of_volumes (v ∷ vs) =
    let rest = secrets_of_volumes vs in
    elim v.secret [ none ↦ rest | some n ↦ if is_empty n then rest else n ∷ rest ]

unfoldable pub secrets_of_containers : List Container → List String
secrets_of_containers [] = []
secrets_of_containers (c ∷ cs) =
    secrets_of_env c.env ++ (secrets_of_env_from c.env_from ++ secrets_of_containers cs)

-- The names whose Secrets are looked up; the program visits them in no fixed order.
unfoldable pub referenced_secrets : PodExtras → List String
referenced_secrets extras =
    secrets_of_volumes extras.volumes
    ++ (secrets_of_env extras.env
        ++ (secrets_of_env_from extras.env_from ++ secrets_of_containers extras.init_containers))

unfoldable pub check_secret : String → Reply Secret → Result (Unit {0})
check_secret name (refused e) =
    if is_not_found e
    then Result.err (wrapf "%w: %q does not exist" (name ∷ []) disallowed_secret)
    else Result.err (api e)
check_secret name (found sec) =
    if sec.type_is_token
    then Result.err (wrapf "%w: %q is a service-account-token secret" (name ∷ []) disallowed_secret)
    else Result.ok tt

unfoldable pub reject_service_account_token_secrets :
    (String → Reply Secret) → List String → M (Unit {0})
unfolding check_secret
reject_service_account_token_secrets read [] = return tt
reject_service_account_token_secrets read (name ∷ names) =
    lift (check_secret name (read name)) >> reject_service_account_token_secrets read names

pub record StdinReplies : Type 0 where
  pub create : WriteReply
  pub existing : Reply Secret

abbrev pub stdin_secret : SudoRequest → Job → Secret
stdin_secret sr job = record {
  name = sr.status.stdin_secret_name;
  namespace = job.namespace;
  type_is_token = false;
  owner_references =
      record {
        api_version = "batch/v1";
        kind = "Job";
        name = job.name;
        uid = job.uid;
        controller = some true;
      }
      ∷ [];
  expires_at = ExpiryLabel.missing;
  content = sr.spec.stdin;
}

unfoldable pub is_owned_by : Job → Secret → Bool
is_owned_by job sec = any (λ o. o.uid === job.uid && o.kind === "Job") sec.owner_references

unfoldable pub verify_existing : SudoRequest → Job → Reply Secret → M (Unit {0})
verify_existing sr job (refused e) = fail (wrapf "get existing stdin secret: %w" [] (api e))
verify_existing sr job (found existing) =
    if not (is_owned_by job existing) || not (existing.content === sr.spec.stdin)
    then fail foreign_child_object
    else return tt

unfoldable pub ensure_stdin_secret : StdinReplies → SudoRequest → Job → M (Unit {0})
unfolding verify_existing
ensure_stdin_secret r sr job = if is_empty sr.spec.stdin then return tt else do
  tell (create_secret (stdin_secret sr job) r.create)
  on_option (write_error r.create)
      (λ e.
        if is_already_exists e
        then verify_existing sr job r.existing
        else fail (wrapf "create stdin secret: %w" [] (api e)))
      (return tt)

unfoldable pub stop_job : WriteReply → Job → M (Unit {0})
stop_job reply job = do
  tell (delete_job job reply)
  on_option (write_error reply) (λ e. if is_not_found e then return tt else fail (api e))
      (return tt)

pub record JobReplies : Type 0 where
  pub get : Reply Job
  pub secrets : String → Reply Secret
  pub create : WriteReply
  pub created_uid : String
  pub created_at : ℕ
  pub stdin : StdinReplies
  pub roll_back : WriteReply

-- The Job as the API server returns it after its creation.
abbrev pub created_job : JobReplies → JobManifest → Job
created_job r m = record {
  name = m.name;
  namespace = m.namespace;
  uid = r.created_uid;
  creation_timestamp = r.created_at;
  deleting = false;
  owner_references = m.owner_references;
  conditions = [];
  succeeded = 0;
  failed = 0;
}

unfoldable pub adopt_job : Controller → JobReplies → SudoRequest → Job → M Job
adopt_job c r sr job =
    if job.deleting
    then fail (errorf "executor Job %s is terminating; waiting for deletion" (job.name ∷ []))
    else if not (executor_namespace sr (controller_namespace c) === controller_namespace c)
    then fail foreign_child_object
    else ensure_stdin_secret r.stdin sr job >> return job

-- The stdin Secret of a new Job, with the Job rolled back where that fails.
unfoldable pub provide_stdin : JobReplies → Job → M (Unit {0}) → M Job
provide_stdin r job ensured =
    on_result ensured (λ _. return job)
      (λ e.
        on_result (stop_job r.roll_back job) (λ _. fail e)
          (λ d. fail (wrapf "roll back job after stdin secret error (%v): %w" [] d)))

unfoldable pub create_executor_job : Controller → JobReplies → SudoRequest → PodExtras → M Job
unfolding provide_stdin
create_executor_job c r sr extras =
    let own = controller_namespace c in
    let ns = executor_namespace sr own in
    let name = sr.status.executor_job_name in
    let manifest = build_executor_job c.shlex_split c.rules sr ns name extras own in
    do
      if cluster_admin_enabled sr own
          then return tt
          else reject_service_account_token_secrets r.secrets (referenced_secrets extras)
      tell (create_job manifest r.create)
      check (wrapf "create job: %w" []) r.create
      provide_stdin r (created_job r manifest)
          (ensure_stdin_secret r.stdin sr (created_job r manifest))

unfoldable pub find_or_create_job : Controller → JobReplies → SudoRequest → M Job
unfolding adopt_job create_executor_job
find_or_create_job c r sr = on_reply r.get (adopt_job c r sr) (λ e.
    if not (is_not_found e)
    then fail (api e)
    else resume (decode_pod_extras sr) (create_executor_job c r sr)
        (λ d. fail (wrapf "decode pod extras: %w" [] d)))
