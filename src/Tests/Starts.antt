-- ===== src/Tests/Starts.antt =====
-- An environment with its files, and the theorems on the server that they start.
use sudo_service.Prelude.{String, [], ◌∷◌, false, lookup, contains, ◌===◌, if◌then◌else◌, refl}
use sudo_service.Types.{found, ok}
use sudo_service.Cluster.{job_terminal}
use sudo_service.AutoApprove.{
  get_auto_approve_parsed_command, match_tokens, first_match, matches_rule, matches_exact, same_at,
}
use sudo_service.Playbooks.{PlaybookConfig}
use sudo_service.Playbooks.Params.{cleanup_parameters, check_names}
use sudo_service.Playbooks.Prepare.{
  prepare_playbook, prepare_config, prepare_target, matching_rules, matches_terminal_job_rule,
  matches_by_owner, controller_owner,
}
use sudo_service.Playbooks.Load.{
  check_cron_jobs, check_prefixes, validate_terminal_job_cleanup_rule, validate_rules,
  load_playbook_config,
}
use sudo_service.Playbooks.Loading.{AllowedByFile}
use sudo_service.Profiles.{default_executor_image}
use sudo_service.Http.Message.{ApiServer}
use sudo_service.Startup.{
  Files, getenv, config_of, load_config, load_auto_approve_config, new_summarizer, serve_with,
  start_up,
}
use sudo_service.Startup.Wired.{RuleOfFile, start_up-AllowedByFile, start_up-RuleOfFile}
use sudo_service.Tests.Requests.{backup_rule, get_pods_rule, cleanup_request}
use sudo_service.Tests.Runs.{backup_job}
use sudo_service.Tests.Pages.{server}

abbrev env : String → String
env k =
    if k === "PUSHOVER_TOKEN"
    then "token"
    else if k === "PUSHOVER_USER_KEY"
    then "user"
    else if k === "PLAYBOOK_CONFIG"
    then "/playbooks"
    else if k === "AUTO_APPROVE_CONFIG"
    then "/rules"
    else ""

abbrev files : Files
files = record {
  rules = λ path. found (ok (get_pods_rule ∷ []));
  playbooks = λ path. ok (ok (record { terminal_job_cleanup = backup_rule ∷ [] }));
}

abbrev started : ApiServer
started =
    serve_with server (config_of env) (get_pods_rule ∷ [])
      (record { terminal_job_cleanup = backup_rule ∷ [] })

start_up-AllowedByFile_example :
    (config : PlaybookConfig) × AllowedByFile started.controller files.playbooks
      (env "PLAYBOOK_CONFIG")
      config
      cleanup_request
      (found backup_job)
      (record { target_uid = "job-7"; target_absent = false })
unfolding start_up load_config config_of getenv load_auto_approve_config load_playbook_config
    validate_rules validate_terminal_job_cleanup_rule check_cron_jobs check_prefixes serve_with
    new_summarizer lookup prepare_playbook prepare_config prepare_target matching_rules
    matches_terminal_job_rule matches_by_owner controller_owner cleanup_parameters check_names
    job_terminal contains
start_up-AllowedByFile_example =
    start_up-AllowedByFile server files env started cleanup_request (found backup_job)
      (record { target_uid = "job-7"; target_absent = false }) refl refl

start_up-RuleOfFile_example :
    RuleOfFile files.rules
      (env "AUTO_APPROVE_CONFIG")
      ("kubectl" ∷ "get" ∷ "pods" ∷ [])
      default_executor_image
unfolding start_up load_config config_of getenv load_auto_approve_config load_playbook_config
    validate_rules validate_terminal_job_cleanup_rule check_cron_jobs check_prefixes serve_with
    new_summarizer lookup get_auto_approve_parsed_command match_tokens first_match matches_rule
    matches_exact same_at
start_up-RuleOfFile_example =
    start_up-RuleOfFile server files env started "kubectl get pods" default_executor_image
      ("kubectl" ∷ "get" ∷ "pods" ∷ []) refl refl
