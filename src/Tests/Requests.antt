-- ===== src/Tests/Requests.antt =====
-- A controller and requests to test with.
use sudo_service.Prelude.{◌*◌, [], ◌∷◌, none, some, true, false, byte_len}
use sudo_service.Types.{
  SudoRequestSpec, SudoRequestStatus, empty_status, SudoRequest, Phase, NotificationState, Result,
  second,
}
use sudo_service.Profiles.Commands.{Node, Shell}
use sudo_service.AutoApprove.{AutoApproveRule}
use sudo_service.Playbooks.{TerminalJobCleanupRule}
use sudo_service.Controller.{Controller}

abbrev pub get_pods_rule : AutoApproveRule
get_pods_rule = record { exact = "kubectl" ∷ "get" ∷ "pods" ∷ []; prefix = []; image = "" }

abbrev pub backup_rule : TerminalJobCleanupRule
backup_rule = record {
  requester = "alice";
  namespace = "media";
  cron_jobs = "backup" ∷ [];
  standalone_name_prefixes = [];
}

-- A parser that reads one call of kubectl, and patterns that match nothing.
abbrev pub shell : Shell
shell = record {
  nodes = λ command. some (Node.call (some "kubectl" ∷ some "get" ∷ some "pods" ∷ []) ∷ []);
  installs_package = λ command. false;
  executes_base64 = λ command. false;
  decodes_base64 = λ command. false;
  base64_literals = λ command. [];
  has_heredoc = λ command. false;
  matches_pipefail = λ command. false;
  matches_bashism = λ command. false;
  runs_long_tool = λ command. false;
  sleep = λ command. none;
}

-- Words separated by nothing, a digest that is the length, and no syntax error.
abbrev pub controller : Controller
controller = record {
  namespace = "sudo-service";
  rules = get_pods_rule ∷ [];
  playbooks = some (record { terminal_job_cleanup = backup_rule ∷ [] });
  has_summarizer = false;
  summarizer_model = "";
  shlex_split = λ s. some ("kubectl" ∷ "get" ∷ "pods" ∷ []);
  sha256_hex = λ s. byte_len s ∷ [];
  approval_link = λ uid token. Result.ok "https://sudo.example/r";
  sha256_stream = λ chunks. "digest";
  syntax_error = λ command. none;
  shell = shell;
  is_dns_label = λ s. true;
  is_dns_subdomain = λ s. true;
  fingerprint = λ s image. s.command;
}

abbrev pub plain_spec : SudoRequestSpec
plain_spec = record {
  requester = "alice";
  submitted_by = "";
  retry_of_uid = "";
  reason = "look at the pods";
  command = "kubectl get pods";
  playbook = none;
  image = "";
  profile = "";
  ttl_seconds_after_approval = none;
  target_namespace = "";
  stdin = "";
  env = [];
  env_from = [];
  volumes = [];
  volume_mounts = [];
  init_containers = [];
  image_pull_secrets = [];
  cluster_admin = none;
}

abbrev pub fresh_status : SudoRequestStatus
fresh_status = empty_status

abbrev pub request : SudoRequestSpec → SudoRequestStatus → SudoRequest
request s t = record {
  name = "r1";
  namespace = "sudo-service";
  uid = "uid-1";
  creation_timestamp = 1000 * second;
  deletion_timestamp = none;
  finalizers = [];
  spec = s;
  status = t;
}

abbrev pub new_request : SudoRequest
new_request = request plain_spec fresh_status

-- Waiting for a human, with a token of six bytes that is good until second 5000.
abbrev pub pending_request : SudoRequest
pending_request = request plain_spec (record fresh_status {
  phase = Phase.pending;
  approval_token_hash = 6 ∷ [];
  approval_token_expires_at = some (5000 * second);
  approval_token_secret_name = "sudo-token-1";
  notification_state = NotificationState.queued;
})

-- Approved, with the Job's name on record and no Job yet.
abbrev pub named_request : SudoRequest
named_request =
    request plain_spec
      (record fresh_status { phase = Phase.approved; executor_job_name = "sudo-exec-1" })

abbrev pub cleanup_spec : SudoRequestSpec
cleanup_spec = record plain_spec {
  playbook = some (record {
    name = "job.cleanup-terminal/v1";
    parameters = ("namespace", "media") ∷ ("name", "backup-1") ∷ [];
  });
}

-- A playbook that the controller approved, with its target pinned.
abbrev pub cleanup_request : SudoRequest
cleanup_request = request cleanup_spec (record fresh_status {
  phase = Phase.approved;
  playbook_auto_approved = true;
  playbook_target_uid = "job-7";
})
