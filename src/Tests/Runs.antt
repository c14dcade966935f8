-- ===== src/Tests/Runs.antt =====
-- Answers of the API server to test with.
use sudo_service.Prelude.{◌*◌, [], ◌∷◌, none, some, true, false}
use sudo_service.Types.{found, refused, ApiError, Result, SudoRequest, second, pos}
use sudo_service.Cluster.{Job, ConditionType, Secret, ExpiryLabel, accepted, rejected}
use sudo_service.Executor.Output.{OutputReplies}
use sudo_service.Reconciler.Update.{UpdateReplies}
use sudo_service.Reconciler.Decide.{DecideReplies}
use sudo_service.Reconciler.New.{NewReplies}
use sudo_service.Reconciler.Deliver.{DeliverReplies}
use sudo_service.Pushover.{PushoverReply}
use sudo_service.Reconciler.Pending.{PendingReplies}
use sudo_service.Reconciler.Approved.{ApprovedReplies}
use sudo_service.Reconciler.Dispatch.{ReconcileReplies}
use sudo_service.Tests.Requests.{pending_request}

abbrev pub backup_job : Job
backup_job = record {
  name = "backup-1";
  namespace = "media";
  uid = "job-7";
  creation_timestamp = 900 * second;
  deleting = false;
  owner_references =
      record {
        api_version = "batch/v1";
        kind = "CronJob";
        name = "backup";
        uid = "cron-1";
        controller = some true;
      }
      ∷ [];
  conditions = record { type = ConditionType.complete; status_true = true } ∷ [];
  succeeded = 1;
  failed = 0;
}

abbrev pub smooth : UpdateReplies
smooth = record { first = accepted; attempts = [] }

-- A conflict, then a read of `sr` and an accepted write.
abbrev pub contended : SudoRequest → UpdateReplies
contended sr = record {
  first = rejected ApiError.conflict;
  attempts = record { latest = found sr; reply = accepted } ∷ [];
}

abbrev pub decide_replies : DecideReplies
decide_replies = record {
  time = 2000 * second;
  listing = found (pending_request ∷ []);
  update = accepted;
  delete = accepted;
}

abbrev pub new_replies : NewReplies
new_replies = record {
  time = 1001 * second;
  deny = accepted;
  lookup_job = found backup_job;
  playbook = smooth;
  auto = accepted;
  token = Result.ok "secret";
  set_owner = none;
  create_secret = accepted;
  secret_name = "sudo-token-1";
  pending = accepted;
}

abbrev pub token_secret_reply : Secret
token_secret_reply = record {
  name = "sudo-token-1";
  namespace = "sudo-service";
  type_is_token = false;
  owner_references = [];
  expires_at = ExpiryLabel.missing;
  content = "secret";
}

abbrev pub deliver_replies : DeliverReplies
deliver_replies = record {
  secret = found token_secret_reply;
  attempted_at = 1002 * second;
  sent =
      PushoverReply.answered 200 ""
        (Result.ok (record { status = pos 1; request = "push-1"; errors = [] }));
  delivered_at = 1003 * second;
  returned_at = 1004 * second;
  record_failure = smooth;
  record_delivery = smooth;
}

abbrev pub pending_replies : PendingReplies
pending_replies = record {
  time = 1002 * second;
  expire = accepted;
  delete = accepted;
  chat = λ prompt. Result.ok none;
  assessed_at = 0;
  record_assessment = smooth;
  time_after = 1002 * second;
  deliver = deliver_replies;
}

abbrev pub output_replies : OutputReplies
output_replies = record {
  pods = found [];
  open_logs = none;
  chunks = [];
  stream_error = none;
  create = accepted;
}

-- The read of the request answers `sr`; no Job exists yet, and the target of a playbook does.
abbrev pub approved_replies : SudoRequest → ApprovedReplies
approved_replies sr = record {
  time = 2001 * second;
  refetch = found sr;
  playbook = record { lookup_job = found backup_job; delete = accepted; update = smooth };
  add_finalizer = accepted;
  job_suffix = Result.ok "1";
  stdin_suffix = Result.ok "1";
  record_names = smooth;
  child = record {
    get = refused ApiError.not_found;
    secrets = λ name. refused ApiError.not_found;
    create = accepted;
    created_uid = "job-9";
    created_at = 2001 * second;
    stdin = record { create = accepted; existing = refused ApiError.not_found };
    roll_back = accepted;
  };
  record_uid = contended sr;
  get_job = refused ApiError.not_found;
  pods = found [];
  pods_again = found [];
  output = output_replies;
  record_result = smooth;
  stop = accepted;
  fail_get = refused ApiError.not_found;
  fail_stop = accepted;
  finish = smooth;
}

abbrev pub reconcile_replies : SudoRequest → ReconcileReplies
reconcile_replies sr = record {
  get = found sr;
  get_job = refused ApiError.not_found;
  stop = accepted;
  release = accepted;
  for_new = new_replies;
  for_pending = pending_replies;
  for_approved = approved_replies sr;
}
