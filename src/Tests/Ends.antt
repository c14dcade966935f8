-- ===== src/Tests/Ends.antt =====
-- The theorems on Jobs, on how a request ends and on the garbage collector, at concrete inputs.
use mathlib.Core.List.{Memᴰ}
use sudo_service.Prelude.{List, ◌↔◌, ◌*◌, [], ◌∷◌, some, true, false, ◌≡◌, ◌≤◌, refl, arith}
use sudo_service.Types.{
  found, pos, SudoRequest, Container, Reason, CaptureState, DeliveryState, Phase, second,
  executor_job_ttl, executor_job_ttl_floor,
}
use sudo_service.Cluster.{Secret, ExpiryLabel, accepted}
use sudo_service.Effects.{write_status, delete_secret, commit_all}
use sudo_service.Executor.Target.{executor_namespace}
use sudo_service.Executor.Output.{CapturedOutput}
use sudo_service.Executor.Manifest.{PodExtras, JobManifest, build_executor_job}
use sudo_service.Executor.Confined.{Confined, OwnedAtHome, build_executor_job-Confined}
use sudo_service.Playbooks.{PreparedPlaybook}
use sudo_service.Reconciler.Pending.{set_expired}
use sudo_service.Reconciler.New.{approve_playbook}
use sudo_service.Reconciler.Approved.{conclude}
use sudo_service.Lifecycle.Rules.{Each}
use sudo_service.Lifecycle.Overwriting.{overtaken, Overwrites, approve_playbook-Overwrites}
use sudo_service.Lifecycle.Concluding.{OnStop, Durable, conclude-Durable}
use sudo_service.Gc.{sweep_secrets, expire_all}
use sudo_service.Gc.Complete.{DeletesDue, expire_all_complete, sweep_secrets-DeletesDue}
use sudo_service.Tests.Requests.{
  controller, new_request, pending_request, named_request, request, plain_spec, fresh_status,
}
use sudo_service.Tests.Runs.{backup_job, new_replies, approved_replies, token_secret_reply}

abbrev no_extras : PodExtras
no_extras = record {
  env = [];
  env_from = [];
  volumes = [];
  volume_mounts = [];
  init_containers = [];
  image_pull_secrets = [];
}

abbrev abroad : SudoRequest
abroad = request (record plain_spec { target_namespace = "media" }) fresh_status

abbrev abroad_job : JobManifest
abroad_job =
    build_executor_job controller.shlex_split controller.rules abroad
      (executor_namespace abroad "sudo-service") "sudo-exec-1" no_extras "sudo-service"

build_executor_job-Confined_example :
    Confined abroad "sudo-service" abroad_job
    × OwnedAtHome "sudo-service" abroad_job
    × (executor_job_ttl_floor ≤ abroad_job.ttl_seconds_after_finished)
    × (abroad_job.ttl_seconds_after_finished ≤ executor_job_ttl)
build_executor_job-Confined_example =
    build_executor_job-Confined controller.shlex_split controller.rules abroad "sudo-exec-1"
      no_extras "sudo-service"

abbrev mounting : Container
mounting = record {
  name = "executor";
  image = "i";
  command = [];
  args = [];
  env = [];
  env_from = [];
  volume_mounts =
      record {
        name = "data";
        mount_path = "/data";
        sub_path = "";
        read_only = true;
        other_fields = false;
      }
      ∷ [];
  other_fields = false;
}

abbrev succeeded : CapturedOutput
succeeded = record {
  exit_code = pos 0;
  secret_ref = "sudo-out-1";
  capture_state = CaptureState.complete;
  delivery_state = DeliveryState.available;
  failure_reason = Reason.unstated;
  total_bytes = some 3;
  retained_bytes = some 3;
  sha256 = "digest";
}

conclude-Durable_example :
    Each
      (OnStop (Durable named_request backup_job))
      (conclude (approved_replies named_request) named_request backup_job false succeeded)
conclude-Durable_example =
    conclude-Durable (approved_replies named_request) named_request backup_job false succeeded

abbrev denied_request : SudoRequest
denied_request = request plain_spec (record fresh_status { phase = Phase.denied })

abbrev target : PreparedPlaybook
target = record { target_uid = "job-7"; target_absent = false }

-- Read too late once as it was pending, and then as it was denied.
approve_playbook-Overwrites_example : Overwrites new_replies target denied_request (
    commit_all denied_request
      (approve_playbook
        (overtaken new_replies (pending_request ∷ []) denied_request)
        target
        new_request
        new_request).effects)
approve_playbook-Overwrites_example =
    approve_playbook-Overwrites new_replies target new_request new_request denied_request
      (pending_request ∷ [])

expire_all_complete_example :
    Memᴰ (write_status pending_request (set_expired pending_request) accepted) (
      expire_all
        (9000 * second)
        (λ sr. accepted)
        (λ sr. accepted)
        true
        (new_request ∷ pending_request ∷ []))
expire_all_complete_example =
    expire_all_complete (9000 * second) (λ sr. accepted) (λ sr. accepted) true
      (new_request ∷ pending_request ∷ []) pending_request (Memᴰ.tail (Memᴰ.head refl)) refl
      (omega arith)

abbrev due_secret : Secret
due_secret = record token_secret_reply { expires_at = ExpiryLabel.at_time (pos 100) }

sweep_secrets-DeletesDue_example :
    Memᴰ
      (delete_secret due_secret.namespace due_secret.name accepted)
      (sweep_secrets 200 (λ s. accepted) (found (due_secret ∷ []))).effects
    ↔ (items : List Secret) × (found (due_secret ∷ []) ≡ found items)
      × DeletesDue 200
          (λ s. accepted)
          items
          (delete_secret due_secret.namespace due_secret.name accepted)
sweep_secrets-DeletesDue_example =
    sweep_secrets-DeletesDue 200 (λ s. accepted) (found (due_secret ∷ []))
      (delete_secret due_secret.namespace due_secret.name accepted)
