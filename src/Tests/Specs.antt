-- ===== src/Tests/Specs.antt =====
-- The theorems on what a request may ask for, at concrete requests.
use sudo_service.Prelude.{
  Option, none, lookup, String, List, [], ◌∷◌, some, true, false, byte_len, All, Any, Distinct,
  contains, ◌≡◌, ◌≢◌, ◌↔◌, ◌≤◌, refl,
}
use sudo_service.Types.{VolumeMount, Raw, SudoRequest, ok, found, max_stdin_bytes}
use sudo_service.AutoApprove.{get_auto_approve_parsed_command}
use sudo_service.AutoApprove.Rules.{Allows, get_auto_approve_parsed_command_iff}
use sudo_service.Executor.Decode.{decode_pod_extras, decode_from}
use sudo_service.Cluster.{job_terminal}
use sudo_service.Profiles.{default_executor_image}
use sudo_service.Playbooks.Params.{cleanup_parameters, check_names}
use sudo_service.Playbooks.Prepare.{
  prepare_playbook, prepare_config, prepare_target, matching_rules, matches_terminal_job_rule,
  matches_by_owner, controller_owner,
}
use sudo_service.Playbooks.Safety.{Allowlisted, prepare_auto_approved_playbook-Allowlisted}
use sudo_service.Review.Describe.{describe_volume_source}
use sudo_service.Validation.{
  validate_mounts_from, validate_spec_extras, validate_pod_extras, validate_volumes,
  validate_volume_source, validate_mount_names, validate_mounts, validate_init_containers,
  validate_pull_secrets, is_reserved, is_true,
}
use sudo_service.Validation.Mounts.{Refers, paths, validate_mounts_from_iff}
use sudo_service.Validation.Accepted.{Decodes, validate_spec_extras-Decodes}
use sudo_service.Tests.Requests.{
  controller, get_pods_rule, plain_spec, fresh_status, request, cleanup_request,
}
use sudo_service.Tests.Runs.{backup_job}

abbrev data_mount : VolumeMount
data_mount = record {
  name = "data";
  mount_path = "/data";
  sub_path = "";
  read_only = true;
  other_fields = false;
}

abbrev mounting_request : SudoRequest
mounting_request =
    request
      (record plain_spec {
        volumes =
            Raw.decodes (record {
              name = "data";
              empty_dir = true;
              size_limit = none;
              secret = none;
              secret_items = [];
              config_map = none;
              config_map_items = [];
              persistent_volume_claim = none;
              claim_read_only = false;
              projected = false;
              host_path = false;
              host_path_path = "";
            })
            ∷ [];
        volume_mounts = Raw.decodes data_mount ∷ [];
      })
      fresh_status

abbrev get_pods : List String
get_pods = "kubectl" ∷ "get" ∷ "pods" ∷ []

abbrev splits : String → Option (List String)
splits s = some get_pods

get_auto_approve_parsed_command_iff_example :
    (get_auto_approve_parsed_command splits
        (get_pods_rule ∷ [])
        "kubectl get pods"
        default_executor_image
      ≡ some get_pods)
    ↔ ((splits "kubectl get pods" ≡ some get_pods)
        × (get_pods ≢ [])
        × Any (Allows get_pods default_executor_image) (get_pods_rule ∷ []))
get_auto_approve_parsed_command_iff_example =
    get_auto_approve_parsed_command_iff splits (get_pods_rule ∷ []) "kubectl get pods"
      default_executor_image get_pods

prepare_auto_approved_playbook-Allowlisted_example :
    Allowlisted controller cleanup_request
      (found backup_job)
      (record { target_uid = "job-7"; target_absent = false })
unfolding prepare_playbook prepare_config prepare_target matching_rules matches_terminal_job_rule
    matches_by_owner controller_owner cleanup_parameters check_names lookup job_terminal contains
prepare_auto_approved_playbook-Allowlisted_example =
    prepare_auto_approved_playbook-Allowlisted controller cleanup_request (found backup_job)
      (record { target_uid = "job-7"; target_absent = false }) refl

validate_spec_extras-Decodes_example :
    (byte_len mounting_request.spec.stdin ≤ max_stdin_bytes) × Decodes mounting_request
unfolding validate_spec_extras validate_pod_extras validate_volumes validate_volume_source
    validate_mount_names validate_mounts validate_init_containers validate_pull_secrets is_true
    is_reserved validate_mounts_from contains decode_pod_extras decode_from describe_volume_source
validate_spec_extras-Decodes_example =
    validate_spec_extras-Decodes mounting_request "sudo-service" refl

validate_mounts_from_iff_example :
    (validate_mounts_from "pod" ("data" ∷ []) [] (data_mount ∷ []) ≡ ok tt) ↔ (
      All (Refers ("data" ∷ [])) (data_mount ∷ [])
      × All (λ m. contains [] m.mount_path ≡ false) (data_mount ∷ [])
      × Distinct (paths (data_mount ∷ [])))
validate_mounts_from_iff_example = validate_mounts_from_iff "pod" ("data" ∷ []) [] (data_mount ∷ [])
