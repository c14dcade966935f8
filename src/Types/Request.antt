-- ===== src/Types/Request.antt =====
-- SudoRequest: the object metadata that the program reads, the spec and the status; and the
-- constants of types.go.
use sudo_service.Prelude.{ℕ, ◌*◌, ◌-◌, ◌/◌, String, Option, List, if◌then◌else◌, is_empty}
use sudo_service.Types.Spec.{SudoRequestSpec}
use sudo_service.Types.Status.{SudoRequestStatus}

pub record SudoRequest : Type 0 where
  pub name : String
  pub namespace : String
  pub uid : String
  pub creation_timestamp : ℕ
  pub deletion_timestamp : Option ℕ
  pub finalizers : List String
  pub spec : SudoRequestSpec
  pub status : SudoRequestStatus

-- A second, in nanoseconds.
abbrev pub second : ℕ
second = 1_000_000_000

-- Unix seconds of a time in nanoseconds.
abbrev pub unix : ℕ → ℕ
unix t = t / second

abbrev pub pending_request_ttl : ℕ
pending_request_ttl = 60 * 60

abbrev pub approval_token_ttl : ℕ
approval_token_ttl = pending_request_ttl

abbrev pub executor_job_ttl : ℕ
executor_job_ttl = 60 * 60

abbrev pub default_post_approval : ℕ
default_post_approval = 3600

abbrev pub executor_start_deadline : ℕ
executor_start_deadline = 600

abbrev pub executor_job_ttl_floor : ℕ
executor_job_ttl_floor = 120

abbrev pub max_stdin_bytes : ℕ
max_stdin_bytes = 1024 * 1024 - 4096

abbrev pub max_output_bytes : ℕ
max_output_bytes = 1024 * 1024 - 4096

abbrev pub default_controller_namespace : String
default_controller_namespace = "sudo-service"

unfoldable pub configured_controller_namespace : String → String
configured_controller_namespace ns = if is_empty ns then default_controller_namespace else ns
