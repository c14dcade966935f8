-- ===== src/Playbooks.antt =====
-- playbooks.go: typed operations that the controller may approve by itself.
pub mod Params
pub mod Prepare
pub mod Load
pub mod Loading
pub mod Execute
pub mod Safety
use sudo_service.Prelude.{String, List, Bool}

pub record TerminalJobCleanupRule : Type 0 where
  pub requester : String
  pub namespace : String
  pub cron_jobs : List String
  pub standalone_name_prefixes : List String

pub record PlaybookConfig : Type 0 where
  pub terminal_job_cleanup : List TerminalJobCleanupRule

pub record PreparedPlaybook : Type 0 where
  pub target_uid : String
  pub target_absent : Bool
