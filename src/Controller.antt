-- ===== src/Controller.antt =====
-- The configuration of the controller, and what the program takes from elsewhere: shlex.Split (`none`
-- on an error), SHA-256 in hex (its bytes) of a text and of a stream of chunks, the canonical JSON of a
-- spec and an image under SHA-256, the link that net/url builds of a uid and a token, the shell
-- parser's verdict on a command, its nodes and the patterns of profiles.go, and the DNS-1123 checks of
-- k8s.io/apimachinery (true where they find no problem).
use sudo_service.Prelude.{ℕ, String, List, Option, Bool}
use sudo_service.Types.{Error, Result, SudoRequestSpec, configured_controller_namespace}
use sudo_service.Profiles.Commands.{Shell}
use sudo_service.AutoApprove.{AutoApproveRule}
use sudo_service.Playbooks.{PlaybookConfig}

pub record Controller : Type 0 where
  pub namespace : String
  pub rules : List AutoApproveRule
  pub playbooks : Option PlaybookConfig
  pub has_summarizer : Bool
  pub summarizer_model : String
  pub shlex_split : String → Option (List String)
  pub sha256_hex : String → List ℕ
  pub approval_link : String → String → Result String
  pub sha256_stream : List (List ℕ) → String
  pub syntax_error : String → Option Error
  pub shell : Shell
  pub fingerprint : SudoRequestSpec → String → String
  pub is_dns_label : String → Bool
  pub is_dns_subdomain : String → Bool

abbrev pub controller_namespace : Controller → String
controller_namespace c = configured_controller_namespace c.namespace
