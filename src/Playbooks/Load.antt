-- ===== src/Playbooks/Load.antt =====
-- playbooks.go: LoadPlaybookConfig. A file that is read decodes as strict YAML or not; the two tests are
-- the DNS-1123 checks of k8s.io/apimachinery, true where they find no problem.
use sudo_service.Prelude.{
  ℕ, suc, String, List, [], ◌∷◌, Bool, ◌&&◌, ◌||◌, not, is_cons, is_empty, byte_len, ltb,
  if◌then◌else◌, decimal, trim_suffix_of,
}
use sudo_service.Types.{errorf, wrapf, Result, ok, err, ◌>>◌}
use sudo_service.Playbooks.{TerminalJobCleanupRule, PlaybookConfig}

unfoldable pub check_cron_jobs : (String → Bool) → List String → Result (Unit {0})
check_cron_jobs is_subdomain [] = ok tt
check_cron_jobs is_subdomain (name ∷ names) =
    let rest = check_cron_jobs is_subdomain names in
    if not (is_subdomain name)
    then err (errorf "CronJob name %q is invalid: %s" (name ∷ []))
    else rest

-- 45 is the number of the dash.
unfoldable pub check_prefixes : (String → Bool) → List String → Result (Unit {0})
check_prefixes is_subdomain [] = ok tt
check_prefixes is_subdomain (prefix ∷ prefixes) =
    let rest = check_prefixes is_subdomain prefixes in
    if is_empty prefix || ltb 63 (byte_len prefix)
    then err (errorf "standalone name prefix %q must contain 1-63 characters" (prefix ∷ []))
    else if not (is_subdomain (trim_suffix_of 45 prefix))
    then err (errorf "standalone name prefix %q is invalid: %s" (prefix ∷ []))
    else rest

unfoldable pub validate_terminal_job_cleanup_rule :
    (String → Bool) → (String → Bool) → TerminalJobCleanupRule → Result (Unit {0})
unfolding check_cron_jobs check_prefixes
validate_terminal_job_cleanup_rule is_label is_subdomain rule =
    if is_empty rule.requester
    then err (errorf "requester is required" [])
    else if not (is_label rule.namespace)
    then err (errorf "namespace %q is invalid: %s" (rule.namespace ∷ []))
    else if not (is_cons rule.cron_jobs) && not (is_cons rule.standalone_name_prefixes)
    then err (errorf "at least one cronJobs or standaloneNamePrefixes entry is required" [])
    else check_cron_jobs is_subdomain rule.cron_jobs
      >> check_prefixes is_subdomain rule.standalone_name_prefixes

abbrev pub at_index : ℕ → Result (Unit {0}) → Result (Unit {0})
at_index i (Result.err e) = err (wrapf "terminalJobCleanup[%d]: %w" (decimal i ∷ []) e)
at_index i (Result.ok u) = ok u

-- The loop over the rules, from the index `i`.
unfoldable pub validate_rules :
    (String → Bool) → (String → Bool) → ℕ → List TerminalJobCleanupRule → Result (Unit {0})
unfolding validate_terminal_job_cleanup_rule
validate_rules is_label is_subdomain i [] = ok tt
validate_rules is_label is_subdomain i (rule ∷ rules) =
    at_index i (validate_terminal_job_cleanup_rule is_label is_subdomain rule)
    >> validate_rules is_label is_subdomain (suc i) rules

unfoldable pub load_playbook_config :
    (String → Bool)
    → (String → Bool)
    → (String → Result (Result PlaybookConfig))
    → String
    → Result PlaybookConfig
unfolding validate_rules
load_playbook_config is_label is_subdomain read path =
    if is_empty path then ok (record { terminal_job_cleanup = [] }) else elim (read path) [
      | Result.err e ↦ err (wrapf "read playbook config %s: %w" (path ∷ []) e)
      | Result.ok (Result.err e) ↦ err (wrapf "unmarshal playbook config %s: %w" (path ∷ []) e)
      | Result.ok (Result.ok config) ↦
          validate_rules is_label is_subdomain 0 config.terminal_job_cleanup >> ok config
    ]
