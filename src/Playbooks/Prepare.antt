-- ===== src/Playbooks/Prepare.antt =====
-- playbooks.go: when the controller approves a playbook by itself. `lookup_job` is the answer of
-- the uncached read of the target Job.
use sudo_service.Prelude.{
  String, List, [], ◌∷◌, Option, none, some, Bool, true, false, ◌&&◌, ◌||◌, not, any, contains,
  has_prefix, is_cons, ◌===◌, if◌then◌else◌, text_append,
}
use sudo_service.Types.{
  Playbook, SudoRequest, Result, ok, err, ◌>>=◌, api, is_not_found, Reply, found, refused,
}
use sudo_service.Cluster.{Job, OwnerReference, job_terminal}
use sudo_service.Controller.{Controller}
use sudo_service.Playbooks.{TerminalJobCleanupRule, PlaybookConfig, PreparedPlaybook}
use sudo_service.Playbooks.Params.{cleanup_parameters}

abbrev pub is_controller : OwnerReference → Bool
is_controller o = elim o.controller [ none ↦ false | some b ↦ b ]

-- The first owner that is a controller decides; `none` where no owner is one.
unfoldable pub controller_owner : List OwnerReference → Option OwnerReference
controller_owner [] = none
controller_owner (o ∷ os) = if is_controller o then some o else controller_owner os

unfoldable pub matches_by_owner : Job → TerminalJobCleanupRule → Option OwnerReference → Bool
matches_by_owner job rule (some owner) =
    owner.api_version === "batch/v1"
    && owner.kind === "CronJob"
    && contains rule.cron_jobs owner.name
matches_by_owner job rule none =
    if is_cons job.owner_references
    then false
    else any (has_prefix job.name) rule.standalone_name_prefixes

unfoldable pub matches_terminal_job_rule : Job → TerminalJobCleanupRule → Bool
matches_terminal_job_rule job rule =
    matches_by_owner job rule (controller_owner job.owner_references)

unfoldable pub matching_rules :
    String → String → List TerminalJobCleanupRule → List TerminalJobCleanupRule
matching_rules requester namespace [] = []
matching_rules requester namespace (rule ∷ rules) =
    let rest = matching_rules requester namespace rules in
    if rule.requester === requester && rule.namespace === namespace then rule ∷ rest else rest

-- The name of a missing Job fits a rule.
unfoldable pub name_fits : String → TerminalJobCleanupRule → Bool
name_fits name rule =
    any (λ cron_job. has_prefix name (text_append cron_job "-")) rule.cron_jobs
    || any (has_prefix name) rule.standalone_name_prefixes

unfoldable pub absent : PreparedPlaybook
absent = record { target_uid = ""; target_absent = true }

-- The answers: approve with the pinned target, or fall back to a human for a reason.
abbrev pub Preparation : Type 0
Preparation = Result (Option PreparedPlaybook × String)

unfoldable pub prepare_target : List TerminalJobCleanupRule → String → Reply Job → Preparation
unfolding absent
prepare_target matching name (refused e) =
    if is_not_found e
    then if any (name_fits name) matching
      then ok (some absent, "")
      else ok (none, "missing Job name is outside the allowlisted families")
    else err (api e)
prepare_target matching name (found job) =
    if not (job_terminal job)
    then ok (none, "target Job is not terminal")
    else if any (matches_terminal_job_rule job) matching
    then ok (some (record { target_uid = job.uid; target_absent = false }), "")
    else ok (none, "target Job ownership/name is outside the allowlist")

unfoldable pub prepare_config :
    Option PlaybookConfig → String → String → String → Reply Job → Preparation
unfolding prepare_target
prepare_config none requester namespace name lookup_job =
    ok (none, "playbook auto-approval is not configured")
prepare_config (some config) requester namespace name lookup_job =
    let matching = matching_rules requester namespace config.terminal_job_cleanup in
    if not (is_cons matching)
    then ok (none, "requester and namespace are not allowlisted for this playbook")
    else prepare_target matching name lookup_job

unfoldable pub prepare_playbook : Controller → String → Option Playbook → Reply Job → Preparation
unfolding prepare_config
prepare_playbook c requester none lookup_job = ok (none, "")
prepare_playbook c requester (some p) lookup_job = do
  (namespace, name) ← cleanup_parameters c (some p)
  prepare_config c.playbooks requester namespace name lookup_job

abbrev pub prepare_auto_approved_playbook : Controller → SudoRequest → Reply Job → Preparation
prepare_auto_approved_playbook c sr lookup_job =
    prepare_playbook c sr.spec.requester sr.spec.playbook lookup_job
