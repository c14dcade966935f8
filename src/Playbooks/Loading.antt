-- ===== src/Playbooks/Loading.antt =====
-- playbooks.go: what a loaded configuration lets the controller approve by itself.
use sudo_service.Prelude.{
  ℕ, suc, String, List, [], ◌∷◌, some, Bool, true, false, ◌&&◌, ◌||◌, not, ◌≡◌, ◌≤◌, ◌⊎◌, inl, inr,
  refl, ap, subst, arith, All, Any, is_cons, is_empty, byte_len, ltb, if◌then◌else◌, trim_suffix_of,
}
use sudo_service.Types.{
  wrapf, SudoRequest, Result, ok, err, is_ok, Reply, ◌>>◌, guard_iff, seq_iff, not_iff,
}
use sudo_service.Cluster.{Job}
use sudo_service.Controller.{Controller}
use sudo_service.Playbooks.{TerminalJobCleanupRule, PlaybookConfig, PreparedPlaybook}
use sudo_service.Playbooks.Params.{cleanup_parameters}
use sudo_service.Playbooks.Prepare.{prepare_auto_approved_playbook}
use sudo_service.Playbooks.Load.{
  check_cron_jobs, check_prefixes, validate_terminal_job_cleanup_rule, at_index, validate_rules,
  load_playbook_config,
}
use sudo_service.Playbooks.Safety.{
  target_of, Names, Target, Allowlisted, prepare_auto_approved_playbook-Allowlisted,
}

module _ (is_label is_subdomain : String → Bool) where
  -- A prefix is not empty, and bounded.
  abbrev pub BoundedPrefix : String → Type 0
  BoundedPrefix prefix =
      (is_empty prefix ≡ false)
      × (byte_len prefix ≤ 63)
      × (is_subdomain (trim_suffix_of 45 prefix) ≡ true)

  -- A rule is for one requester and one namespace, and names the families of Jobs.
  abbrev pub Narrow : TerminalJobCleanupRule → Type 0
  Narrow rule =
      (is_empty rule.requester ≡ false)
      × (is_label rule.namespace ≡ true)
      × ((is_cons rule.cron_jobs || is_cons rule.standalone_name_prefixes) ≡ true)
      × All (λ name. is_subdomain name ≡ true) rule.cron_jobs
      × All BoundedPrefix rule.standalone_name_prefixes

  check_cron_jobs-All :
      (names : List String)
      → check_cron_jobs is_subdomain names ≡ ok tt
      → All (λ name. is_subdomain name ≡ true) names
  unfolding check_cron_jobs
  check_cron_jobs-All [] h = tt
  check_cron_jobs-All (name ∷ names) h =
      let a = (guard_iff (not (is_subdomain name)) _ _).0 h in
      ((not_iff (is_subdomain name)).0 a.0, check_cron_jobs-All names a.1)

  check_prefixes-All :
      (prefixes : List String)
      → check_prefixes is_subdomain prefixes ≡ ok tt
      → All BoundedPrefix prefixes
  unfolding check_prefixes
  check_prefixes-All [] h = tt
  check_prefixes-All (prefix ∷ prefixes) h =
      let a = (guard_iff (is_empty prefix || ltb 63 (byte_len prefix)) _ _).0 h in
      let b = (guard_iff (not (is_subdomain (trim_suffix_of 45 prefix))) _ _).0 a.1 in
      (
        (
          ground (arith, a.0),
          ground (arith, a.0),
          (not_iff (is_subdomain (trim_suffix_of 45 prefix))).0 b.0,
        ),
        check_prefixes-All prefixes b.1,
      )

  validate_rule-Narrow :
      (rule : TerminalJobCleanupRule)
      → validate_terminal_job_cleanup_rule is_label is_subdomain rule ≡ ok tt
      → Narrow rule
  unfolding validate_terminal_job_cleanup_rule
  validate_rule-Narrow rule h =
      let a = (guard_iff (is_empty rule.requester) _ _).0 h in
      let b = (guard_iff (not (is_label rule.namespace)) _ _).0 a.1 in
      let c =
        (guard_iff (not (is_cons rule.cron_jobs) && not (is_cons rule.standalone_name_prefixes)) _
            _).0
          b.1 in
      let d =
        (seq_iff (check_cron_jobs is_subdomain rule.cron_jobs)
            (check_prefixes is_subdomain rule.standalone_name_prefixes)).0
          c.1 in
      (
        a.0,
        (not_iff (is_label rule.namespace)).0 b.0,
        ground (arith, c.0),
        check_cron_jobs-All rule.cron_jobs d.0,
        check_prefixes-All rule.standalone_name_prefixes d.1,
      )

  at_index-ok : (i : ℕ) (r : Result (Unit {0})) → at_index i r ≡ ok tt → r ≡ ok tt
  at_index-ok i (ok tt) h = refl
  at_index-ok i (err e) h = ground (arith, ap is_ok h)

  validate_rules-Narrow :
      (i : ℕ) (rules : List TerminalJobCleanupRule)
      → validate_rules is_label is_subdomain i rules ≡ ok tt
      → All Narrow rules
  unfolding validate_rules
  validate_rules-Narrow i [] h = tt
  validate_rules-Narrow i (rule ∷ rules) h =
      let a =
        (seq_iff (at_index i (validate_terminal_job_cleanup_rule is_label is_subdomain rule))
            (validate_rules is_label is_subdomain (suc i) rules)).0
          h in
      (validate_rule-Narrow rule (at_index-ok i _ a.0), validate_rules-Narrow (suc i) rules a.1)

  -- No rules, or those of the file that was read.
  abbrev pub Loaded : (String → Result (Result PlaybookConfig)) → String → PlaybookConfig → Type 0
  Loaded read path config =
      ((config.terminal_job_cleanup ≡ []) ⊎ (read path ≡ ok (ok config)))
      × All Narrow config.terminal_job_cleanup

  -- What the file gives.
  file_result : String → Result (Result PlaybookConfig) → Result PlaybookConfig
  file_result path r = elim r [
    | Result.err e ↦ err (wrapf "read playbook config %s: %w" (path ∷ []) e)
    | Result.ok (Result.err e) ↦ err (wrapf "unmarshal playbook config %s: %w" (path ∷ []) e)
    | Result.ok (Result.ok config) ↦
        validate_rules is_label is_subdomain 0 config.terminal_job_cleanup >> ok config
  ]

  file_result-Narrow :
      (path : String) (r : Result (Result PlaybookConfig)) (config : PlaybookConfig)
      → file_result path r ≡ ok config
      → (r ≡ ok (ok config)) × All Narrow config.terminal_job_cleanup
  unfolding file_result
  file_result-Narrow path (err e) config h = ground (arith, ap is_ok h)
  file_result-Narrow path (ok (err e)) config h = ground (arith, ap is_ok h)
  file_result-Narrow path (ok (ok read)) config h =
      let a =
        (seq_iff (validate_rules is_label is_subdomain 0 read.terminal_job_cleanup) (ok read)).0
          h in
      let same : read ≡ config = ground (arith, a.1) in
      (
        ap (λ c. ok (ok c)) same,
        subst (λ c. All Narrow c.terminal_job_cleanup) same
            (validate_rules-Narrow 0 read.terminal_job_cleanup a.0),
      )

  load_playbook_config-Loaded :
      (read : String → Result (Result PlaybookConfig)) (path : String) (config : PlaybookConfig)
      → load_playbook_config is_label is_subdomain read path ≡ ok config
      → Loaded read path config
  unfolding load_playbook_config file_result
  load_playbook_config-Loaded read path config h = by_path (is_empty path) refl h
    where
      by_path :
          (b : Bool)
          → is_empty path ≡ b
          → (if b then ok (record { terminal_job_cleanup = [] }) else file_result path (read path))
            ≡ ok config
          → Loaded read path config
      by_path true e k =
          let same : ◌≡◌ {A = PlaybookConfig} (record { terminal_job_cleanup = [] }) config =
            ground (arith, k) in
          (inl (ground (arith, same)), subst (λ c. All Narrow c.terminal_job_cleanup) same tt)
      by_path false e k = let a = file_result-Narrow path (read path) config k in (inr a.0, a.1)

-- The first rule that allows it is one that was checked.
Any-All :
    {A : Type 0} (P Q : A → Type 0) (xs : List A) → Any P xs → All Q xs → Any (λ x. P x × Q x) xs
Any-All P Q [] h all = absurd h
Any-All P Q (x ∷ xs) (inl p) all = inl (p, all.0)
Any-All P Q (x ∷ xs) (inr h) all = inr (Any-All P Q xs h all.1)

-- A narrow rule of the file allows the requester to clean up this target.
abbrev pub AllowedByFile :
    Controller
    → (String → Result (Result PlaybookConfig))
    → String
    → PlaybookConfig
    → SudoRequest
    → Reply Job
    → PreparedPlaybook
    → Type 0
AllowedByFile c read path config sr l p =
    (namespace : String) × (name : String) × (read path ≡ ok (ok config))
    × (cleanup_parameters c sr.spec.playbook ≡ ok (namespace, name))
    × Any
        (λ rule.
          (Names sr.spec.requester namespace rule × Target name l p rule)
          × Narrow c.is_dns_label c.is_dns_subdomain rule)
        config.terminal_job_cleanup

-- x
pub load_playbook_config-AllowedByFile :
    (c : Controller) (read : String → Result (Result PlaybookConfig)) (path : String)
    (config : PlaybookConfig) (sr : SudoRequest) (l : Reply Job) (p : PreparedPlaybook)
    → load_playbook_config c.is_dns_label c.is_dns_subdomain read path ≡ ok config
    → c.playbooks ≡ some config
    → target_of (prepare_auto_approved_playbook c sr l) ≡ some p
    → AllowedByFile c read path config sr l p
load_playbook_config-AllowedByFile c read path config sr l p loaded used h =
    by_load (load_playbook_config-Loaded c.is_dns_label c.is_dns_subdomain read path config loaded)
  where
    a : Allowlisted c sr l p
    a = prepare_auto_approved_playbook-Allowlisted c sr l p h

    -- The rule is one of the configuration that is in use.
    covers :
        Any
          (λ rule. Names sr.spec.requester a.1 rule × Target a.2 l p rule)
          config.terminal_job_cleanup
    covers =
        subst
          (λ (k : PlaybookConfig).
            Any (λ rule. Names sr.spec.requester a.1 rule × Target a.2 l p rule)
              k.terminal_job_cleanup)
          (ground (arith, a.3, used)) a.5

    by_load :
        Loaded c.is_dns_label c.is_dns_subdomain read path config
        → AllowedByFile c read path config sr l p
    by_load (inl no_rules, narrow) = absurd (
        subst (Any (λ rule. Names sr.spec.requester a.1 rule × Target a.2 l p rule)) no_rules
          covers)
    by_load (inr at_path, narrow) = (a.1, a.2, at_path, a.4, Any-All _ _ _ covers narrow)
