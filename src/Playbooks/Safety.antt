-- ===== src/Playbooks/Safety.antt =====
-- When prepareAutoApprovedPlaybook lets the controller approve by itself.
use sudo_service.Prelude.{
  String, List, [], ◌∷◌, Option, none, some, Bool, true, false, not, ◌&&◌, ◌||◌, ◌≡◌, refl, ap, sym,
  arith, any, Any, inl, inr, ◌⊎◌, is_cons, ◌===◌, if◌then◌else◌,
}
use sudo_service.Types.{
  Playbook, SudoRequest, Error, Result, ok, err, ◌>>=◌, is_not_found, Reply, found, refused,
}
use sudo_service.Cluster.{Job, job_terminal}
use sudo_service.Controller.{Controller}
use sudo_service.Playbooks.{TerminalJobCleanupRule, PlaybookConfig, PreparedPlaybook}
use sudo_service.Playbooks.Params.{cleanup_parameters}
use sudo_service.Playbooks.Prepare.{
  Preparation, absent, matching_rules, name_fits, matches_terminal_job_rule, prepare_target,
  prepare_config, prepare_playbook, prepare_auto_approved_playbook,
}

-- The target that is approved, if one is.
abbrev pub target_of : Preparation → Option PreparedPlaybook
target_of (ok a) = a.0
target_of (err e) = none

-- What the rule says of the Job, or of the name of a Job that is gone.
abbrev pub Target : String → Reply Job → PreparedPlaybook → TerminalJobCleanupRule → Type 0
Target name (found job) p rule =
    (p ≡ record { target_uid = job.uid; target_absent = false })
    × (job_terminal job ≡ true)
    × (matches_terminal_job_rule job rule ≡ true)
Target name (refused e) p rule =
    (p ≡ absent) × (is_not_found e ≡ true) × (name_fits name rule ≡ true)

abbrev pub Names : String → String → TerminalJobCleanupRule → Type 0
Names requester namespace rule =
    ((rule.requester === requester) ≡ true) × ((rule.namespace === namespace) ≡ true)

or_split : (a b : Bool) → (a || b) ≡ true → (a ≡ true) ⊎ (b ≡ true)
or_split true b h = inl refl
or_split false b h = inr h

module _ (test : TerminalJobCleanupRule → Bool) (requester namespace : String) where
  one_rule :
      (rule : TerminalJobCleanupRule) (a b : Bool) (rest : List TerminalJobCleanupRule)
      → (rule.requester === requester) ≡ a
      → (rule.namespace === namespace) ≡ b
      → any test (if a && b then rule ∷ rest else rest) ≡ true
      → (Names requester namespace rule × (test rule ≡ true)) ⊎ (any test rest ≡ true)
  unfolding any
  one_rule rule true true rest e f h = by_head (or_split (test rule) (any test rest) h)
    where
      by_head :
          (test rule ≡ true) ⊎ (any test rest ≡ true)
          → (Names requester namespace rule × (test rule ≡ true)) ⊎ (any test rest ≡ true)
      by_head (inl t) = inl ((e, f), t)
      by_head (inr t) = inr t
  one_rule rule true false rest e f h = inr h
  one_rule rule false b rest e f h = inr h

  any_matching :
      (rules : List TerminalJobCleanupRule)
      → any test (matching_rules requester namespace rules) ≡ true
      → Any (λ rule. Names requester namespace rule × (test rule ≡ true)) rules
  unfolding matching_rules any
  any_matching [] h = ground (arith, h)
  any_matching (rule ∷ rules) h =
      by_rule
        (one_rule rule (rule.requester === requester) (rule.namespace === namespace)
          (matching_rules requester namespace rules) refl refl h)
        (any_matching rules)
    where
      by_rule :
          (Names requester namespace rule × (test rule ≡ true))
            ⊎ (any test (matching_rules requester namespace rules) ≡ true)
          → (any test (matching_rules requester namespace rules) ≡ true
              → Any (λ r. Names requester namespace r × (test r ≡ true)) rules)
          → Any (λ r. Names requester namespace r × (test r ≡ true)) (rule ∷ rules)
      by_rule (inl x) later = inl x
      by_rule (inr x) later = inr (later x)

Any-map :
    (P Q : TerminalJobCleanupRule → Type 0)
    → ((r : TerminalJobCleanupRule) → P r → Q r)
    → (rules : List TerminalJobCleanupRule) → Any P rules
    → Any Q rules
Any-map P Q f [] h = absurd h
Any-map P Q f (r ∷ rules) (inl p) = inl (f r p)
Any-map P Q f (r ∷ rules) (inr p) = inr (Any-map P Q f rules p)

or_this : PreparedPlaybook → Option PreparedPlaybook → PreparedPlaybook
or_this p none = p
or_this p (some q) = q

is_some : Option PreparedPlaybook → Bool
is_some none = false
is_some (some p) = true

-- The tests of the two answers to the read, apart from what they test.
if_missing :
    (a b : Bool) (x p : PreparedPlaybook) (why : String) (e : Error)
    → target_of (if a then if b then ok (some x, "") else ok (none, why) else err e) ≡ some p
    → (a ≡ true) × (b ≡ true) × (p ≡ x)
unfolding is_some or_this
if_missing true true x p why e h = (refl, refl, sym (ap (or_this x) h))
if_missing true false x p why e h = ground (arith, ap is_some h)
if_missing false b x p why e h = ground (arith, ap is_some h)

if_found :
    (a b : Bool) (x p : PreparedPlaybook) (why why' : String)
    → target_of (if not a then ok (none, why) else if b then ok (some x, "") else ok (none, why'))
      ≡ some p
    → (a ≡ true) × (b ≡ true) × (p ≡ x)
unfolding is_some or_this
if_found true true x p why why' h = (refl, refl, sym (ap (or_this x) h))
if_found true false x p why why' h = ground (arith, ap is_some h)
if_found false b x p why why' h = ground (arith, ap is_some h)

prepare_target-Target :
    (requester namespace name : String) (l : Reply Job) (p : PreparedPlaybook)
    (rules : List TerminalJobCleanupRule)
    → target_of (prepare_target (matching_rules requester namespace rules) name l) ≡ some p
    → Any (λ rule. Names requester namespace rule × Target name l p rule) rules
unfolding prepare_target
prepare_target-Target requester namespace name (refused e) p rules h =
    let t =
      if_missing (is_not_found e) (any (name_fits name) (matching_rules requester namespace rules))
        absent p _ _ h in
    Any-map _ _ (λ r m. (m.0, (t.2, t.0, m.1))) rules
      (any_matching (name_fits name) requester namespace rules t.1)
prepare_target-Target requester namespace name (found job) p rules h =
    let t =
      if_found (job_terminal job)
        (any (matches_terminal_job_rule job) (matching_rules requester namespace rules))
        (record { target_uid = job.uid; target_absent = false }) p _ _ h in
    Any-map _ _ (λ r m. (m.0, (t.2, t.0, m.1))) rules
      (any_matching (matches_terminal_job_rule job) requester namespace rules t.1)

-- A rule of the configuration allows the requester to clean up this target.
abbrev pub Allowlisted : Controller → SudoRequest → Reply Job → PreparedPlaybook → Type 0
Allowlisted c sr l p =
    (config : PlaybookConfig) × (namespace : String) × (name : String) × (c.playbooks ≡ some config)
    × (cleanup_parameters c sr.spec.playbook ≡ ok (namespace, name))
    × Any (λ rule. Names sr.spec.requester namespace rule × Target name l p rule)
        config.terminal_job_cleanup

prepare_config-Target :
    (config : PlaybookConfig) (requester namespace name : String) (l : Reply Job)
    (p : PreparedPlaybook)
    → target_of (prepare_config (some config) requester namespace name l) ≡ some p
    → Any
        (λ rule. Names requester namespace rule × Target name l p rule)
        config.terminal_job_cleanup
unfolding prepare_config
prepare_config-Target config requester namespace name l p h =
    prepare_target-Target requester namespace name l p config.terminal_job_cleanup
      (by_test (is_cons (matching_rules requester namespace config.terminal_job_cleanup)) h)
  where
    by_test :
        (b : Bool)
        → target_of (
            if not b
            then ok (none, "requester and namespace are not allowlisted for this playbook")
            else prepare_target
                (matching_rules requester namespace config.terminal_job_cleanup)
                name
                l)
          ≡ some p
        → target_of
            (prepare_target (matching_rules requester namespace config.terminal_job_cleanup) name l)
          ≡ some p
    by_test true h = h
    by_test false h = ground (arith, ap is_some h)

by_config :
    (c : Controller) (sr : SudoRequest) (l : Reply Job) (p : PreparedPlaybook)
    (config : Option PlaybookConfig) (namespace name : String)
    → c.playbooks ≡ config
    → cleanup_parameters c sr.spec.playbook ≡ ok (namespace, name)
    → target_of (prepare_config config sr.spec.requester namespace name l) ≡ some p
    → Allowlisted c sr l p
unfolding prepare_config
by_config c sr l p none namespace name e f h = ground (arith, ap is_some h)
by_config c sr l p (some config) namespace name e f h = (
  config,
  namespace,
  name,
  e,
  f,
  prepare_config-Target config sr.spec.requester namespace name l p h,
)

by_parameters :
    (c : Controller) (sr : SudoRequest) (l : Reply Job) (p : PreparedPlaybook)
    (parameters : Result (String × String))
    → cleanup_parameters c sr.spec.playbook ≡ parameters
    → target_of (parameters >>= λ n. prepare_config c.playbooks sr.spec.requester n.0 n.1 l)
      ≡ some p
    → Allowlisted c sr l p
by_parameters c sr l p (ok n) f h = by_config c sr l p c.playbooks n.0 n.1 refl f h
by_parameters c sr l p (err e) f h = ground (arith, ap is_some h)

by_playbook :
    (c : Controller) (sr : SudoRequest) (l : Reply Job) (p : PreparedPlaybook)
    (playbook : Option Playbook)
    → sr.spec.playbook ≡ playbook
    → target_of (prepare_playbook c sr.spec.requester playbook l) ≡ some p
    → Allowlisted c sr l p
unfolding prepare_playbook
by_playbook c sr l p none e h = ground (arith, ap is_some h)
by_playbook c sr l p (some b) e h =
    by_parameters c sr l p (cleanup_parameters c (some b)) (ap (cleanup_parameters c) e) h

-- If prepareAutoApprovedPlaybook approves a target, then playbooks are configured, the playbook's
-- parameters are valid, and some rule names the request's requester and the parameter's namespace
-- and covers the target: the Job is terminal and fits the rule by owner or name, and its uid is the
-- one pinned, or no such Job exists, its name fits the rule, and its absence is recorded.
pub prepare_auto_approved_playbook-Allowlisted :
    (c : Controller) (sr : SudoRequest) (l : Reply Job) (p : PreparedPlaybook)
    → target_of (prepare_auto_approved_playbook c sr l) ≡ some p
    → Allowlisted c sr l p
prepare_auto_approved_playbook-Allowlisted c sr l p h = by_playbook c sr l p sr.spec.playbook refl h
