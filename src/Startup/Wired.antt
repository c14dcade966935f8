-- ===== src/Startup/Wired.antt =====
-- main.go: what the controller that main starts approves by itself, by the files that its environment
-- names.
use sudo_service.Prelude.{
  String, List, [], ◌∷◌, some, Bool, true, false, ◌≡◌, refl, sym, ap, subst, ◌⊎◌, inl, inr,
  is_empty, ◌||◌, not, if◌then◌else◌, arith, Any,
}
use sudo_service.Types.{
  SudoRequest, Error, Result, ok, err, is_ok, api, wrapf, bind-ok, ok-inj, guard_iff, Reply, found,
  refused, is_not_found,
}
use sudo_service.Cluster.{Job}
use sudo_service.AutoApprove.{AutoApproveRule, get_auto_approve_parsed_command}
use sudo_service.AutoApprove.Rules.{Allows, get_auto_approve_parsed_command_iff}
use sudo_service.Playbooks.{PlaybookConfig, PreparedPlaybook}
use sudo_service.Playbooks.Load.{load_playbook_config}
use sudo_service.Playbooks.Loading.{AllowedByFile, load_playbook_config-AllowedByFile}
use sudo_service.Playbooks.Prepare.{prepare_auto_approved_playbook}
use sudo_service.Playbooks.Safety.{target_of}
use sudo_service.Http.Message.{ApiServer}
use sudo_service.Startup.{
  Config, Files, config_of, load_config, load_auto_approve_config, serve_with, start_up,
}

module _ (base : ApiServer) (files : Files) (env : String → String) where
  -- The server is the one of a configuration and files that were accepted.
  abbrev Wires : ApiServer → Type 0
  Wires server =
      (cfg : Config) × (rules : List AutoApproveRule) × (playbooks : PlaybookConfig) × (load_config
          base.controller.is_dns_label env
        ≡ ok cfg)
      × (load_auto_approve_config files.rules [] cfg.auto_approve_config_path ≡ ok rules)
      × (load_playbook_config base.controller.is_dns_label base.controller.is_dns_subdomain
            files.playbooks cfg.playbook_config_path
          ≡ ok playbooks)
      × (serve_with base cfg rules playbooks ≡ server)

  start_up-Wires : (server : ApiServer) → start_up base files env ≡ ok server → Wires server
  unfolding start_up
  start_up-Wires server h =
      let a = bind-ok (load_config base.controller.is_dns_label env) _ server h in
      let b =
        bind-ok (load_auto_approve_config files.rules [] (a.0).auto_approve_config_path) _ server
          a.2 in
      let c =
        bind-ok
          (load_playbook_config base.controller.is_dns_label base.controller.is_dns_subdomain
            files.playbooks (a.0).playbook_config_path)
          _ server b.2 in
      (a.0, b.0, c.0, a.1, b.1, c.1, ok-inj _ server c.2)

  load_config-env :
      (cfg : Config) → load_config base.controller.is_dns_label env ≡ ok cfg → cfg ≡ config_of env
  unfolding load_config
  load_config-env cfg h =
      let k = config_of env in
      let a = (guard_iff (is_empty k.pushover_token || is_empty k.pushover_user_key) _ _).0 h in
      let b = (guard_iff (not (base.controller.is_dns_label k.controller_namespace)) _ _).0 a.1 in
      sym (ok-inj k cfg b.1)

  load_rules-file :
      (path : String) (rules : List AutoApproveRule)
      → load_auto_approve_config files.rules [] path ≡ ok rules
      → (rules ≡ []) ⊎ (files.rules path ≡ found (ok rules))
  unfolding load_auto_approve_config
  load_rules-file path rules h = by_path (is_empty path) h
    where
      missing :
          (b : Bool) (e : Error)
          → ◌≡◌ {A = Result (List AutoApproveRule)} (if b then ok [] else err e) (ok rules)
          → rules ≡ []
      missing true e k = sym (ok-inj [] rules k)
      missing false e k = ground (arith, ap is_ok k)

      by_reply :
          (reply : Reply (Result (List AutoApproveRule)))
          → (elim reply [
            | Reply.refused e ↦
                if is_not_found e
                then ok []
                else err (wrapf "read auto-approve config %s: %w" (path ∷ []) (api e))
            | Reply.found (Result.err e) ↦
                err (wrapf "unmarshal auto-approve config %s: %w" (path ∷ []) e)
            | Reply.found (Result.ok loaded) ↦ ok loaded
          ])
            ≡ ok rules
          → (rules ≡ []) ⊎ (reply ≡ found (ok rules))
      by_reply (refused e) k = inl (missing (is_not_found e) _ k)
      by_reply (found (err e)) k = ground (arith, ap is_ok k)
      by_reply (found (ok loaded)) k = inr (ap (λ r. found (ok r)) (ok-inj loaded rules k))

      by_path :
          (b : Bool)
          → (if b then ok [] else elim (files.rules path) [
            | Reply.refused e ↦
                if is_not_found e
                then ok []
                else err (wrapf "read auto-approve config %s: %w" (path ∷ []) (api e))
            | Reply.found (Result.err e) ↦
                err (wrapf "unmarshal auto-approve config %s: %w" (path ∷ []) e)
            | Reply.found (Result.ok loaded) ↦ ok loaded
          ])
            ≡ ok rules
          → (rules ≡ []) ⊎ (files.rules path ≡ found (ok rules))
      by_path true k = inl (sym (ok-inj [] rules k))
      by_path false k = by_reply (files.rules path) k

-- If main starts its server, and its controller approves the target of a playbook by itself, then
-- the file that PLAYBOOK_CONFIG names was read and decoded, and one of its rules names the
-- request's requester and the parameter's namespace and covers the target; that rule has a
-- requester, a valid namespace, some family of Jobs, only valid CronJob names, and no prefix that
-- is empty or longer than 63 bytes.
pub start_up-AllowedByFile :
    (base : ApiServer) (files : Files) (env : String → String) (server : ApiServer)
    (sr : SudoRequest) (l : Reply Job) (p : PreparedPlaybook)
    → start_up base files env ≡ ok server
    → target_of (prepare_auto_approved_playbook server.controller sr l) ≡ some p
    → (config : PlaybookConfig) × AllowedByFile server.controller files.playbooks
        (env "PLAYBOOK_CONFIG")
        config
        sr
        l
        p
unfolding config_of serve_with
start_up-AllowedByFile base files env server sr l p started h =
    let w = start_up-Wires base files env server started in
    let path =
      ap (λ (k : Config). k.playbook_config_path) (load_config-env base files env w.0 w.3) in
    subst
      (λ (s : ApiServer).
        target_of (prepare_auto_approved_playbook s.controller sr l) ≡ some p
        → (config : PlaybookConfig) × AllowedByFile s.controller files.playbooks
            (env "PLAYBOOK_CONFIG") config sr l p)
      w.6
      (λ k. (
        w.2,
        load_playbook_config-AllowedByFile (serve_with base w.0 w.1 w.2).controller files.playbooks
            (env "PLAYBOOK_CONFIG") w.2 sr l p
            (subst
              (λ t.
                load_playbook_config base.controller.is_dns_label base.controller.is_dns_subdomain
                  files.playbooks t
                ≡ ok w.2)
              path w.5)
            refl k,
      ))
      h

-- A rule of the file allows the command's tokens under the image.
abbrev pub RuleOfFile :
    (String → Reply (Result (List AutoApproveRule))) → String → List String → String → Type 0
RuleOfFile read path argv image =
    (rules : List AutoApproveRule) × (read path ≡ found (ok rules)) × Any (Allows argv image) rules

-- If main starts its server, and its controller approves a command without a human, then the file
-- that AUTO_APPROVE_CONFIG names was read and decoded, and one of its rules allows the tokens under
-- the image; without such a file no command is approved.
pub start_up-RuleOfFile :
    (base : ApiServer) (files : Files) (env : String → String) (server : ApiServer)
    (command image : String) (argv : List String)
    → start_up base files env ≡ ok server
    → get_auto_approve_parsed_command server.controller.shlex_split server.controller.rules command
        image
      ≡ some argv
    → RuleOfFile files.rules (env "AUTO_APPROVE_CONFIG") argv image
unfolding config_of serve_with
start_up-RuleOfFile base files env server command image argv started h =
    let w = start_up-Wires base files env server started in
    let path =
      ap (λ (k : Config). k.auto_approve_config_path) (load_config-env base files env w.0 w.3) in
    let same : w.1 ≡ server.controller.rules = ap (λ (s : ApiServer). s.controller.rules) w.6 in
    let allowed : Any (Allows argv image) w.1 =
      subst (Any (Allows argv image)) (sym same)
        ((get_auto_approve_parsed_command_iff server.controller.shlex_split server.controller.rules
            command image argv).0
          h).2 in
    by_file (load_rules-file base files env w.0.auto_approve_config_path w.1 w.4) path allowed
  where
    by_file :
        {path : String} {rules : List AutoApproveRule}
        → (rules ≡ []) ⊎ (files.rules path ≡ found (ok rules))
        → path ≡ env "AUTO_APPROVE_CONFIG"
        → Any (Allows argv image) rules
        → RuleOfFile files.rules (env "AUTO_APPROVE_CONFIG") argv image
    by_file (inl no_rules) at allowed = absurd (subst (Any (Allows argv image)) no_rules allowed)
    by_file {rules = rules} (inr read) at allowed =
        (rules, subst (λ p. files.rules p ≡ found (ok rules)) at read, allowed)
