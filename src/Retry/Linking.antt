-- ===== src/Retry/Linking.antt =====
-- retry.go: what retryRequest writes to the source, and what it needs for the creation.
use sudo_service.Prelude.{
  String, List, [], ◌∷◌, Option, none, some, Bool, true, not, ◌≡◌, refl, arith, is_empty, ◌===◌,
  if◌then◌else◌,
}
use sudo_service.Types.{
  SudoRequest, is_terminal_phase, pending_duplicate, Error, api, ok, Reply, is_conflict,
  is_already_exists,
}
use sudo_service.Cluster.{WriteReply, write_error}
use sudo_service.Effects.{Effect, write_status, create_request, M, return, fail, lift, on_option}
use sudo_service.Controller.{Controller, controller_namespace}
use sudo_service.Profiles.Preflight.{preflight_command}
use sudo_service.Profiles.{resolve_and_preflight}
use sudo_service.Validation.{validate_spec_extras}
use sudo_service.Playbooks.Params.{validate_playbook_spec}
use sudo_service.Reconciler.Update.{Attempt}
use sudo_service.Reconciler.New.{error_of}
use sudo_service.Retry.Fresh.{IsFresh, find_pending_duplicate-IsFresh, find_pending_duplicate-Each}
use sudo_service.Retry.Successor.{
  RetryReplies, requester_retryable, set_superseded, link_found, ensure_superseded_link,
  validate_retry_successor, adopt_retry_successor, find_pending_duplicate, successor_of,
  retry_error, create_successor, submit_again,
}
use sudo_service.Lifecycle.Rules.{
  Each, Each->>=, Each->>=_eq, Each-if, Each-if_eq, Each-on_option, Each-on_reply,
}

abbrev pub OnLink : (SudoRequest → SudoRequest → Type 0) → (SudoRequest → Type 0) → Effect → Type 0
OnLink L C (write_status base new reply) = L base new
OnLink L C (create_request s reply) = C s
OnLink L C _ = Unit

-- The write sets the link of the source, which had none, and touches nothing else of its status.
abbrev pub Links : SudoRequest → SudoRequest → SudoRequest → Type 0
Links source base new =
    ((base.uid === source.uid) ≡ true)
    × (is_empty base.status.superseded_by_uid ≡ true)
    × (new ≡ set_superseded new.status.superseded_by_uid base)

-- The source may be submitted again and has no successor, and the new request passes the checks and
-- has no open duplicate.
abbrev pub Submits :
    Controller → Reply (List SudoRequest) → SudoRequest → String → Bool → SudoRequest → Type 0
Submits c listing source submitted_by admin s =
    ((if admin
        then is_terminal_phase source.status.phase
        else requester_retryable source.status.phase)
      ≡ true)
    × (is_empty source.status.superseded_by_uid ≡ true)
    × (s ≡ successor_of c source submitted_by)
    × IsFresh c listing s
    × (error_of (resolve_and_preflight (preflight_command c.shell) s) ≡ none)
    × (c.syntax_error s.spec.command ≡ none)
    × (validate_spec_extras s (controller_namespace c) ≡ ok tt)
    × (validate_playbook_spec c s ≡ ok tt)

module _ (c : Controller) (source : SudoRequest) (C : SudoRequest → Type 0) where
  abbrev P : Effect → Type 0
  P = OnLink (Links source) C

  link_found-Links :
      (uid : String) (current : SudoRequest) (reply : WriteReply) (again : M (Unit {0}))
      → Each P again
      → Each P (link_found source.name source.uid uid current reply again)
  unfolding link_found
  link_found-Links uid current reply again h =
      Each-if_eq P (not (current.uid === source.uid)) _ _ (λ _. tt)
        λ e. Each-if P (current.status.superseded_by_uid === uid) (return tt) _ tt (
          Each-if_eq P (not (is_empty current.status.superseded_by_uid)) _ _ (λ _. tt)
            λ d. (
              (ground (arith, e), ground (arith, d), refl),
              Each-on_option P (write_error reply) _ (return tt)
                  (λ x. Each-if P (is_conflict x) again (fail (api x)) h tt) tt,
            ))

  ensure_superseded_link-Links :
      (attempts : List Attempt) (uid : String)
      → Each P (ensure_superseded_link attempts source.name source.uid uid)
  unfolding ensure_superseded_link
  ensure_superseded_link-Links [] uid = tt
  ensure_superseded_link-Links (a ∷ rest) uid =
      let again = ensure_superseded_link-Links rest uid in
      Each-on_reply P a.latest _ _
        (λ current.
          link_found-Links uid current a.reply
            (ensure_superseded_link rest source.name source.uid uid) again)
        λ e.
          Each-if P (is_conflict e) (ensure_superseded_link rest source.name source.uid uid)
            (fail (api e)) again tt

  pub adopt_links :
      (link : List Attempt) (s : SudoRequest) → Each P (adopt_retry_successor c link source s)
  unfolding adopt_retry_successor
  adopt_links link s = Each->>= P (lift (validate_retry_successor c source s)) _ tt λ _.
      Each->>= P (ensure_superseded_link link source.name source.uid s.uid) _
        (ensure_superseded_link-Links link s.uid) λ _. tt

  create_links : (r : RetryReplies) (s : SudoRequest) → C s → Each P (create_successor c r source s)
  unfolding create_successor
  create_links r s h = (
    h,
    Each-on_option P (write_error r.create) _ _
        (λ e. Each-if P (not (is_already_exists e)) (fail (api e)) _ tt (
          Each-on_reply P r.winner (adopt_retry_successor c r.link source) _ (adopt_links r.link)
            λ g. tt))
        (Each->>= P (ensure_superseded_link r.link source.name source.uid r.created_uid) _
          (ensure_superseded_link-Links r.link r.created_uid) λ _. tt),
  )

  pub submit_links :
      (r : RetryReplies) (s : SudoRequest)
      → (IsFresh c r.listing s → retry_error c s ≡ none → C s)
      → Each P (submit_again c r source s)
  unfolding submit_again
  submit_links r s h =
      Each->>=_eq P (find_pending_duplicate c r.listing s) _
        (find_pending_duplicate-Each P c r.listing s) searched
    where
      checked :
          IsFresh c r.listing s
          → (o : Option Error) → retry_error c s ≡ o
          → Each P (on_option o fail (create_successor c r source s))
      checked f none e = create_links r s (h f e)
      checked f (some x) e = tt

      searched :
          (duplicate : Option SudoRequest)
          → (find_pending_duplicate c r.listing s).result ≡ ok duplicate
          → Each P (
              on_option duplicate
                (λ d.
                  if d.name === s.name
                  then adopt_retry_successor c r.link source d
                  else fail (pending_duplicate d.uid))
                (on_option (retry_error c s) fail (create_successor c r source s)))
      searched none g =
          checked (find_pending_duplicate-IsFresh c s r.listing g) (retry_error c s) refl
      searched (some d) g =
          Each-if P (d.name === s.name) (adopt_retry_successor c r.link source d) _
            (adopt_links r.link d) tt
