-- ===== src/Lifecycle/Entering.antt =====
-- The writes of handleNew: each leaves a request that has no phase yet.
use sudo_service.Prelude.{String, List, [], ◌∷◌, ◌≡◌, All}
use sudo_service.Types.{SudoRequest, unset, Error, wrapf, Reply, found, refused}
use sudo_service.Effects.{Effect, fail, check}
use sudo_service.Controller.{Controller}
use sudo_service.Playbooks.{PreparedPlaybook}
use sudo_service.Playbooks.Prepare.{prepare_auto_approved_playbook}
use sudo_service.Profiles.Preflight.{preflight_command}
use sudo_service.Profiles.{resolve_and_preflight}
use sudo_service.Executor.Target.{auto_approve_tokens}
use sudo_service.Reconciler.Update.{Attempt, update_status}
use sudo_service.Reconciler.New.{
  NewReplies, deny_new, set_playbook_approved, announce_approved, approve_playbook, approve_command,
  await_human, approve_or_wait, with_fallback, accept, spec_error, check_new, handle_new,
  with_resolution,
}
use sudo_service.Lifecycle.{Moves, ask, auto_approve, reject, OnWrite}
use sudo_service.Lifecycle.Rules.{
  Each, Each->>=, Each-check, Each-on_option, Each-resume, Each-on_result, Each-update_status,
  OnAttempt, OnAttempts,
}
use sudo_service.Lifecycle.Approving.{OnFound, Steady}

abbrev pub IsNew : SudoRequest → Type 0
IsNew sr = sr.status.phase ≡ unset

-- A write of handleNew starts from a request without a phase and ends where one may go.
abbrev pub LeavesNew : SudoRequest → SudoRequest → Type 0
LeavesNew base new = IsNew base × Moves unset new.status.phase

abbrev P : Effect → Type 0
P = OnWrite LeavesNew

deny_new-LeavesNew :
    (r : NewReplies) (by format : String) (e : Error) (base sr : SudoRequest)
    → IsNew base
    → Each P (deny_new r by format e base sr)
unfolding deny_new
deny_new-LeavesNew r by format e base sr n = (
  (n, reject),
  Each->>= P (check (wrapf format []) r.deny) _ (Each-check P (wrapf format []) r.deny)
      λ _. (tt, (tt, tt)),
)

playbook_attempts :
    (mutate : SudoRequest → SudoRequest)
    → ((s : SudoRequest) → Moves unset (mutate s).status.phase)
    → (attempts : List Attempt) → All (λ a. OnFound IsNew a.latest) attempts
    → OnAttempts P mutate attempts
playbook_attempts mutate m [] h = tt
playbook_attempts mutate m (a ∷ rest) h =
    (on_attempt a.latest h.0, playbook_attempts mutate m rest h.1)
  where
    on_attempt : (l : Reply SudoRequest) → OnFound IsNew l → OnAttempt P mutate l a.reply
    on_attempt (refused e) q = tt
    on_attempt (found o) q = (q, m o)

approve_playbook-LeavesNew :
    (r : NewReplies)
    → Steady IsNew r.playbook
    → (p : PreparedPlaybook) (base sr : SudoRequest) → IsNew base
    → Each P (approve_playbook r p base sr)
unfolding approve_playbook announce_approved
approve_playbook-LeavesNew r st p base sr n =
    Each-on_result P (update_status (set_playbook_approved r.time p) r.playbook base sr) _ _
      (Each-update_status P (set_playbook_approved r.time p) r.playbook base sr (n, auto_approve)
        (playbook_attempts (set_playbook_approved r.time p) (λ s. auto_approve) r.playbook.attempts
          st))
      (λ persisted. (tt, (tt, tt))) λ e. tt

approve_command-LeavesNew :
    (r : NewReplies) (base sr : SudoRequest) → IsNew base → Each P (approve_command r base sr)
unfolding approve_command announce_approved
approve_command-LeavesNew r base sr n = (
  (n, auto_approve),
  Each->>= P (check (wrapf "status update Approved for auto-approve: %w" []) r.auto) _
      (Each-check P (wrapf "status update Approved for auto-approve: %w" []) r.auto)
      λ _. (tt, (tt, tt)),
)

await_human-LeavesNew :
    (c : Controller) (r : NewReplies) (base sr : SudoRequest) (token : String)
    → IsNew base
    → Each P (await_human c r base sr token)
unfolding await_human
await_human-LeavesNew c r base sr token n =
    Each-on_option P r.set_owner _ _ (λ e. tt)
      (
        tt,
        Each->>= P (check (wrapf "create approval-token Secret: %w" []) r.create_secret) _
            (Each-check P (wrapf "create approval-token Secret: %w" []) r.create_secret)
            λ _. (
              (n, ask),
              Each->>= P (check (wrapf "status update Pending: %w" []) r.pending) _
                  (Each-check P (wrapf "status update Pending: %w" []) r.pending)
                  λ _. (tt, (tt, tt)),
            ),
      )

accept-LeavesNew :
    (c : Controller) (r : NewReplies)
    → Steady IsNew r.playbook
    → (base sr : SudoRequest) → IsNew base
    → Each P (accept c r base sr)
unfolding accept approve_or_wait
accept-LeavesNew c r st base sr n =
    Each-resume P (prepare_auto_approved_playbook c sr r.lookup_job) _ fail
      (λ prepared.
        Each-on_option P prepared.0 _ _ (λ p. approve_playbook-LeavesNew r st p base sr n)
          (Each-on_option P
            (auto_approve_tokens c.shlex_split c.rules (with_fallback prepared.1 sr)) _ _
            (λ tokens. approve_command-LeavesNew r base (with_fallback prepared.1 sr) n)
            (Each-resume P r.token (await_human c r base (with_fallback prepared.1 sr)) _
              (λ token. await_human-LeavesNew c r base (with_fallback prepared.1 sr) token n)
              λ e. tt)))
      λ e. tt

-- On a request without a phase, every status write of handleNew starts from an object without a
-- phase and makes it pending, approved or denied, provided the playbook approval that it retries
-- after a conflict reads objects without a phase.
pub handle_new-LeavesNew :
    (c : Controller) (r : NewReplies) (sr : SudoRequest)
    → IsNew sr
    → Steady IsNew r.playbook
    → Each (OnWrite LeavesNew) (handle_new c r sr)
unfolding handle_new check_new
handle_new-LeavesNew c r base n st =
    Each-on_option P (c.syntax_error sr.spec.command) _ _
      (λ e. deny_new-LeavesNew r _ _ e base sr n)
      (Each-on_option P (spec_error c (resolve_and_preflight (preflight_command c.shell) base) sr) _
        _ (λ e. deny_new-LeavesNew r _ _ e base sr n) (accept-LeavesNew c r st base sr n))
  where
    sr : SudoRequest
    sr = with_resolution (resolve_and_preflight (preflight_command c.shell) base) base
