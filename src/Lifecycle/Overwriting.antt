-- ===== src/Lifecycle/Overwriting.antt =====
-- What updateStatus does to an object that moved on between the read and the retry.
use sudo_service.Prelude.{List, [], ◌∷◌, ◌++◌, some, true, ◌≡◌, refl, sym, subst, ap, ◌∙◌}
use sudo_service.Types.{SudoRequest, Phase, conflict, ok, found, wrapf}
use sudo_service.Cluster.{accepted, rejected}
use sudo_service.Effects.{Effect, write_status, M, commit_all, resume, ◌>>◌, return, fail, now}
use sudo_service.Playbooks.{PreparedPlaybook}
use sudo_service.Reconciler.Update.{Attempt, update_status, settle, attempt, retry_on_conflict}
use sudo_service.Reconciler.New.{
  NewReplies, approve_playbook, announce_approved, set_playbook_approved,
}

-- The rounds of a retry that reads each of `seen`, always too late, and then `latest` in time.
abbrev pub rounds : List SudoRequest → SudoRequest → List Attempt
rounds [] latest = record { latest = found latest; reply = accepted } ∷ []
rounds (x ∷ seen) latest =
    record { latest = found x; reply = rejected conflict } ∷ rounds seen latest

-- The first write conflicts too.
abbrev pub overtaken : NewReplies → List SudoRequest → SudoRequest → NewReplies
overtaken r seen latest = record r {
  playbook = record { first = rejected conflict; attempts = rounds seen latest };
}

module _ (mutate : SudoRequest → SudoRequest) where
  -- The writes of such a retry.
  abbrev writes : List SudoRequest → SudoRequest → List Effect
  writes [] latest = write_status latest (mutate latest) accepted ∷ []
  writes (x ∷ seen) latest = write_status x (mutate x) (rejected conflict) ∷ writes seen latest

  retry_on_conflict-rounds :
      (seen : List SudoRequest) (latest : SudoRequest)
      → retry_on_conflict mutate (rounds seen latest)
        ≡ record { effects = writes seen latest; result = ok (mutate latest) }
  unfolding retry_on_conflict attempt settle
  retry_on_conflict-rounds [] latest = refl
  retry_on_conflict-rounds (x ∷ seen) latest =
      ap
        (λ (m : M SudoRequest). record {
          effects = write_status x (mutate x) (rejected conflict) ∷ m.effects;
          result = m.result;
        })
        (retry_on_conflict-rounds seen latest)

  -- Of the writes only the last one is stored.
  commit_all-writes :
      (stored : SudoRequest) (seen : List SudoRequest) (latest : SudoRequest) (es : List Effect)
      → commit_all stored (writes seen latest ++ es)
        ≡ commit_all (record stored { status = (mutate latest).status }) es
  commit_all-writes stored [] latest es = refl
  commit_all-writes stored (x ∷ seen) latest es = commit_all-writes stored seen latest es

stored_as :
    (r : NewReplies) (p : PreparedPlaybook) (base sr latest : SudoRequest) (seen : List SudoRequest)
    → commit_all latest (approve_playbook (overtaken r seen latest) p base sr).effects
      ≡ record latest { status = (set_playbook_approved r.time p latest).status }
unfolding approve_playbook announce_approved update_status settle
stored_as r p base sr latest seen =
    let mutate = set_playbook_approved r.time p in
    ap
      (λ (m : M SudoRequest). commit_all latest (
        (write_status base (mutate sr) (rejected conflict) ∷ m.effects)
        ++ (resume m.result (λ persisted. announce_approved persisted >> return now)
            (λ e.
              fail (wrapf "status update Approved for playbook auto-approve: %w" [] e))).effects))
      (retry_on_conflict-rounds mutate seen latest)
    ∙ commit_all-writes mutate latest seen latest _

-- What is stored of the status: the approval of the pinned target, over whatever `latest` was; the
-- token's digest stays.
abbrev pub Overwrites : NewReplies → PreparedPlaybook → SudoRequest → SudoRequest → Type 0
Overwrites r p latest stored =
    (stored.status.phase ≡ Phase.approved)
    × (stored.status.approved_by ≡ "auto-approve")
    × (stored.status.approved_at ≡ some r.time)
    × (stored.status.playbook_auto_approved ≡ true)
    × (stored.status.playbook_target_uid ≡ p.target_uid)
    × (stored.status.playbook_target_absent ≡ p.target_absent)
    × (stored.status.approval_token_hash ≡ latest.status.approval_token_hash)
    × (stored.status.denied_by ≡ latest.status.denied_by)

-- If the first write of a playbook's approval conflicts, and any number of retries, then the object
-- that the next retry reads and writes, whatever its phase, is stored as approved by the controller
-- now, for the pinned target, with the token's digest and the name of who denied it as they were.
pub approve_playbook-Overwrites :
    (r : NewReplies) (p : PreparedPlaybook) (base sr latest : SudoRequest) (seen : List SudoRequest)
    → Overwrites r p latest
        (commit_all latest (approve_playbook (overtaken r seen latest) p base sr).effects)
approve_playbook-Overwrites r p base sr latest seen =
    subst (λ s. Overwrites r p latest s) (sym (stored_as r p base sr latest seen))
      (refl, refl, refl, refl, refl, refl, refl, refl)
