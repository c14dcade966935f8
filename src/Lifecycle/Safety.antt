-- ===== src/Lifecycle/Safety.antt =====
-- What handleApproved never does: move a request that is not approved, run its command a second
-- time, or delete anything but the Job that the approval pinned.
use sudo_service.Prelude.{
  String, List, [], ◌∷◌, true, false, not, ◌≡◌, ◌∙◌, refl, All, arith, is_empty, ◌===◌,
  if◌then◌else◌,
}
use sudo_service.Types.{
  SudoRequest, approved, is_approved, is_approved-eq, api, is_not_found, Reply, found, refused,
}
use sudo_service.Cluster.{Job, job_terminal}
use sudo_service.Effects.{
  Effect, write_status, create_job, delete_target, return, fail, on_reply, done, now,
}
use sudo_service.Controller.{Controller, controller_namespace}
use sudo_service.Executor.Target.{executor_namespace}
use sudo_service.Executor.Manifest.{JobManifest, PodExtras, build_executor_job}
use sudo_service.Playbooks.Execute.{execute_auto_approved_playbook}
use sudo_service.Reconciler.Update.{Attempt, UpdateReplies}
use sudo_service.Reconciler.Approved.{ApprovedReplies, run_executor, or_else, handle_approved}
use sudo_service.Lifecycle.{Moves, OnWrite}
use sudo_service.Lifecycle.Rules.{Each, Each-if, Each-if_eq}
use sudo_service.Lifecycle.Approving.{Quiet, OnFound, Steady, ApprovedSteady}
use sudo_service.Lifecycle.Handling.{approved-Each, run_executor-Each}

-- The request that was read, if it was read.
abbrev pub WasFound : (SudoRequest → Type 0) → Reply SudoRequest → Type 0
WasFound Q (found sr) = Q sr
WasFound Q (refused e) = ⊥

abbrev pub OnCreate : (JobManifest → Type 0) → Effect → Type 0
OnCreate P (create_job m reply) = P m
OnCreate P _ = Unit

abbrev pub OnDelete : (Job → String → Type 0) → Effect → Type 0
OnDelete P (delete_target job uid reply) = P job uid
OnDelete P _ = Unit

abbrev pub IsApproved : SudoRequest → Type 0
IsApproved sr = sr.status.phase ≡ approved

-- A write of handleApproved starts from an approved request and ends where one may go.
abbrev pub LeavesApproved : SudoRequest → SudoRequest → Type 0
LeavesApproved base new = IsApproved base × Moves approved new.status.phase

-- The request is approved, has a Job name on record and no Job uid, and the Job is its own.
abbrev pub FirstRun : Controller → JobManifest → SudoRequest → Type 0
FirstRun c m sr =
    IsApproved sr
    × (is_empty sr.status.executor_job_name ≡ false)
    × (is_empty sr.status.executor_job_uid ≡ true)
    × (m.name ≡ sr.status.executor_job_name)
    × (m.namespace ≡ executor_namespace sr (controller_namespace c))

-- The playbook was approved by the controller with this very Job as its target.
abbrev pub Pinned : Job → String → SudoRequest → Type 0
Pinned job uid sr =
    IsApproved sr
    × (sr.status.playbook_auto_approved ≡ true)
    × (sr.status.playbook_target_absent ≡ false)
    × (uid ≡ job.uid)
    × ((job.uid === sr.status.playbook_target_uid) ≡ true)
    × (job_terminal job ≡ true)

-- The guard on the phase, and the answer to the read, that all three share.
guarded :
    (c : Controller) (r : ApprovedReplies) (P : Reply SudoRequest → Effect → Type 0)
    → ((sr : SudoRequest)
        → IsApproved sr
        → Each
            (P (found sr))
            (or_else (execute_auto_approved_playbook c r.playbook sr) (run_executor c r sr)))
    → Each (P r.refetch) (handle_approved c r)
unfolding handle_approved
guarded c r P h = by_reply r.refetch
  where
    by_reply :
        (l : Reply SudoRequest)
        → Each (P l) (
            on_reply l
              (λ sr.
                if not (is_approved sr.status.phase)
                then return now
                else or_else (execute_auto_approved_playbook c r.playbook sr) (run_executor c r sr))
              (λ e. if is_not_found e then return done else fail (api e)))
    by_reply (refused e) =
        Each-if (P (refused e)) (is_not_found e) (return done) (fail (api e)) tt tt
    by_reply (found sr) =
        Each-if_eq (P (found sr)) (not (is_approved sr.status.phase)) (return now) _ (λ _. tt)
          λ e. h sr (is_approved-eq sr.status.phase (ground arith))

all-Steady : (r : UpdateReplies) → Steady (λ o. Unit {0}) r
all-Steady r = go r.attempts
  where
    on : (l : Reply SudoRequest) → OnFound (λ o. Unit {0}) l
    on (found o) = tt
    on (refused e) = tt

    go : (attempts : List Attempt) → All (λ a. OnFound (λ o. Unit {0}) a.latest) attempts
    go [] = tt
    go (a ∷ rest) = (on a.latest, go rest)

all-ApprovedSteady : (r : ApprovedReplies) → ApprovedSteady (λ o. Unit {0}) r
all-ApprovedSteady r = (
  all-Steady r.playbook.update,
  all-Steady r.record_names,
  all-Steady r.record_uid,
  all-Steady r.record_result,
  all-Steady r.finish,
)

leaves-Quiet : (e : Effect) → Quiet e → OnWrite LeavesApproved e
leaves-Quiet (write_status base new reply) q = absurd q
leaves-Quiet _ q = tt

-- Every status write of handleApproved starts from an approved object and leaves it approved or
-- makes it executed or failed, provided the updates that it retries after a conflict read approved
-- objects.
pub handle_approved-LeavesApproved :
    (c : Controller) (r : ApprovedReplies)
    → ApprovedSteady IsApproved r
    → Each (OnWrite LeavesApproved) (handle_approved c r)
handle_approved-LeavesApproved c r st =
    guarded c r (λ _. OnWrite LeavesApproved)
      λ sr a.
        approved-Each (OnWrite LeavesApproved) IsApproved leaves-Quiet
          (λ base current mutate reply q e m. (q, m current (e ∙ q))) c r st sr a
          (λ job b d u t. tt)
          (run_executor-Each (OnWrite LeavesApproved) IsApproved leaves-Quiet
            (λ base current mutate reply q e m. (q, m current (e ∙ q))) c r st sr a (λ n u x. tt))

create-Quiet : (Q : JobManifest → Type 0) (e : Effect) → Quiet e → OnCreate Q e
create-Quiet Q (create_job m reply) q = absurd q
create-Quiet Q _ q = tt

own_job :
    (c : Controller) (sr : SudoRequest) (extras : PodExtras)
    → IsApproved sr
    → is_empty sr.status.executor_job_name ≡ false
    → is_empty sr.status.executor_job_uid ≡ true
    → FirstRun c
        (build_executor_job c.shlex_split c.rules sr
          (executor_namespace sr (controller_namespace c))
          sr.status.executor_job_name
          extras
          (controller_namespace c))
        sr
unfolding build_executor_job
own_job c sr extras a n u = (a, n, u, refl, refl)

-- For every configuration and all answers of the API server, handleApproved creates a Job only if
-- its uncached read found the request approved, with a Job name on record and no Job uid; the Job
-- then has that name, in the namespace of the executor. A command whose Job's uid is on record is
-- never started again.
pub handle_approved-FirstRun :
    (c : Controller) (r : ApprovedReplies)
    → Each (OnCreate (λ m. WasFound (FirstRun c m) r.refetch)) (handle_approved c r)
handle_approved-FirstRun c r =
    guarded c r (λ l. OnCreate (λ m. WasFound (FirstRun c m) l))
      λ sr a.
        let P : Effect → Type 0 = OnCreate (λ m. FirstRun c m sr) in
        approved-Each P (λ _. Unit {0}) (create-Quiet (λ m. FirstRun c m sr))
          (λ base current mutate reply q e m. tt) c r (all-ApprovedSteady r) sr tt
          (λ job b d u t. tt)
          (run_executor-Each P (λ _. Unit {0}) (create-Quiet (λ m. FirstRun c m sr))
            (λ base current mutate reply q e m. tt) c r (all-ApprovedSteady r) sr tt
            (λ n u x. own_job c sr x a n u))

delete-Quiet : (Q : Job → String → Type 0) (e : Effect) → Quiet e → OnDelete Q e
delete-Quiet Q (delete_target job uid reply) q = absurd q
delete-Quiet Q _ q = tt

-- For every configuration and all answers of the API server, handleApproved deletes the target of a
-- playbook only if its uncached read found the request approved by the controller itself, with a
-- target that was present at the approval; the Job deleted has the uid that the approval pinned, is
-- terminal, and its uid is the precondition of the deletion.
pub handle_approved-Pinned :
    (c : Controller) (r : ApprovedReplies)
    → Each (OnDelete (λ job uid. WasFound (Pinned job uid) r.refetch)) (handle_approved c r)
handle_approved-Pinned c r =
    guarded c r (λ l. OnDelete (λ job uid. WasFound (Pinned job uid) l))
      λ sr a.
        let P : Effect → Type 0 = OnDelete (λ job uid. Pinned job uid sr) in
        approved-Each P (λ _. Unit {0}) (delete-Quiet (λ job uid. Pinned job uid sr))
          (λ base current mutate reply q e m. tt) c r (all-ApprovedSteady r) sr tt
          (λ job b d u t. (a, b, d, refl, u, t))
          (run_executor-Each P (λ _. Unit {0}) (delete-Quiet (λ job uid. Pinned job uid sr))
            (λ base current mutate reply q e m. tt) c r (all-ApprovedSteady r) sr tt (λ n u x. tt))
