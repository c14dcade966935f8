-- ===== src/Lifecycle/Approving.antt =====
-- What holds of every effect of handleApproved: a predicate on effects is shown of the whole
-- handler from the four kinds of effect that matter, and then applied to two of them.
use sudo_service.Prelude.{List, [], ◌∷◌, Bool, true, false, ◌≡◌, refl, All, is_empty, if◌then◌else◌}
use sudo_service.Types.{
  ℤ, SudoRequest, Reason, Phase, approved, api, is_not_found, Reply, found, refused,
}
use sudo_service.Cluster.{Job, WriteReply, write_error}
use sudo_service.Effects.{Effect, write_status, create_job, delete_target, M, return, fail, Requeue}
use sudo_service.Executor.Children.{stop_job}
use sudo_service.Executor.Pods.{is_nonzero}
use sudo_service.Playbooks.Execute.{set_playbook_executed, mark_playbook_executed}
use sudo_service.Reconciler.Update.{Attempt, UpdateReplies, update_status, mark_failed, set_failed}
use sudo_service.Reconciler.Finalize.{set_result, finalize_from_recorded_result}
use sudo_service.Reconciler.Approved.{ApprovedReplies, wrapping, fail_approved}
use sudo_service.Lifecycle.{Moves, execute}
use sudo_service.Lifecycle.Rules.{
  Each, Each->>=, Each-if, Each-on_reply, Each-on_option, Each-on_result, Each-update_status,
  OnAttempt, OnAttempts,
}

-- An effect that no rule of this module restricts.
abbrev pub Quiet : Effect → Type 0
Quiet (write_status base new reply) = ⊥
Quiet (create_job m reply) = ⊥
Quiet (delete_target job uid reply) = ⊥
Quiet _ = Unit

-- `Q` holds of every object that the retries of an update read again.
abbrev pub OnFound : (SudoRequest → Type 0) → Reply SudoRequest → Type 0
OnFound Q (found o) = Q o
OnFound Q (refused e) = Unit

abbrev pub Steady : (SudoRequest → Type 0) → UpdateReplies → Type 0
Steady Q r = All (λ a. OnFound Q a.latest) r.attempts

-- The same for each update of handleApproved.
abbrev pub ApprovedSteady : (SudoRequest → Type 0) → ApprovedReplies → Type 0
ApprovedSteady Q r =
    Steady Q r.playbook.update
    × Steady Q r.record_names
    × Steady Q r.record_uid
    × Steady Q r.record_result
    × Steady Q r.finish

-- A mutation that an approved request may take.
abbrev pub Mutation : (SudoRequest → SudoRequest) → Type 0
Mutation mutate =
    (s : SudoRequest) → s.status.phase ≡ approved → Moves approved (mutate s).status.phase

result_move : (b : Bool) → Moves approved (if b then Phase.failed else Phase.executed)
result_move true = Moves.fail
result_move false = execute

module _ (P : Effect → Type 0) (quiet : (e : Effect) → Quiet e → P e) where
  pub stop_job-Each : (reply : WriteReply) (job : Job) → Each P (stop_job reply job)
  unfolding stop_job
  stop_job-Each reply job = (
    quiet _ tt,
    Each-on_option P (write_error reply) _ (return tt)
        (λ e. Each-if P (is_not_found e) (return tt) (fail (api e)) tt tt) tt,
  )

module _ (P : Effect → Type 0) (Q : SudoRequest → Type 0) (quiet : (e : Effect) → Quiet e → P e)
    (write : (base current : SudoRequest) (mutate : SudoRequest → SudoRequest) (reply : WriteReply)
      → Q base
      → current.status.phase ≡ base.status.phase
      → Mutation mutate
      → P (write_status base (mutate current) reply)) where
  on_attempts :
      (mutate : SudoRequest → SudoRequest)
      → Mutation mutate
      → (attempts : List Attempt) → All (λ a. OnFound Q a.latest) attempts
      → OnAttempts P mutate attempts
  on_attempts mutate m [] h = tt
  on_attempts mutate m (a ∷ rest) h = (on_attempt a.latest h.0, on_attempts mutate m rest h.1)
    where
      on_attempt : (l : Reply SudoRequest) → OnFound Q l → OnAttempt P mutate l a.reply
      on_attempt (refused e) q = tt
      on_attempt (found o) q = write o o mutate a.reply q refl m

  pub update-Each :
      (mutate : SudoRequest → SudoRequest)
      → Mutation mutate
      → (r : UpdateReplies) → Steady Q r
      → (base current : SudoRequest) → Q base
      → current.status.phase ≡ base.status.phase
      → Each P (update_status mutate r base current)
  update-Each mutate m r st base current q e =
      Each-update_status P mutate r base current (write base current mutate r.first q e m)
        (on_attempts mutate m r.attempts st)

  pub mark_failed-Each :
      (reason : Reason) (r : UpdateReplies)
      → Steady Q r
      → (sr : SudoRequest) → Q sr
      → Each P (mark_failed reason r sr)
  unfolding mark_failed
  mark_failed-Each reason r st sr q =
      Each->>= P (update_status (set_failed reason) r sr sr) _
        (update-Each (set_failed reason) (λ s e. Moves.fail) r st sr sr q refl)
        λ persisted. (quiet _ tt, (quiet _ tt, tt))

  pub finalize-Each :
      (r : UpdateReplies)
      → Steady Q r
      → (code : ℤ) (base current : SudoRequest) → Q base
      → current.status.phase ≡ base.status.phase
      → Each P (finalize_from_recorded_result r code base current)
  unfolding finalize_from_recorded_result
  finalize-Each r st code base current q e =
      Each->>= P (update_status (set_result code current) r base current) _
        (update-Each (set_result code current) (λ s h. result_move (is_nonzero code)) r st base
          current q e)
        λ persisted. (quiet _ tt, (quiet _ tt, tt))

  pub mark_playbook_executed-Each :
      (r : UpdateReplies)
      → Steady Q r
      → (sr : SudoRequest) → Q sr
      → Each P (mark_playbook_executed r sr)
  unfolding mark_playbook_executed
  mark_playbook_executed-Each r st sr q =
      Each->>= P (update_status set_playbook_executed r sr sr) _
        (update-Each set_playbook_executed (λ s e. execute) r st sr sr q refl)
        λ persisted. (quiet _ tt, (quiet _ tt, tt))

  pub fail_approved-Each :
      (r : ApprovedReplies)
      → Steady Q r.finish
      → (reason : Reason) (sr : SudoRequest) → Q sr
      → Each P (fail_approved r reason sr)
  unfolding fail_approved
  fail_approved-Each r st reason sr q =
      Each-if P (is_empty sr.status.executor_job_name) recorded _ each (
        Each-on_reply P r.fail_get _ _
          (λ job.
            Each->>= P (wrapping "stop executor job before failing: %w" (stop_job r.fail_stop job))
              _
              (Each-on_result P (stop_job r.fail_stop job) return _
                (stop_job-Each P quiet r.fail_stop job) (λ a. tt) (λ e. tt))
              (λ a. each))
          (λ e. Each-if P (is_not_found e) recorded (fail (api e)) each tt))
    where
      recorded : M Requeue
      recorded = mark_failed reason r.finish sr

      each : Each P recorded
      each = mark_failed-Each reason r.finish st sr q
