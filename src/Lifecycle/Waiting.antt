-- ===== src/Lifecycle/Waiting.antt =====
-- The writes of handlePending: an expiry, or an update of the assessment or of the notification,
-- which leaves the phase of the object that it updates alone.
use sudo_service.Prelude.{String, List, [], ◌∷◌, ◌⊎◌, inl, inr, is_empty, leb, ◌≡◌, refl}
use sudo_service.Types.{
  SudoRequest, pending, expired, Error, errorf, Reply, found, refused, is_queued,
  is_assessment_pending,
}
use sudo_service.Effects.{Effect, fail}
use sudo_service.Pushover.{send_approval}
use sudo_service.Controller.{Controller}
use sudo_service.Reconciler.Update.{Attempt, UpdateReplies, update_status}
use sudo_service.Reconciler.Deliver.{
  DeliverReplies, deliver_approval_notification, send_token, send_link, delivered, undelivered,
  set_delivered, set_undelivered,
}
use sudo_service.Reconciler.Pending.{
  PendingReplies, expiry, expire, notify, handle_pending, set_assessment, assessment_state,
  generate_permission_assessment, is_later,
}
use sudo_service.Lifecycle.{OnWrite, OnWrite-map}
use sudo_service.Lifecycle.Rules.{
  Each, Each-if, Each-on_reply, Each-resume, Each-on_result, Each-update_status, OnAttempt,
  OnAttempts,
}
use sudo_service.Lifecycle.Deciding.{Decides, expire-Decides}

-- The phase, who decided and when are those of the object that is updated.
abbrev pub KeepsDecision : SudoRequest → SudoRequest → Type 0
KeepsDecision base new =
    (new.status.phase ≡ base.status.phase)
    × (new.status.approval_token_hash ≡ base.status.approval_token_hash)
    × (new.status.approved_by ≡ base.status.approved_by)
    × (new.status.denied_by ≡ base.status.denied_by)

-- The two kinds of write.
abbrev pub Waits : SudoRequest → SudoRequest → Type 0
Waits base new = Decides expired base new ⊎ KeepsDecision base new

abbrev P : Effect → Type 0
P = OnWrite Waits

abbrev Keeping : (SudoRequest → SudoRequest) → Type 0
Keeping mutate = (s : SudoRequest) → KeepsDecision s (mutate s)

update-Waits :
    (mutate : SudoRequest → SudoRequest)
    → Keeping mutate
    → (r : UpdateReplies) (sr : SudoRequest) → Each P (update_status mutate r sr sr)
update-Waits mutate k r sr = Each-update_status P mutate r sr sr (inr (k sr)) (go r.attempts)
  where
    go : (attempts : List Attempt) → OnAttempts P mutate attempts
    go [] = tt
    go (a ∷ rest) = (on_attempt a.latest, go rest)
      where
        on_attempt : (l : Reply SudoRequest) → OnAttempt P mutate l a.reply
        on_attempt (refused e) = tt
        on_attempt (found o) = inr (k o)

undelivered-Waits :
    (r : DeliverReplies) (sr : SudoRequest) (e : Error) → Each P (undelivered r sr e)
unfolding undelivered
undelivered-Waits r sr e =
    Each-on_result P (update_status (set_undelivered r.attempted_at e) r.record_failure sr sr) _ _
      (update-Waits (set_undelivered r.attempted_at e) (λ s. (refl, refl, refl, refl))
        r.record_failure sr)
      (λ _. tt) λ _. tt

delivered-Waits : (r : DeliverReplies) (sr : SudoRequest) (id : String) → Each P (delivered r sr id)
unfolding delivered
delivered-Waits r sr id =
    Each-on_result P
      (update_status (set_delivered r.attempted_at r.delivered_at id) r.record_delivery sr sr) _ _
      (update-Waits (set_delivered r.attempted_at r.delivered_at id) (λ s. (refl, refl, refl, refl))
        r.record_delivery sr)
      (λ _. (tt, tt)) λ _. tt

deliver-Waits :
    (c : Controller) (r : DeliverReplies) (sr : SudoRequest)
    → Each P (deliver_approval_notification c r sr)
unfolding deliver_approval_notification send_token send_link
deliver-Waits c r sr =
    Each-if P (is_empty sr.status.approval_token_secret_name)
      (fail (errorf "pending notification has no approval-token Secret" [])) _ tt
      (Each-on_reply P r.secret _ _
        (λ secret.
          Each-if P _ (fail (errorf "approval-token Secret does not match persisted hash" [])) _ tt
            (Each-resume P (c.approval_link sr.uid secret.content) _ _
              (λ link. (
                tt,
                Each-resume P (send_approval r.sent) (delivered r sr) (undelivered r sr)
                    (delivered-Waits r sr) (undelivered-Waits r sr),
              ))
              λ e. tt))
        λ e. tt)

notify-Waits : (c : Controller) (r : PendingReplies) (sr : SudoRequest) → Each P (notify c r sr)
unfolding notify
notify-Waits c r sr =
    Each-if P (is_queued sr.status.notification_state) _ _
      (Each-if P (is_later r.time_after sr.status.notification_next_attempt_at) _ _ tt
        (deliver-Waits c r.deliver sr))
      tt

-- On a pending request, every status write of handlePending either takes a pending object to
-- expired and leaves nothing of its token, or keeps the phase, the token's digest and both
-- deciders' names of the object that it updates, a retry after a conflict included.
pub handle_pending-Waits :
    (c : Controller) (r : PendingReplies) (sr : SudoRequest)
    → sr.status.phase ≡ pending
    → Each (OnWrite Waits) (handle_pending c r sr)
unfolding handle_pending
handle_pending-Waits c r sr e =
    Each-if P (leb (expiry sr) r.time) (expire r sr) _
      (OnWrite-map (Decides expired) Waits (λ base new d. inl d) (expire r sr).effects
        (expire-Decides r sr e))
      (Each-if P (is_assessment_pending sr.status.permission_assessment_state) _ (notify c r sr)
        (Each-on_result P (update_status mutate r.record_assessment sr sr) _ _
          (update-Waits mutate (λ s. (refl, refl, refl, refl)) r.record_assessment sr)
          (λ persisted. notify-Waits c r (mutate persisted)) λ _. tt)
        (notify-Waits c r sr))
  where
    mutate : SudoRequest → SudoRequest
    mutate =
        set_assessment (generate_permission_assessment c r sr).0
          (assessment_state (generate_permission_assessment c r sr).1)
