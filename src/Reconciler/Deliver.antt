-- ===== src/Reconciler/Deliver.antt =====
-- reconciler.go: deliverApprovalNotification. The recorded send error is not cut to 512 bytes; a
-- wait that would be negative is 0.
use sudo_service.Prelude.{
  ℕ, suc, ◌+◌, ◌-◌, ◌*◌, String, List, [], ◌∷◌, Option, none, some, true, ◌||◌, not, is_cons,
  is_empty, ◌===◌, if◌then◌else◌, text_append, replace_all, join,
}
use sudo_service.Types.{
  SudoRequest, PermissionAssessment, NotificationState, Reason, message, Error, api, errorf, wrapf,
  second, pending_request_ttl, Reply,
}
use sudo_service.Cluster.{Secret}
use sudo_service.Effects.{
  push, record_event, M, return, fail, tell, on_result, on_reply, resume, ◌>>◌, Requeue, after,
}
use sudo_service.Controller.{Controller, controller_namespace}
use sudo_service.Review.Extras.{spec_extras_text}
use sudo_service.Profiles.{image_for, profile_for}
use sudo_service.Pushover.{PushoverReply, send_approval}
use sudo_service.Reconciler.Token.{constant_time_equal}
use sudo_service.Reconciler.Update.{UpdateReplies, update_status}

pub record DeliverReplies : Type 0 where
  pub secret : Reply Secret
  pub attempted_at : ℕ
  pub sent : PushoverReply
  pub delivered_at : ℕ
  pub returned_at : ℕ
  pub record_failure : UpdateReplies
  pub record_delivery : UpdateReplies

unfoldable pub submitted_by_for : SudoRequest → String
submitted_by_for sr =
    if not (is_empty sr.spec.submitted_by) then sr.spec.submitted_by else sr.spec.requester

-- 95 is the number of the underscore.
unfoldable pub permission_effect_label : String → String
permission_effect_label effect = replace_all 95 " " effect

unfoldable pub labels_of : List String → List String
unfolding permission_effect_label
labels_of [] = []
labels_of (e ∷ es) = permission_effect_label e ∷ labels_of es

unfoldable pub format_permission_effects : List String → String
unfolding labels_of
format_permission_effects effects = join ", " (labels_of effects)

unfoldable pub review_aid : SudoRequest → Option PermissionAssessment → String
unfolding format_permission_effects
review_aid sr (some a) =
    text_append (text_append (text_append "Permission requested: " a.request) "\n") (
      if is_cons a.effects
      then text_append (text_append "Effects: " (format_permission_effects a.effects)) "\n"
      else "")
review_aid sr none =
    if not (is_empty sr.status.summary)
    then text_append (text_append "Review aid: " sr.status.summary) "\n"
    else ""

-- `prefix ++ value` on a line of its own, if the value is set.
abbrev pub line : String → String → String
line prefix value = if is_empty value then "" else text_append prefix value

unfoldable pub warning_lines : List String → String
warning_lines [] = ""
warning_lines (w ∷ ws) = text_append (text_append "\npreflight warning: " w) (warning_lines ws)

unfoldable pub notification_body : Controller → SudoRequest → String
unfolding review_aid warning_lines
notification_body c sr =
    let actor = submitted_by_for sr in
    text_append (review_aid sr sr.status.permission_assessment) (
      text_append (text_append "reason: " sr.spec.reason) (
        text_append (text_append "\ncommand: " sr.spec.command) (
          text_append (text_append "\nimage: " (image_for sr)) (
            text_append (line "\nprofile: " (profile_for sr)) (
              text_append (warning_lines sr.status.preflight_warnings) (
                text_append (line "\nretry of: " sr.spec.retry_of_uid) (
                  text_append
                    (if not (actor === sr.spec.requester)
                      then text_append "\nresubmitted by: " actor
                      else "")
                    (line "\n" (spec_extras_text sr true (controller_namespace c))))))))))

abbrev pub set_undelivered : ℕ → Error → SudoRequest → SudoRequest
set_undelivered attempted_at e s = record s {
  status = record (s.status) {
    notification_attempts = suc (s.status.notification_attempts);
    notification_last_attempt_at = some attempted_at;
    notification_next_attempt_at = some (attempted_at + 30 * second);
    notification_last_error = message e;
  };
}

abbrev pub set_delivered : ℕ → ℕ → String → SudoRequest → SudoRequest
set_delivered attempted_at delivered_at request_id s = record s {
  status = record (s.status) {
    notification_attempts = suc (s.status.notification_attempts);
    notification_last_attempt_at = some attempted_at;
    notification_next_attempt_at = none;
    notification_delivered_at = some delivered_at;
    notification_last_error = Reason.unstated;
    notification_state = NotificationState.delivered;
    pushover_request_id = request_id;
  };
}

unfoldable pub undelivered : DeliverReplies → SudoRequest → Error → M Requeue
undelivered r sr e =
    on_result (update_status (set_undelivered r.attempted_at e) r.record_failure sr sr)
      (λ _. return (after (30 * second))) (λ d. fail (wrapf "record Pushover failure: %w" [] d))

unfoldable pub delivered : DeliverReplies → SudoRequest → String → M Requeue
delivered r sr request_id =
    on_result
      (update_status (set_delivered r.attempted_at r.delivered_at request_id) r.record_delivery sr
        sr)
      (λ persisted.
        tell (record_event "Notified")
        >> return (
            after (
              persisted.creation_timestamp
              + pending_request_ttl * second
              + second
              - r.returned_at)))
      (λ d. fail (wrapf "record Pushover delivery: %w" [] d))

unfoldable pub send_link : Controller → DeliverReplies → SudoRequest → String → M Requeue
send_link c r sr link = do
  tell (
      push (text_append "sudo: permission requested by " sr.spec.requester) (notification_body c sr)
        link)
  resume (send_approval r.sent) (delivered r sr) (undelivered r sr)

unfoldable pub send_token : Controller → DeliverReplies → SudoRequest → String → M Requeue
unfolding send_link delivered undelivered
send_token c r sr token =
    if is_empty token
      || not (constant_time_equal (c.sha256_hex token) sr.status.approval_token_hash)
    then fail (errorf "approval-token Secret does not match persisted hash" [])
    else resume (c.approval_link sr.uid token) (send_link c r sr)
        (λ e. fail (wrapf "parse PublicBaseURL: %w" [] e))

unfoldable pub deliver_approval_notification : Controller → DeliverReplies → SudoRequest → M Requeue
unfolding send_token
deliver_approval_notification c r sr =
    if is_empty sr.status.approval_token_secret_name
    then fail (errorf "pending notification has no approval-token Secret" [])
    else on_reply r.secret (λ secret. send_token c r sr secret.content)
        (λ e. fail (wrapf "read approval-token Secret: %w" [] (api e)))
