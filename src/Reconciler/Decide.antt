-- ===== src/Reconciler/Decide.antt =====
-- reconciler.go: what the HTTP handlers call: VerifyApprovalToken, Approve and Deny.
use sudo_service.Prelude.{
  ℕ, String, List, [], ◌∷◌, Option, none, some, Bool, true, false, not, is_empty, ltb, ◌===◌,
  if◌then◌else◌,
}
use sudo_service.Types.{
  SudoRequest, Phase, Reason, said, Error, api, errorf, approval_token_expired, is_pending, Result,
  ok, err, Reply, found, refused,
}
use sudo_service.Cluster.{WriteReply}
use sudo_service.Broadcaster.{phase_event}
use sudo_service.Effects.{
  write_status, delete_secret, record_event, publish, M, return, fail, tell, lift, check, ◌>>=◌,
  ◌>>◌,
}
use sudo_service.Controller.{Controller}
use sudo_service.Reconciler.Token.{constant_time_equal}

unfoldable pub first_with_uid : String → List SudoRequest → Result SudoRequest
first_with_uid uid [] = err (errorf "not found: %s" (uid ∷ []))
first_with_uid uid (sr ∷ rest) = if sr.uid === uid then ok sr else first_with_uid uid rest

unfoldable pub find_by_uid : Reply (List SudoRequest) → String → Result SudoRequest
find_by_uid (refused e) uid = err (api e)
find_by_uid (found items) uid = first_with_uid uid items

-- The status without its one-time token.
abbrev pub burn_token : SudoRequest → SudoRequest
burn_token sr = record sr {
  status = record (sr.status) {
    approval_token_hash = [];
    approval_token_expires_at = none;
    approval_token_secret_name = "";
  };
}

-- A failure to delete is only logged.
unfoldable pub delete_approval_token_secret : WriteReply → String → String → M (Unit {0})
delete_approval_token_secret reply namespace name =
    if is_empty name then return tt else tell (delete_secret namespace name reply)

pub record DecideReplies : Type 0 where
  pub time : ℕ
  pub listing : Reply (List SudoRequest)
  pub update : WriteReply
  pub delete : WriteReply

abbrev pub set_approved : ℕ → String → SudoRequest → SudoRequest
set_approved now by sr = burn_token (record sr {
  status = record (sr.status) {
    phase = Phase.approved;
    approved_by = by;
    approved_at = some now;
    playbook_auto_approved = false;
    playbook_target_uid = "";
    playbook_target_absent = false;
  };
})

abbrev pub set_denied : ℕ → String → Reason → SudoRequest → SudoRequest
set_denied now by reason sr = record sr {
  status = record (sr.status) {
    phase = Phase.denied;
    denied_by = by;
    denied_at = some now;
    denial_reason = reason;
  };
}

abbrev pub not_pending : Error
not_pending = errorf "request not pending (phase=%s)" []

unfoldable pub announce_approval : String → SudoRequest → M (Unit {0})
announce_approval by sr = do
  tell (record_event "Approved")
  tell (publish sr.uid (record (phase_event sr Phase.approved) { uid = sr.uid; approved_by = by }))

unfoldable pub approve_found : DecideReplies → String → SudoRequest → M (Unit {0})
unfolding announce_approval
approve_found r by sr = if not (is_pending sr.status.phase) then fail not_pending else (do
  tell (write_status sr (set_approved r.time by sr) r.update)
  check (λ e. e) r.update
  delete_approval_token_secret r.delete sr.namespace sr.status.approval_token_secret_name
  announce_approval by sr)

unfoldable pub approve : DecideReplies → String → String → M (Unit {0})
unfolding approve_found
approve r uid by = do sr ← lift (find_by_uid r.listing uid); approve_found r by sr

unfoldable pub announce_denial : String → String → SudoRequest → M (Unit {0})
announce_denial by reason sr = do
  tell (record_event "Denied")
  tell (
      publish sr.uid (record (phase_event sr Phase.denied) {
        uid = sr.uid;
        denied_by = by;
        denial_reason = said reason;
      }))

unfoldable pub deny_found : DecideReplies → String → String → SudoRequest → M (Unit {0})
unfolding announce_denial
deny_found r by reason sr = if not (is_pending sr.status.phase) then fail not_pending else (do
  tell (write_status sr (burn_token (set_denied r.time by (said reason) sr)) r.update)
  check (λ e. e) r.update
  delete_approval_token_secret r.delete sr.namespace sr.status.approval_token_secret_name
  announce_denial by reason sr)

unfoldable pub deny : DecideReplies → String → String → String → M (Unit {0})
unfolding deny_found
deny r uid by reason = do sr ← lift (find_by_uid r.listing uid); deny_found r by reason sr

-- `expires == nil || now.After(expires)`.
abbrev pub is_expired : ℕ → Option ℕ → Bool
is_expired now none = true
is_expired now (some t) = ltb t now

unfoldable pub verify_found : Controller → ℕ → String → SudoRequest → Result SudoRequest
verify_found c now token sr =
    if not (is_pending sr.status.phase)
    then err (errorf "not pending (phase=%s)" [])
    else if is_expired now sr.status.approval_token_expires_at
    then err approval_token_expired
    else if not (constant_time_equal (c.sha256_hex token) sr.status.approval_token_hash)
    then err (errorf "invalid approval token" [])
    else ok sr

unfoldable pub verify_approval_token :
    Controller → Reply (List SudoRequest) → ℕ → String → String → Result SudoRequest
unfolding verify_found
verify_approval_token c listing now uid token = elim (find_by_uid listing uid) [
  | Result.err e ↦ err e
  | Result.ok sr ↦ verify_found c now token sr
]
