-- ===== src/Reconciler/Update.antt =====
-- reconciler.go: updateStatus and markFailed. `first` answers the first write; each later attempt
-- of RetryOnConflict is a fresh read and a write, and the list ends where client-go gives up.
use sudo_service.Prelude.{List, [], ◌∷◌, none, some, if◌then◌else◌}
use sudo_service.Types.{
  SudoRequest, Phase, Reason, api, conflict, is_conflict, Reply, found, refused,
}
use sudo_service.Cluster.{WriteReply, write_error}
use sudo_service.Broadcaster.{phase_event}
use sudo_service.Effects.{
  write_status, record_event, publish, M, return, fail, tell, ◌>>=◌, ◌>>◌, Requeue, done,
}

pub record Attempt : Type 0 where
  pub latest : Reply SudoRequest
  pub reply : WriteReply

pub record UpdateReplies : Type 0 where
  pub first : WriteReply
  pub attempts : List Attempt

-- What an update makes of the answer to its write: the object, another attempt, or the error.
unfoldable pub settle : WriteReply → SudoRequest → M SudoRequest → M SudoRequest
settle reply written again = elim (write_error reply) [
  | none ↦ return written
  | some e ↦ if is_conflict e then again else fail (api e)
]

-- One round: a fresh read, the mutation, the write.
unfoldable pub attempt :
    (SudoRequest → SudoRequest) → Reply SudoRequest → WriteReply → M SudoRequest → M SudoRequest
attempt mutate (refused e) reply again = if is_conflict e then again else fail (api e)
attempt mutate (found latest) reply again =
    tell (write_status latest (mutate latest) reply) >> settle reply (mutate latest) again

unfoldable pub retry_on_conflict : (SudoRequest → SudoRequest) → List Attempt → M SudoRequest
unfolding settle attempt
retry_on_conflict mutate [] = fail (api conflict)
retry_on_conflict mutate (a ∷ rest) =
    attempt mutate a.latest a.reply (retry_on_conflict mutate rest)

-- The persisted object, or the error. `base` is the object as it was read, `sr` its copy in memory.
unfoldable pub update_status :
    (SudoRequest → SudoRequest) → UpdateReplies → SudoRequest → SudoRequest → M SudoRequest
unfolding settle
update_status mutate r base sr =
    tell (write_status base (mutate sr) r.first)
    >> settle r.first (mutate sr) (retry_on_conflict mutate r.attempts)

abbrev pub set_failed : Reason → SudoRequest → SudoRequest
set_failed reason s = record s {
  status = record (s.status) { phase = Phase.failed; failure_reason = reason };
}

unfoldable pub mark_failed : Reason → UpdateReplies → SudoRequest → M Requeue
mark_failed reason r sr = do
  persisted ← update_status (set_failed reason) r sr sr
  tell (record_event "Failed")
  tell (
      publish persisted.uid (record (phase_event persisted Phase.failed) {
        uid = persisted.uid;
        failure_reason = reason;
      }))
  return done
