-- ===== src/Tests/Retries.antt =====
-- A failed request that its requester submits again.
use sudo_service.Prelude.{[], ◌∷◌, false}
use sudo_service.Types.{SudoRequest, Phase, Reply, not_found}
use sudo_service.Cluster.{WriteReply}
use sudo_service.Lifecycle.Rules.{Each}
use sudo_service.Retry.Successor.{RetryReplies, retry_request}
use sudo_service.Retry.Linking.{OnLink, Links, Submits}
use sudo_service.Retry.Creating.{retry_request-Submits}
use sudo_service.Tests.Requests.{controller, request, plain_spec, fresh_status}

abbrev pub failed_request : SudoRequest
failed_request = request plain_spec (record fresh_status { phase = Phase.failed })

abbrev pub replies : RetryReplies
replies = record {
  existing = Reply.refused not_found;
  listing = Reply.found (failed_request ∷ []);
  create = WriteReply.accepted;
  created_uid = "uid-2";
  winner = Reply.refused not_found;
  link = record { latest = Reply.found failed_request; reply = WriteReply.accepted } ∷ [];
}

retry_request-Submits_example :
    Each
      (OnLink
        (Links failed_request)
        (Submits controller replies.listing failed_request "alice" false))
      (retry_request controller replies failed_request "alice" false)
retry_request-Submits_example =
    retry_request-Submits controller replies failed_request "alice" false
