-- ===== src/Pushover.antt =====
-- pushover.go: SendApproval, from the answer of the Pushover API on.
use sudo_service.Prelude.{
  ℕ, String, List, [], ◌∷◌, Bool, false, not, leb, ◌==◌, if◌then◌else◌, decimal, join,
}
use sudo_service.Types.{ℤ, pos, negsuc, Error, errorf, wrapf, Result, ok, err}

pub record PushoverResponse : Type 0 where
  pub status : ℤ
  pub request : String
  pub errors : List String

-- The request fails, or is answered with a status code and a body that decodes or not.
pub data PushoverReply : Type 0 where
  not_sent : Error → PushoverReply
  answered : ℕ → String → Result PushoverResponse → PushoverReply

abbrev pub is_one : ℤ → Bool
is_one (pos n) = n == 1
is_one (negsuc n) = false

-- The request's id, if Pushover took the message.
unfoldable pub check_response : PushoverResponse → Result String
check_response pr =
    if not (is_one pr.status)
    then err (errorf "pushover error: %s" (join "; " pr.errors ∷ []))
    else ok pr.request

unfoldable pub send_approval : PushoverReply → Result String
unfolding check_response
send_approval (not_sent e) = err e
send_approval (answered code body decoded) =
    if leb 300 code
    then err (errorf "pushover %d: %s" (decimal code ∷ body ∷ []))
    else elim decoded [
      | Result.err e ↦ err (wrapf "decode pushover response: %w" [] e)
      | Result.ok pr ↦ check_response pr
    ]
