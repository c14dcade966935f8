-- ===== src/Tests/Decisions.antt =====
-- The theorems on tokens, decisions and output, at concrete inputs.
use sudo_service.Prelude.{ℕ, ◌*◌, List, [], ◌∷◌, true, ◌≡◌, ◌↔◌, refl, length, take}
use sudo_service.Types.{approved, denied, second, ok, found, max_output_bytes}
use sudo_service.Cluster.{accepted}
use sudo_service.Effects.{commit_all}
use sudo_service.Executor.Output.{write_chunks, empty_writer}
use sudo_service.Executor.Bounded.{concat, write_chunks-take}
use sudo_service.Reconciler.Token.{constant_time_equal}
use sudo_service.Reconciler.Decide.{approve_found, deny_found, find_by_uid, verify_approval_token}
use sudo_service.Reconciler.Once.{Opens, constant_time_equal_iff, verify_approval_token_iff}
use sudo_service.Reconciler.Decided.{Closed, approve_found-Closed, deny_found-Closed}
use sudo_service.Tests.Requests.{controller, pending_request}
use sudo_service.Tests.Runs.{decide_replies}

verify_approval_token_iff_example :
    (verify_approval_token controller
        (found (pending_request ∷ []))
        (2000 * second)
        "uid-1"
        "secret"
      ≡ ok pending_request)
    ↔ ((find_by_uid (found (pending_request ∷ [])) "uid-1" ≡ ok pending_request)
        × Opens controller (2000 * second) "secret" pending_request)
verify_approval_token_iff_example =
    verify_approval_token_iff controller (found (pending_request ∷ [])) (2000 * second) "uid-1"
      "secret" pending_request

abbrev digest : List ℕ
digest = 7 ∷ 9 ∷ []

constant_time_equal_iff_example : (constant_time_equal digest digest ≡ true) ↔ (digest ≡ digest)
constant_time_equal_iff_example = constant_time_equal_iff digest digest

approve_found-Closed_example : Closed approved (
    commit_all pending_request
      (approve_found (record decide_replies { update = accepted }) "bob" pending_request).effects)
approve_found-Closed_example = approve_found-Closed decide_replies "bob" pending_request refl

deny_found-Closed_example : Closed denied (
    commit_all pending_request
      (deny_found (record decide_replies { update = accepted }) "bob" "no" pending_request).effects)
deny_found-Closed_example = deny_found-Closed decide_replies "bob" "no" pending_request refl

write_chunks-take_example :
    ((write_chunks empty_writer ((1 ∷ 2 ∷ []) ∷ (3 ∷ []) ∷ [])).retained
      ≡ take max_output_bytes (concat ((1 ∷ 2 ∷ []) ∷ (3 ∷ []) ∷ [])))
    × ((write_chunks empty_writer ((1 ∷ 2 ∷ []) ∷ (3 ∷ []) ∷ [])).total
        ≡ length (concat ((1 ∷ 2 ∷ []) ∷ (3 ∷ []) ∷ [])))
write_chunks-take_example = write_chunks-take ((1 ∷ 2 ∷ []) ∷ (3 ∷ []) ∷ [])
