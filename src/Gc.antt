-- ===== src/Gc.antt =====
-- gc.go: the periodic sweep of expired Secrets and of pending requests past their age. The List
-- call selects the controller namespace and the label `app`; `items` is what it returned.
pub mod Complete
use sudo_service.Prelude.{
  ℕ, List, [], ◌∷◌, ◌++◌, none, some, Bool, true, false, not, is_empty, leb, if◌then◌else◌,
}
use sudo_service.Types.{pos, negsuc, SudoRequest, Phase, is_pending, api, Reply, found, refused}
use sudo_service.Cluster.{Secret, ExpiryLabel, WriteReply, write_error}
use sudo_service.Broadcaster.{phase_event}
use sudo_service.Effects.{Effect, write_status, delete_secret, publish, M, fail, return}
use sudo_service.Reconciler.Pending.{set_expired, expiry}

-- `now >= exp` for a label that parses; `now` is in Unix seconds.
abbrev pub is_due : ℕ → ExpiryLabel → Bool
is_due now ExpiryLabel.missing = false
is_due now ExpiryLabel.unparsable = false
is_due now (ExpiryLabel.at_time (pos t)) = leb t now
is_due now (ExpiryLabel.at_time (negsuc t)) = true

unfoldable pub sweep_all : ℕ → (Secret → WriteReply) → List Secret → List Effect
sweep_all now reply [] = []
sweep_all now reply (s ∷ rest) =
    let later = sweep_all now reply rest in
    if is_due now s.expires_at then delete_secret s.namespace s.name (reply s) ∷ later else later

unfoldable pub sweep_secrets : ℕ → (Secret → WriteReply) → Reply (List Secret) → M (Unit {0})
sweep_secrets now reply (refused e) = fail (api e)
sweep_secrets now reply (found items) = record {
  effects = sweep_all now reply items;
  result = (return tt).result;
}

-- What the deletion of the token Secret and the publication add, after an accepted update.
unfoldable pub after_expiry : WriteReply → Bool → SudoRequest → List Effect
after_expiry reply has_broadcaster sr =
    (if is_empty sr.status.approval_token_secret_name
      then []
      else delete_secret sr.namespace sr.status.approval_token_secret_name reply ∷ [])
    ++ (if has_broadcaster
        then publish sr.uid (record (phase_event sr Phase.expired) { uid = sr.uid }) ∷ []
        else [])

unfoldable pub expire_one : WriteReply → WriteReply → Bool → SudoRequest → List Effect
expire_one update reply has_broadcaster sr =
    write_status sr (set_expired sr) update
    ∷ elim (write_error update) [ none ↦ after_expiry reply has_broadcaster sr | some e ↦ [] ]

unfoldable pub must_expire : ℕ → SudoRequest → Bool
must_expire now sr = if not (is_pending sr.status.phase) then false else leb (expiry sr) now

unfoldable pub expire_all :
    ℕ
    → (SudoRequest → WriteReply)
    → (SudoRequest → WriteReply)
    → Bool
    → List SudoRequest
    → List Effect
expire_all now update reply has_broadcaster [] = []
expire_all now update reply has_broadcaster (sr ∷ rest) =
    let later = expire_all now update reply has_broadcaster rest in
    if must_expire now sr
    then expire_one (update sr) (reply sr) has_broadcaster sr ++ later
    else later

unfoldable pub expire_pending :
    ℕ
    → (SudoRequest → WriteReply)
    → (SudoRequest → WriteReply)
    → Bool
    → Reply (List SudoRequest)
    → M (Unit {0})
expire_pending now update reply has_broadcaster (refused e) = fail (api e)
expire_pending now update reply has_broadcaster (found items) = record {
  effects = expire_all now update reply has_broadcaster items;
  result = (return tt).result;
}
