-- ===== src/Retry/Fresh.antt =====
-- retry.go: what a search for a duplicate that finds nothing means.
use sudo_service.Prelude.{
  String, List, [], ◌∷◌, Option, none, some, Bool, true, false, not, ◌||◌, ◌≡◌, ◌≢◌, refl, sym, ap,
  ◌∙◌, arith, if◌then◌else◌, ◌===◌, ===_refl, All,
}
use sudo_service.Types.{is_ok, SudoRequest, Result, ok, err, Reply, found, refused, api}
use sudo_service.Effects.{Effect, lift, on_reply, return, fail, ◌>>=◌}
use sudo_service.Controller.{Controller, controller_namespace}
use sudo_service.Retry.Fingerprint.{execution_fingerprint, first_duplicate, is_open, is_digest}
use sudo_service.Lifecycle.Rules.{Each, Each->>=, Each-on_reply}
use sudo_service.Retry.Successor.{find_pending_duplicate}

-- `d` is closed, of another requester or of another fingerprint.
abbrev pub Differs : Controller → SudoRequest → SudoRequest → Type 0
Differs c s d =
    is_open d.status.phase ≡ true
    → (d.spec.requester === s.spec.requester) ≡ true
    → execution_fingerprint c d (controller_namespace c)
      ≢ execution_fingerprint c s (controller_namespace c)

-- The list was read, and nothing in it is a duplicate.
abbrev pub IsFresh : Controller → Reply (List SudoRequest) → SudoRequest → Type 0
IsFresh c (found items) s = All (Differs c s) items
IsFresh c (refused e) s = false ≡ true

is_some : Option SudoRequest → Bool
is_some none = false
is_some (some d) = true

found_none : Result (Option SudoRequest) → Option SudoRequest
found_none (ok o) = o
found_none (err e) = none

head-none :
    (o q d : Bool) (later : Option SudoRequest) (x : SudoRequest)
    → (if not o || not q then later else if d then some x else later) ≡ none
    → (o ≡ true → q ≡ true → d ≡ false) × (later ≡ none)
unfolding is_some
head-none true true true later x h = ground (arith, ap is_some h)
head-none true true false later x h = (λ _ _. refl, h)
head-none true false d later x h = (λ _ g. ground (arith, g), h)
head-none false q d later x h = (λ g _. ground (arith, g), h)

module _ (c : Controller) (s : SudoRequest) where
  fresh :
      (want : String)
      → execution_fingerprint c s (controller_namespace c) ≡ ok want
      → (items : List SudoRequest) → first_duplicate c (controller_namespace c) s want items ≡ none
      → All (Differs c s) items
  unfolding first_duplicate
  fresh want e [] h = tt
  fresh want e (d ∷ rest) h =
      let fp = execution_fingerprint c d (controller_namespace c) in
      let steps =
        head-none (is_open d.status.phase) (d.spec.requester === s.spec.requester)
          (is_digest want fp) (first_duplicate c (controller_namespace c) s want rest) d h in
      (
        λ o q same.
            ground (arith, sym (steps.0 o q) ∙ (ap (is_digest want) (same ∙ e) ∙ ===_refl want)),
        fresh want e rest steps.1,
      )

  search-IsFresh :
      (fp : Result String) (listing : Reply (List SudoRequest))
      → execution_fingerprint c s (controller_namespace c) ≡ fp
      → (lift fp >>= λ want.
          on_reply listing
            (λ items. return (first_duplicate c (controller_namespace c) s want items))
            (λ e. fail (api e))).result
        ≡ ok none
      → IsFresh c listing s
  unfolding found_none
  search-IsFresh (ok want) (found items) e h = fresh want e items (ap found_none h)
  search-IsFresh (ok want) (refused x) e h = ap is_ok h
  search-IsFresh (err x) (found items) e h = ground (arith, ap is_ok h)
  search-IsFresh (err x) (refused y) e h = ap is_ok h

  pub find_pending_duplicate-IsFresh :
      (listing : Reply (List SudoRequest))
      → (find_pending_duplicate c listing s).result ≡ ok none
      → IsFresh c listing s
  unfolding find_pending_duplicate
  find_pending_duplicate-IsFresh listing h =
      search-IsFresh (execution_fingerprint c s (controller_namespace c)) listing refl h

-- The search only reads.
pub find_pending_duplicate-Each :
    (P : Effect → Type 0) (c : Controller) (listing : Reply (List SudoRequest)) (s : SudoRequest)
    → Each P (find_pending_duplicate c listing s)
unfolding find_pending_duplicate
find_pending_duplicate-Each P c listing s =
    Each->>= P (lift (execution_fingerprint c s (controller_namespace c))) _ tt
      λ want. Each-on_reply P listing _ _ (λ items. tt) λ e. tt
