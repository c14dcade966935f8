-- ===== src/Summarizer/Accepted.antt =====
-- summarizer.go: which answers of the model are accepted, and as what.
use sudo_service.Prelude.{
  ◌≤◌, String, List, [], ◌∷◌, Bool, true, false, ◌&&◌, ◌||◌, ◌≡◌, refl, sym, ◌∙◌, subst, arith, All,
  is_cons, is_empty, ◌==◌, if◌then◌else◌, contains, select, trim_space, any_char, count_fields,
}
use sudo_service.Types.{ok-inj, errorf, Result, ok, err}
use sudo_service.Summarizer.{
  read_only, permission_effect_order, PermissionModelResponse, canonicalize, mutates, sort_ranked,
  order_effects, validate_effects, validate_request, validate_permission_response,
}
use sudo_service.Summarizer.Canonical.{select-cong, sort_ranked-select}
use sudo_service.Summarizer.Collected.{Collects, canonicalize-Collects}

-- One line of at most thirty words, without blanks at its ends.
abbrev pub IsRequest : String → String → Type 0
IsRequest given accepted =
    (accepted ≡ trim_space given)
    × (is_empty accepted ≡ false)
    × (any_char (λ n. n == 13 || n == 10) accepted ≡ false)
    × (count_fields false accepted ≤ 30)

-- The effects of the vocabulary that were named, in its order; all that were named are in it, and none
-- contradicts READ_ONLY.
abbrev pub AreEffects : List String → List String → Type 0
AreEffects given accepted =
    (is_cons given ≡ true)
    × All (λ e. contains permission_effect_order e ≡ true) given
    × (accepted ≡ select (contains given) permission_effect_order)
    × ((contains given read_only && mutates given) ≡ false)

order_effects-inv :
    (c out : List String)
    → order_effects c ≡ ok out
    → ((contains c read_only && mutates c) ≡ false) × (sort_ranked c ≡ out)
unfolding order_effects
order_effects-inv c out h = by_test (contains c read_only && mutates c) refl h
  where
    by_test :
        (b : Bool)
        → (contains c read_only && mutates c) ≡ b
        → (if b
            then Result.err (errorf "READ_ONLY cannot be combined with mutation effects" [])
            else ok (sort_ranked c))
          ≡ ok out
        → ((contains c read_only && mutates c) ≡ false) × (sort_ranked c ≡ out)
    by_test true e k = (ground (arith, k), ground (arith, k))
    by_test false e k = (e, ok-inj (sort_ranked c) out k)

same_mix :
    (c given : List String)
    → ((y : String) → contains c y ≡ contains given y)
    → (contains c read_only && mutates c) ≡ false
    → (contains given read_only && mutates given) ≡ false
same_mix c given same h = ground (
  arith,
  h,
  same read_only,
  same "CHANGES_CLUSTER",
  same "CREATES_RESOURCE",
  same "RESTARTS_WORKLOAD",
  same "DELETES_RESOURCE",
  same "SECURITY_CONFIG",
)

collected-Effects :
    (given c out : List String)
    → is_cons given ≡ true
    → Collects [] given c
    → order_effects c ≡ ok out
    → AreEffects given out
unfolding contains
collected-Effects given c out some_given collects h =
    let ordered = order_effects-inv c out h in
    let same : (y : String) → contains c y ≡ contains given y = λ y. collects.2 y in
    (
      some_given,
      collects.3,
      sym ordered.1
          ∙ (sort_ranked-select c collects.0 collects.1
              ∙ select-cong (contains c) (contains given) permission_effect_order
                  (everywhere same permission_effect_order)),
      same_mix c given same ordered.0,
    )
  where
    everywhere :
        {p q : String → Bool}
        → ((y : String) → p y ≡ q y)
        → (xs : List String) → All (λ y. p y ≡ q y) xs
    everywhere h [] = tt
    everywhere h (x ∷ xs) = (h x, everywhere h xs)

validate_effects-Effects :
    (given out : List String) → validate_effects given ≡ ok out → AreEffects given out
unfolding validate_effects
validate_effects-Effects given out h = by_list (canonicalize [] given) refl
  where
    by_list : (r : Result (List String)) → canonicalize [] given ≡ r → AreEffects given out
    by_list (err e) g = absurd (ground (arith, g, h))
    by_list (ok c) g =
        collected-Effects given c out (ground (arith, h)) (canonicalize-Collects [] given c g tt tt)
          (ground (arith, g, h))

validate_request-Request :
    (given : String)
    → validate_request (trim_space given) ≡ ok tt
    → IsRequest given (trim_space given)
unfolding validate_request
validate_request-Request given h = (refl, ground (arith, h), ground (arith, h), ground (arith, h))

-- An answer of the model that validatePermissionResponse accepts becomes a request of one line and
-- at most 30 words, not empty and trimmed, and effects that are exactly the named ones, each once
-- and in the fixed order of the vocabulary; all that were named are in the vocabulary, there is
-- one, and READ_ONLY is not among them together with a mutation.
pub validate_permission_response-Accepted :
    (response out : PermissionModelResponse)
    → validate_permission_response response ≡ ok out
    → IsRequest response.request out.request × AreEffects response.effects out.effects
unfolding validate_permission_response
validate_permission_response-Accepted response out h =
    by_checks (validate_request (trim_space response.request)) (validate_effects response.effects)
      refl refl
  where
    by_checks :
        (v : Result (Unit {0}))
        → (w : Result (List String)) → validate_request (trim_space response.request) ≡ v
        → validate_effects response.effects ≡ w
        → IsRequest response.request out.request × AreEffects response.effects out.effects
    by_checks (err e) w f g = absurd (ground (arith, f, h))
    by_checks (ok u) (err e) f g = absurd (ground (arith, f, g, h))
    by_checks (ok u) (ok effects) f g =
        let same : out ≡ record { request = trim_space response.request; effects = effects } =
          ground (arith, f, g, h) in
        subst (λ o. IsRequest response.request o.request × AreEffects response.effects o.effects)
          (sym same)
          (
            validate_request-Request response.request f,
            validate_effects-Effects response.effects effects g,
          )
