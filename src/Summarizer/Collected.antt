-- ===== src/Summarizer/Collected.antt =====
-- summarizer.go: what the loop over the effects of an answer collects.
use sudo_service.Prelude.{
  String, List, [], ◌∷◌, ◌++◌, Bool, true, false, ◌||◌, not, ◌≡◌, refl, ap, ◌∙◌, subst, arith, All,
  ◌===◌, eq_iff, if◌then◌else◌, contains, All-snoc,
}
use sudo_service.Types.{ok-inj, guard_iff, not_iff, ok}
use sudo_service.Summarizer.{permission_effect_order, canonicalize}
use sudo_service.Summarizer.Canonical.{New, ===_sym}

contains-snoc :
    (c : List String) (e y : String) → contains (c ++ e ∷ []) y ≡ (contains c y || (e === y))
unfolding contains
contains-snoc [] e y = ground arith
contains-snoc (x ∷ c) e y = by_test (x === y) (contains-snoc c e y)
  where
    by_test :
        (b : Bool)
        → contains (c ++ e ∷ []) y ≡ (contains c y || (e === y))
        → (if b then true else contains (c ++ e ∷ []) y)
          ≡ ((if b then true else contains c y) || (e === y))
    by_test true ih = refl
    by_test false ih = ih

New-snoc : (c : List String) (e : String) → New c → contains c e ≡ false → New (c ++ e ∷ [])
unfolding contains
New-snoc [] e new h = (refl, tt)
New-snoc (x ∷ c) e new h = (
  contains-snoc c e x ∙ ground (arith, new.0, ===_sym x e false (ground (arith, h))),
  New-snoc c e new.1 (ground (arith, h)),
)

absorbed :
    (c : List String) (e y : String)
    → contains c e ≡ true
    → contains c y ≡ (contains c y || (e === y))
absorbed c e y h = by_test (e === y) refl
  where
    by_test : (b : Bool) → (e === y) ≡ b → contains c y ≡ (contains c y || b)
    by_test true g = ground (arith, subst (λ z. contains c z ≡ true) ((eq_iff e y).0 g) h)
    by_test false g = ground arith

added :
    (c : List String) (e y : String)
    → contains (if contains c e then c else c ++ e ∷ []) y ≡ (contains c y || (e === y))
added c e y = by_test (contains c e) refl
  where
    by_test :
        (b : Bool)
        → contains c e ≡ b
        → contains (if b then c else c ++ e ∷ []) y ≡ (contains c y || (e === y))
    by_test true g = absorbed c e y g
    by_test false g = contains-snoc c e y

abbrev pub Known : List String → Type 0
Known = All (λ e. contains permission_effect_order e ≡ true)

step-New : (c : List String) (e : String) → New c → New (if contains c e then c else c ++ e ∷ [])
step-New c e new = by_test (contains c e) refl
  where
    by_test : (b : Bool) → contains c e ≡ b → New (if b then c else c ++ e ∷ [])
    by_test true g = new
    by_test false g = New-snoc c e new g

step-Known :
    (c : List String) (e : String)
    → Known c
    → contains permission_effect_order e ≡ true
    → Known (if contains c e then c else c ++ e ∷ [])
step-Known c e known h = by_test (contains c e)
  where
    by_test : (b : Bool) → Known (if b then c else c ++ e ∷ [])
    by_test true = known
    by_test false = All-snoc (λ x. contains permission_effect_order x ≡ true) c e known h

-- The effects are the given ones, each once, and known.
abbrev pub Collects : List String → List String → List String → Type 0
Collects c es out =
    New out
    × Known out
    × ((y : String) → contains out y ≡ (contains c y || contains es y))
    × Known es

or_if : (a t r : Bool) → ((a || t) || r) ≡ (a || (if t then true else r))
or_if a t r = ground arith

pub canonicalize-Collects :
    (c es out : List String) → canonicalize c es ≡ ok out → New c → Known c → Collects c es out
unfolding canonicalize contains
canonicalize-Collects c [] out h new known =
    subst (Collects c []) (ok-inj c out h) (new, known, λ y. ground arith, tt)
canonicalize-Collects c (e ∷ es) out h new known =
    let known_first = (guard_iff (not (contains permission_effect_order e)) _ _).0 h in
    let known_head = (not_iff (contains permission_effect_order e)).0 known_first.0 in
    let ih =
      canonicalize-Collects (if contains c e then c else c ++ e ∷ []) es out known_first.1
        (step-New c e new) (step-Known c e known known_head) in
    (
      ih.0,
      ih.1,
      λ y.
          ih.2 y
          ∙ (ap (λ b. b || contains es y) (added c e y)
              ∙ or_if (contains c y) (e === y) (contains es y)),
      (known_head, ih.3),
    )
