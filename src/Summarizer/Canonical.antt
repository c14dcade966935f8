-- ===== src/Summarizer/Canonical.antt =====
-- summarizer.go: what an accepted assessment says.
use sudo_service.Prelude.{
  ℕ, ◌<◌, String, List, [], ◌∷◌, Bool, true, false, ◌≡◌, refl, sym, ap, ◌∙◌, subst, arith, All, ltb,
  ◌===◌, eq_iff, Bool-cases, if◌then◌else◌, contains, select, inl, inr,
}
use sudo_service.Summarizer.{permission_effect_order, rank_from, rank, insert_ranked, sort_ranked}

-- The ranks rise along the list.
abbrev Rising : List String → Type 0
Rising [] = Unit
Rising (x ∷ xs) = All (λ y. rank x < rank y) xs × Rising xs

order-Rising : Rising permission_effect_order
unfolding rank_from
order-Rising = omega arith

abbrev or_is : (String → Bool) → String → String → Bool
or_is p e x = if e === x then true else p x

All-select :
    (P : String → Type 0) (p : String → Bool) (xs : List String) → All P xs → All P (select p xs)
unfolding select
All-select P p [] h = tt
All-select P p (x ∷ xs) h = by_test (p x) (All-select P p xs h.1)
  where
    by_test : (b : Bool) → All P (select p xs) → All P (if b then x ∷ select p xs else select p xs)
    by_test true later = (h.0, later)
    by_test false later = later

not-ltb : (a b : ℕ) → a < b → ltb b a ≡ false
not-ltb a b h = ground arith

lt-ltb : (a b : ℕ) → a < b → ltb a b ≡ true
lt-ltb a b h = ground arith

insert_first :
    (e : String) (ys : List String) → All (λ y. rank e < rank y) ys → insert_ranked e ys ≡ e ∷ ys
unfolding insert_ranked
insert_first e [] h = refl
insert_first e (y ∷ ys) h =
    ap (λ b. if b then y ∷ insert_ranked e ys else e ∷ (y ∷ ys)) (not-ltb (rank e) (rank y) h.0)

insert_later :
    (e x : String) (ys : List String)
    → rank x < rank e
    → insert_ranked e (x ∷ ys) ≡ x ∷ insert_ranked e ys
unfolding insert_ranked
insert_later e x ys h =
    ap (λ b. if b then x ∷ insert_ranked e ys else e ∷ (x ∷ ys)) (lt-ltb (rank x) (rank e) h)

pub select-cong :
    (p q : String → Bool) (xs : List String) → All (λ x. p x ≡ q x) xs → select p xs ≡ select q xs
unfolding select
select-cong p q [] h = refl
select-cong p q (x ∷ xs) h =
    ap (λ ys. if p x then x ∷ ys else ys) (select-cong p q xs h.1)
    ∙ ap (λ b. if b then x ∷ select q xs else select q xs) h.0

select_if :
    (p : String → Bool) (x : String) (xs : List String) (b : Bool)
    → p x ≡ b
    → select p (x ∷ xs) ≡ (if b then x ∷ select p xs else select p xs)
unfolding select
select_if p x xs b h = ap (λ t. if t then x ∷ select p xs else select p xs) h

pub ===_sym : (a b : String) (t : Bool) → (a === b) ≡ t → (b === a) ≡ t
===_sym a b true h = (eq_iff b a).1 (sym ((eq_iff a b).0 h))
===_sym a b false h = elim (Bool-cases (b === a)) [
  | inl e ↦ ground (arith, h, (eq_iff a b).1 (sym ((eq_iff b a).0 e)))
  | inr e ↦ e
]

contains_if :
    (x : String) (xs : List String) (e : String) (b : Bool)
    → (x === e) ≡ b
    → contains (x ∷ xs) e ≡ (if b then true else contains xs e)
unfolding contains
contains_if x xs e b h = ap (λ t. if t then true else contains xs e) h

All-at :
    (P : String → Type 0) (xs : List String) (e : String) → contains xs e ≡ true → All P xs → P e
unfolding contains
All-at P [] e h all = absurd (ground (arith, h))
All-at P (x ∷ xs) e h all = by_test (x === e) refl (All-at P xs e)
  where
    by_test : (b : Bool) → (x === e) ≡ b → (contains xs e ≡ true → All P xs → P e) → P e
    by_test true g later = subst P ((eq_iff x e).0 g) all.0
    by_test false g later = later (sym (contains_if x xs e false g) ∙ h) all.1

-- A member of higher rank is another one.
rank-other : (x y : String) → rank x < rank y → (x === y) ≡ false
rank-other x y h = elim (Bool-cases (x === y)) [
  | inl e ↦ absurd (omega (arith, h, ap (λ z. rank z) ((eq_iff x y).0 e)))
  | inr e ↦ e
]

All-map :
    (P Q : String → Type 0) (xs : List String) → ((x : String) → P x → Q x) → All P xs → All Q xs
All-map P Q [] f h = tt
All-map P Q (x ∷ xs) f h = (f x h.0, All-map P Q xs f h.1)

-- The first member is the one that is inserted.
insert_here :
    (p : String → Bool) (x e : String) (xs : List String)
    → All (λ y. rank x < rank y) xs
    → p e ≡ false
    → x ≡ e
    → insert_ranked e (select p (x ∷ xs)) ≡ select (or_is p e) (x ∷ xs)
insert_here p x e xs rises new same =
    ap (insert_ranked e) (select_if p x xs false (ap p same ∙ new))
    ∙ (insert_first e (select p xs) (
          All-select (λ y. rank e < rank y) p xs
            (subst (λ z. All (λ y. rank z < rank y) xs) same rises))
        ∙ (ap (λ z. z ∷ select p xs) (sym same)
            ∙ (ap (◌∷◌ x) (
                  select-cong p (or_is p e) xs (
                    All-map (λ y. rank x < rank y) (λ y. p y ≡ or_is p e y) xs
                      (λ y h.
                        ap (λ b. if b then true else p y)
                          (sym (subst (λ z. (z === y) ≡ false) same (rank-other x y h))))
                      rises))
                ∙ sym (
                    select_if (or_is p e) x xs true
                      (ap (λ b. if b then true else p x) ((eq_iff e x).1 (sym same)))))))

-- An effect that is inserted into the effects selected so far takes its place among them.
insert_ranked-select :
    (p : String → Bool) (e : String) (xs : List String)
    → Rising xs
    → contains xs e ≡ true
    → p e ≡ false
    → insert_ranked e (select p xs) ≡ select (or_is p e) xs
unfolding contains
insert_ranked-select p e [] rises known new = absurd (ground (arith, known))
insert_ranked-select p e (x ∷ xs) rises known new =
    by_test (x === e) refl (insert_ranked-select p e xs rises.1)
  where
    kept :
        (b : Bool)
        → p x ≡ b
        → rank x < rank e
        → insert_ranked e (select p xs) ≡ select (or_is p e) xs
        → insert_ranked e (if b then x ∷ select p xs else select p xs)
          ≡ (if b then x ∷ select (or_is p e) xs else select (or_is p e) xs)
    kept true g lower ih = insert_later e x (select p xs) lower ∙ ap (◌∷◌ x) ih
    kept false g lower ih = ih

    by_test :
        (b : Bool)
        → (x === e) ≡ b
        → (contains xs e ≡ true
            → p e ≡ false
            → insert_ranked e (select p xs) ≡ select (or_is p e) xs)
        → insert_ranked e (select p (x ∷ xs)) ≡ select (or_is p e) (x ∷ xs)
    by_test true g ih = insert_here p x e xs rises.0 new ((eq_iff x e).0 g)
    by_test false g ih =
        let later : contains xs e ≡ true = sym (contains_if x xs e false g) ∙ known in
        let lower = All-at (λ y. rank x < rank y) xs e later rises.0 in
        ap (insert_ranked e) (select_if p x xs (p x) refl)
        ∙ (kept (p x) refl lower (ih later new)
            ∙ sym (
                select_if (or_is p e) x xs (p x)
                  (ap (λ b. if b then true else p x) (===_sym x e false g))))

-- No member occurs again later.
abbrev pub New : List String → Type 0
New [] = Unit
New (x ∷ xs) = (contains xs x ≡ false) × New xs

pub sort_ranked-select :
    (xs : List String)
    → New xs
    → All (λ e. contains permission_effect_order e ≡ true) xs
    → sort_ranked xs ≡ select (contains xs) permission_effect_order
unfolding sort_ranked contains select
sort_ranked-select [] new known = none_selected permission_effect_order
  where
    none_selected : (order : List String) → [] ≡ select (λ e. false) order
    none_selected [] = refl
    none_selected (x ∷ order) = none_selected order
sort_ranked-select (x ∷ xs) new known =
    ap (insert_ranked x) (sort_ranked-select xs new.1 known.1)
    ∙ insert_ranked-select (contains xs) x permission_effect_order order-Rising known.0 new.0
