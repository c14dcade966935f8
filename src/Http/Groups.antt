-- ===== src/Http/Groups.antt =====
-- auth.go: what it is to be in a group.
use sudo_service.Prelude.{
  String, List, [], ◌∷◌, Bool, true, false, ◌||◌, ◌≡◌, ◌↔◌, ◌⊎◌, inl, inr, refl, sym, ap, ◌∙◌,
  subst, arith, Any, ◌===◌, if◌then◌else◌, text_append, text_drop, eq_iff, Bool-cases, has_prefix,
  trim_prefix,
}
use Prim.Native.String.{slice}
use text.Mathlib.TextPositions.{slice-append_right, len-append}
use text.Mathlib.TextEquality.{starts_with_iff}
use sudo_service.Http.Auth.{HumanClaims, is_group, is_in_group, is_in_group_list}

-- The group is in the claims, by its name or behind a slash.
abbrev pub InGroup : String → HumanClaims → Type 0
InGroup g claims = Any (λ x. (x ≡ g) ⊎ (x ≡ text_append "/" g)) claims.groups

trim_prefix_if :
    (x : String) {b : Bool}
    → has_prefix x "/" ≡ b
    → trim_prefix x "/" ≡ (if b then text_drop 1 x else x)
unfolding trim_prefix
trim_prefix_if x e = ap (λ b. if b then text_drop 1 x else x) e

drop_slash : (t : String) → text_drop 1 (text_append "/" t) ≡ t
drop_slash t = ap (slice (text_append "/" t) 1) (len-append "/" t) ∙ slice-append_right "/" t

trim_prefix-cases :
    (x g : String) → (trim_prefix x "/" === g) ≡ true → (x ≡ g) ⊎ (x ≡ text_append "/" g)
trim_prefix-cases x g h = elim (Bool-cases (has_prefix x "/")) [
  | inl e ↦
      let p = (starts_with_iff x "/").0 e in
      inr (
        sym p.1
        ∙ ap (text_append "/") (
            sym (drop_slash p.0)
            ∙ (ap (text_drop 1) p.1
                ∙ (sym (trim_prefix_if x e) ∙ (eq_iff (trim_prefix x "/") g).0 h))))
  | inr e ↦ inl (sym (trim_prefix_if x e) ∙ (eq_iff (trim_prefix x "/") g).0 h)
]

is_group-cases : (g x : String) → is_group g x ≡ true → (x ≡ g) ⊎ (x ≡ text_append "/" g)
is_group-cases g x h = split (x === g) (x === text_append "/" g) refl refl h
  where
    split :
        (a b : Bool)
        → (x === g) ≡ a
        → (x === text_append "/" g) ≡ b
        → (a || b || trim_prefix x "/" === g) ≡ true
        → (x ≡ g) ⊎ (x ≡ text_append "/" g)
    split true b e f k = inl ((eq_iff x g).0 e)
    split false true e f k = inr ((eq_iff x (text_append "/" g)).0 f)
    split false false e f k = trim_prefix-cases x g k

is_group-of : (g x : String) → (x ≡ g) ⊎ (x ≡ text_append "/" g) → is_group g x ≡ true
is_group-of g x (inl e) =
    subst (λ y. is_group g y ≡ true) (sym e) (ground (arith, (eq_iff g g).1 refl))
is_group-of g x (inr e) =
    let slashed : String = text_append "/" g in
    subst (λ y. is_group g y ≡ true) (sym e) (ground (arith, (eq_iff slashed slashed).1 refl))

is_in_group_list-Any :
    (g : String) (xs : List String)
    → is_in_group_list g xs ≡ true
    → Any (λ x. (x ≡ g) ⊎ (x ≡ text_append "/" g)) xs
unfolding is_in_group_list
is_in_group_list-Any g [] h = ground (arith, h)
is_in_group_list-Any g (x ∷ xs) h = by_test (is_group g x) refl h (is_in_group_list-Any g xs)
  where
    by_test :
        (b : Bool)
        → is_group g x ≡ b
        → (if b then true else is_in_group_list g xs) ≡ true
        → (is_in_group_list g xs ≡ true → Any (λ x. (x ≡ g) ⊎ (x ≡ text_append "/" g)) xs)
        → Any (λ x. (x ≡ g) ⊎ (x ≡ text_append "/" g)) (x ∷ xs)
    by_test true e k later = inl (is_group-cases g x e)
    by_test false e k later = inr (later k)

Any-is_in_group_list :
    (g : String) (xs : List String)
    → Any (λ x. (x ≡ g) ⊎ (x ≡ text_append "/" g)) xs
    → is_in_group_list g xs ≡ true
unfolding is_in_group_list
Any-is_in_group_list g [] h = absurd h
Any-is_in_group_list g (x ∷ xs) (inl h) =
    ap (λ b. if b then true else is_in_group_list g xs) (is_group-of g x h)
Any-is_in_group_list g (x ∷ xs) (inr h) = ground (arith, Any-is_in_group_list g xs h)

-- x
pub is_in_group_iff :
    (g : String) (claims : HumanClaims) → (is_in_group claims g ≡ true) ↔ InGroup g claims
is_in_group_iff g claims =
    (is_in_group_list-Any g claims.groups, Any-is_in_group_list g claims.groups)
