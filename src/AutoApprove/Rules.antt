-- ===== src/AutoApprove/Rules.antt =====
-- auto_approve.go: the allowlist loops decide a declarative reading of the rules.
use mathlib.Core.List.{append-nil}
use sudo_service.Prelude.{
  String, List, [], ◌∷◌, ◌++◌, Option, none, some, true, false, ◌≡◌, refl, ap, ◌⊎◌, inl, inr, ◌↔◌,
  ◌≢◌, length, length-append, is_cons, ◌==◌, leb, ◌&&◌, ◌∙◌, eq_iff, Bool-cases, arith, ◌===◌, Any,
  sym,
}
use sudo_service.AutoApprove.{
  AutoApproveRule, expected_image, same_at, matches_exact, matches_prefix, matches_rule,
  first_match, get_auto_approve_parsed_command, match_tokens,
}

-- What a rule means: its image, and its whole command or a beginning of it.
abbrev pub Allows : List String → String → AutoApproveRule → Type 0
Allows tokens image rule =
    (image ≡ expected_image rule)
    × (((rule.exact ≢ []) × (tokens ≡ rule.exact))
        ⊎ ((rule.prefix ≢ []) × ((rest : List String) × (tokens ≡ rule.prefix ++ rest))))

same_at_sound :
    (ts ws : List String) → same_at ts ws ≡ true → (rest : List String) × (ts ≡ ws ++ rest)
unfolding same_at
same_at_sound ts [] h = (ts, refl)
same_at_sound [] (w ∷ ws) h = ground arith
same_at_sound (t ∷ ts) (w ∷ ws) h =
    let both : (t ≡ w) × (same_at ts ws ≡ true) = ground (arith, eq_iff t w) in
    let (rest, e) = same_at_sound ts ws both.1 in (rest, cc (both.0, e))

same_at_complete : (ws rest : List String) → same_at (ws ++ rest) ws ≡ true
unfolding same_at
same_at_complete [] rest = refl
same_at_complete (w ∷ ws) rest = ground (arith, eq_iff w w, same_at_complete ws rest)

is_cons-ne : (ws : List String) → (is_cons ws ≡ true) ↔ (ws ≢ [])
is_cons-ne [] = ((λ h. cc), λ h. absurd (h refl))
is_cons-ne (w ∷ ws) = ((λ h e. cc), λ h. refl)

append-eq_of_length : (ws rest : List String) → length (ws ++ rest) ≡ length ws → rest ≡ []
append-eq_of_length ws [] h = refl
append-eq_of_length ws (r ∷ rest) h = absurd (omega (arith, length-append ws (r ∷ rest)))

matches_exact_iff : (ts ws : List String) → (matches_exact ts ws ≡ true) ↔ ((ws ≢ []) × (ts ≡ ws))
unfolding matches_exact
matches_exact_iff ts ws = (forth, back)
  where
    forth : (is_cons ws && length ts == length ws && same_at ts ws) ≡ true → (ws ≢ []) × (ts ≡ ws)
    forth h =
        let parts : (is_cons ws ≡ true) × (length ts ≡ length ws) × (same_at ts ws ≡ true) =
          ground arith in
        let (rest, e) = same_at_sound ts ws parts.2 in
        let done : rest ≡ [] = append-eq_of_length ws rest (ap length (sym e) ∙ parts.1) in
        ((is_cons-ne ws).0 parts.0, e ∙ ap (◌++◌ ws) done ∙ append-nil ws)

    back : (ws ≢ []) × (ts ≡ ws) → (is_cons ws && length ts == length ws && same_at ts ws) ≡ true
    back (n, e) = rw e (
        ground (
          arith,
          (is_cons-ne ws).1 n,
          append-nil ws,
          same_at_complete ws [],
          ap (λ (x : List String). same_at x ws) (append-nil ws),
        ))

matches_prefix_iff :
    (ts ws : List String)
    → (matches_prefix ts ws ≡ true) ↔ ((ws ≢ []) × ((rest : List String) × (ts ≡ ws ++ rest)))
unfolding matches_prefix
matches_prefix_iff ts ws = (forth, back)
  where
    forth :
        (is_cons ws && leb (length ws) (length ts) && same_at ts ws) ≡ true
        → (ws ≢ []) × ((rest : List String) × (ts ≡ ws ++ rest))
    forth h =
        let parts : (is_cons ws ≡ true) × (same_at ts ws ≡ true) = ground arith in
        ((is_cons-ne ws).0 parts.0, same_at_sound ts ws parts.1)

    back :
        (ws ≢ []) × ((rest : List String) × (ts ≡ ws ++ rest))
        → (is_cons ws && leb (length ws) (length ts) && same_at ts ws) ≡ true
    back (n, (rest, e)) =
        rw e (ground (arith, (is_cons-ne ws).1 n, length-append ws rest, same_at_complete ws rest))

matches_rule_iff :
    (tokens : List String) (image : String) (rule : AutoApproveRule)
    → (matches_rule tokens image rule ≡ true) ↔ Allows tokens image rule
unfolding matches_rule
matches_rule_iff tokens image rule = (forth, back)
  where
    forth : matches_rule tokens image rule ≡ true → Allows tokens image rule
    forth h =
        let parts : (image === expected_image rule ≡ true)
            × ((matches_exact tokens rule.exact ≡ true)
                ⊎ (matches_prefix tokens rule.prefix ≡ true)) =
          ground arith in
        (
          (eq_iff _ _).0 parts.0,
          elim parts.1 [
            | inl e ↦ inl ((matches_exact_iff _ _).0 e)
            | inr p ↦ inr ((matches_prefix_iff _ _).0 p)
          ],
        )

    back : Allows tokens image rule → matches_rule tokens image rule ≡ true
    back (i, inl e) =
        ground (arith, (eq_iff image (expected_image rule)).1 i, (matches_exact_iff _ _).1 e)
    back (i, inr p) =
        ground (arith, (eq_iff image (expected_image rule)).1 i, (matches_prefix_iff _ _).1 p)

first_match_iff :
    (rules : List AutoApproveRule) (tokens : List String) (image : String) (out : List String)
    → (first_match rules tokens image ≡ some out)
      ↔ ((tokens ≡ out) × Any (Allows tokens image) rules)
unfolding first_match
first_match_iff [] tokens image out = ((λ h. absurd (ground arith)), λ h. absurd h.1)
first_match_iff (rule ∷ rules) tokens image out =
    elim (Bool-cases (matches_rule tokens image rule)) [
      | inl hit ↦
          ((λ h. (ground arith, inl ((matches_rule_iff _ _ _).0 hit))), λ h. rw hit (ap some h.0))
      | inr miss ↦ (
        (λ h.
            let (e, later) = (first_match_iff rules tokens image out).0 (rw miss at h) in
            (e, inr later)),
        λ h. rw miss ((first_match_iff rules tokens image out).1 (h.0, later miss h.1)),
      )
    ]
  where
    later :
        matches_rule tokens image rule ≡ false
        → Any (Allows tokens image) (rule ∷ rules)
        → Any (Allows tokens image) rules
    later miss (inl a) = absurd (cc (miss, (matches_rule_iff tokens image rule).1 a))
    later miss (inr b) = b

-- A command is approved without a human exactly when shlex splits it into at least one token and
-- some rule allows the tokens under the image, by its whole command or by a non-empty beginning of
-- it; the argv that is returned is those tokens.
pub get_auto_approve_parsed_command_iff :
    (split : String → Option (List String)) (rules : List AutoApproveRule) (command image : String)
    (argv : List String)
    → (get_auto_approve_parsed_command split rules command image ≡ some argv)
      ↔ ((split command ≡ some argv) × (argv ≢ []) × Any (Allows argv image) rules)
unfolding get_auto_approve_parsed_command
get_auto_approve_parsed_command_iff split rules command image argv = by_split (split command) refl
  where
    by_split :
        (o : Option (List String))
        → split command ≡ o
        → (match_tokens rules (split command) image ≡ some argv)
          ↔ ((split command ≡ some argv) × (argv ≢ []) × Any (Allows argv image) rules)
    by_split none e = rw e ((λ h. absurd (ground arith)), λ h. absurd (ground arith))
    by_split (some []) e = rw e ((λ h. absurd (ground arith)), λ h. absurd (h.1 (ground arith)))
    by_split (some (t ∷ ts)) e = rw e (
      (λ h.
          let (same, allowed) = (first_match_iff rules (t ∷ ts) image argv).0 h in
          (ap some same, (λ n. ground arith), rw same at allowed)),
      λ h.
          let same : t ∷ ts ≡ argv = ground arith in
          (first_match_iff rules (t ∷ ts) image argv).1 (same, rw same h.2),
    )
