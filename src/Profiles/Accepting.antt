-- ===== src/Profiles/Accepting.antt =====
-- profiles.go: the preflight of a profile, by the executable of each node.
use sudo_service.Prelude.{
  String, List, [], ◌∷◌, ◌++◌, Option, none, some, Bool, true, false, ◌⊎◌, inl, inr, ◌≡◌, ◌↔◌, refl,
  ap, ◌∙◌, arith, All, ◌===◌, eq_iff, if◌then◌else◌, contains, text_lt,
}
use sudo_service.Types.{Result, ok, err, is_ok}
use sudo_service.Profiles.{ExecutorProfile}
use sudo_service.Profiles.Commands.{
  Node, Shell, executable_of, insert_name, insert_seen, executables_in, nodes_or_none,
  visible_executables, command_uses_pipefail,
}
use sudo_service.Profiles.Preflight.{
  first_absent, profile_warnings, general_warnings, preflight_command,
}

-- An executable that can be told is not among the absent ones.
abbrev pub Present : List String → Option String → Type 0
Present absent none = Unit
Present absent (some x) = contains absent x ≡ false

-- No node of the command runs what the profile is known to lack, and `set -o pipefail` is used only
-- where the shell has it.
abbrev pub Accepts : Shell → String → Option ExecutorProfile → Type 0
Accepts sh command none = Unit
Accepts sh command (some p) =
    All (λ node. Present p.absent_executables (executable_of node))
      (nodes_or_none (sh.nodes command))
    × ((command_uses_pipefail sh command ≡ false) ⊎ (p.shell.supports_pipefail ≡ true))

module _ (absent : List String) where
  abbrev Free : List String → Type 0
  Free = All (λ x. contains absent x ≡ false)

  first_absent-Free : (names : List String) → first_absent absent names ≡ none → Free names
  unfolding first_absent
  first_absent-Free [] h = tt
  first_absent-Free (x ∷ xs) h = by_test (contains absent x) refl h (first_absent-Free xs)
    where
      by_test :
          (b : Bool)
          → contains absent x ≡ b
          → (if b then some x else first_absent absent xs) ≡ none
          → (first_absent absent xs ≡ none → Free xs)
          → Free (x ∷ xs)
      by_test true e k later = absurd (ground (arith, k))
      by_test false e k later = (e, later k)

  Free-first_absent : (names : List String) → Free names → first_absent absent names ≡ none
  unfolding first_absent
  Free-first_absent [] h = refl
  Free-first_absent (x ∷ xs) h =
      ap (λ b. if b then some x else first_absent absent xs) h.0 ∙ Free-first_absent xs h.1

  insert_name-Free :
      (x : String) (ys : List String)
      → Free (insert_name x ys) ↔ ((contains absent x ≡ false) × Free ys)
  unfolding insert_name
  insert_name-Free x [] = (λ h. h, λ h. h)
  insert_name-Free x (y ∷ ys) = by_tests (x === y) (text_lt x y) refl (insert_name-Free x ys)
    where
      by_tests :
          (b l : Bool)
          → (x === y) ≡ b
          → Free (insert_name x ys) ↔ ((contains absent x ≡ false) × Free ys)
          → Free (if b then y ∷ ys else if l then x ∷ (y ∷ ys) else y ∷ insert_name x ys)
            ↔ ((contains absent x ≡ false) × Free (y ∷ ys))
      by_tests true l e ih = (λ h. (ap (contains absent) ((eq_iff x y).0 e) ∙ h.0, h), λ h. h.1)
      by_tests false true e ih = (λ h. (h.0, h.1), λ h. (h.0, h.1))
      by_tests false false e ih =
          (λ h. let k = ih.0 h.1 in (k.0, (h.0, k.1)), λ h. (h.1.0, ih.1 (h.0, h.1.1)))

  insert_seen-Free :
      (o : Option String) (ys : List String)
      → Free (insert_seen o ys) ↔ (Present absent o × Free ys)
  unfolding insert_seen
  insert_seen-Free none ys = (λ h. (tt, h), λ h. h.1)
  insert_seen-Free (some x) ys = insert_name-Free x ys

  executables_in-Free :
      (nodes : List Node)
      → Free (executables_in nodes) ↔ All (λ node. Present absent (executable_of node)) nodes
  unfolding executables_in
  executables_in-Free [] = (λ h. tt, λ h. tt)
  executables_in-Free (node ∷ nodes) =
      let ih = executables_in-Free nodes in
      let one = insert_seen-Free (executable_of node) (executables_in nodes) in
      (λ h. let k = one.0 h in (k.0, ih.0 k.1), λ h. one.1 (h.0, ih.1 h.1))

module _ (sh : Shell) (command : String) (p : ExecutorProfile) where
  abbrev absent : List String
  absent = p.absent_executables

  abbrev searched : Option String
  searched = first_absent absent (visible_executables sh command)

  abbrev nodes : List Node
  nodes = nodes_or_none (sh.nodes command)

  accepted-Accepts : is_ok (profile_warnings sh command p) ≡ true → Accepts sh command (some p)
  unfolding profile_warnings visible_executables
  accepted-Accepts h = by_search searched refl
    where
      by_use :
          (u s : Bool)
          → command_uses_pipefail sh command ≡ u
          → p.shell.supports_pipefail ≡ s
          → searched ≡ none
          → (command_uses_pipefail sh command ≡ false) ⊎ (p.shell.supports_pipefail ≡ true)
      by_use false s f g e = inl f
      by_use true true f g e = inr g
      by_use true false f g e = absurd (ground (arith, e, h, f, g))

      by_search : (o : Option String) → searched ≡ o → Accepts sh command (some p)
      by_search (some x) e = absurd (ground (arith, e, h))
      by_search none e = (
        (executables_in-Free absent nodes).0 (first_absent-Free absent (executables_in nodes) e),
        by_use (command_uses_pipefail sh command) p.shell.supports_pipefail refl refl e,
      )

  Accepts-accepted : Accepts sh command (some p) → is_ok (profile_warnings sh command p) ≡ true
  unfolding profile_warnings visible_executables
  Accepts-accepted a = by_use a.1
    where
      none_absent : searched ≡ none
      none_absent =
          Free-first_absent absent (executables_in nodes) ((executables_in-Free absent nodes).1 a.0)

      by_use :
          (command_uses_pipefail sh command ≡ false) ⊎ (p.shell.supports_pipefail ≡ true)
          → is_ok (profile_warnings sh command p) ≡ true
      by_use (inl f) = ground (arith, none_absent, f)
      by_use (inr g) = ground (arith, none_absent, g)

pub preflight_command-Accepts :
    (sh : Shell) (command : String) (profile : Option ExecutorProfile)
    → (is_ok (preflight_command sh command profile) ≡ true) ↔ Accepts sh command profile
unfolding preflight_command
preflight_command-Accepts sh command none = (λ h. tt, λ h. refl)
preflight_command-Accepts sh command (some p) = (
  λ h. accepted-Accepts sh command p (passes (profile_warnings sh command p) h),
  λ a. passed (profile_warnings sh command p) (Accepts-accepted sh command p a),
)
  where
    passes :
        (r : Result (List String))
        → is_ok (elim r [
          | Result.err e ↦ err e
          | Result.ok ws ↦ ok (ws ++ general_warnings sh command)
        ])
          ≡ true
        → is_ok r ≡ true
    passes (err e) h = h
    passes (ok ws) h = refl

    passed :
        (r : Result (List String))
        → is_ok r ≡ true
        → is_ok (elim r [
          | Result.err e ↦ err e
          | Result.ok ws ↦ ok (ws ++ general_warnings sh command)
        ])
          ≡ true
    passed (err e) h = h
    passed (ok ws) h = refl
