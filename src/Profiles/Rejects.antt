-- ===== src/Profiles/Rejects.antt =====
-- profiles.go: which commands the preflight of a profile refuses.
use sudo_service.Prelude.{
  String, List, [], ◌∷◌, Option, none, some, Bool, true, false, ◌⊎◌, inl, inr, ◌≡◌, ◌↔◌, refl,
  subst, arith, All, Any, contains,
}
use sudo_service.Types.{is_ok}
use sudo_service.Profiles.{ExecutorProfile}
use sudo_service.Profiles.Commands.{
  Node, Shell, executable_of, nodes_or_none, command_uses_pipefail,
}
use sudo_service.Profiles.Preflight.{preflight_command}
use sudo_service.Profiles.Running.{Runs, UsesPipefail}
use sudo_service.Profiles.Executables.{
  executable_of-Runs, Runs-executable_of, command_uses_pipefail_iff,
}
use sudo_service.Profiles.Accepting.{Present, Accepts, preflight_command-Accepts}

-- A node that the parser finds runs an executable that the profile is known to lack.
abbrev pub RunsAbsent : List String → Option (List Node) → Type 0
RunsAbsent absent none = ⊥
RunsAbsent absent (some found) =
    Any (λ node. (x : String) × Runs node x × (contains absent x ≡ true)) found

abbrev pub Refused : Shell → String → Option ExecutorProfile → Type 0
Refused sh command none = ⊥
Refused sh command (some p) =
    RunsAbsent p.absent_executables (sh.nodes command)
    ⊎ (UsesPipefail sh command (sh.nodes command) × (p.shell.supports_pipefail ≡ false))

module _ (absent : List String) where
  Present-not :
      (node : Node) (x : String)
      → Runs node x
      → Present absent (executable_of node)
      → contains absent x ≡ false
  Present-not node x r h = subst (Present absent) (Runs-executable_of node x r) h

  decide_node :
      (node : Node)
      → ((x : String) × Runs node x × (contains absent x ≡ true))
        ⊎ Present absent (executable_of node)
  decide_node node = by_name (executable_of node) refl
    where
      by_test :
          (x : String) (b : Bool)
          → contains absent x ≡ b
          → Runs node x
          → ((y : String) × Runs node y × (contains absent y ≡ true)) ⊎ (contains absent x ≡ false)
      by_test x true e r = inl (x, r, e)
      by_test x false e r = inr e

      by_name :
          (o : Option String)
          → executable_of node ≡ o
          → ((x : String) × Runs node x × (contains absent x ≡ true)) ⊎ Present absent o
      by_name none e = inr tt
      by_name (some x) e = by_test x (contains absent x) refl (executable_of-Runs node x e)

  search :
      (found : List Node)
      → RunsAbsent absent (some found) ⊎ All (λ node. Present absent (executable_of node)) found
  search [] = inr tt
  search (node ∷ rest) = by_sides (decide_node node) (search rest)
    where
      by_sides :
          ((x : String) × Runs node x × (contains absent x ≡ true))
            ⊎ Present absent (executable_of node)
          → RunsAbsent absent (some rest) ⊎ All (λ n. Present absent (executable_of n)) rest
          → RunsAbsent absent (some (node ∷ rest))
            ⊎ All (λ n. Present absent (executable_of n)) (node ∷ rest)
      by_sides (inl h) k = inl (inl h)
      by_sides (inr h) (inl k) = inl (inr k)
      by_sides (inr h) (inr k) = inr (h, k)

  search_parsed :
      (o : Option (List Node))
      → RunsAbsent absent o ⊎ All (λ node. Present absent (executable_of node)) (nodes_or_none o)
  search_parsed none = inr tt
  search_parsed (some found) = search found

  clash :
      (found : List Node)
      → RunsAbsent absent (some found)
      → All (λ node. Present absent (executable_of node)) found
      → ⊥
  clash [] h k = h
  clash (node ∷ rest) (inl (x, r, e)) k = absurd (ground (arith, e, Present-not node x r k.0))
  clash (node ∷ rest) (inr h) k = clash rest h k.1

  clash_parsed :
      (o : Option (List Node))
      → RunsAbsent absent o
      → All (λ node. Present absent (executable_of node)) (nodes_or_none o)
      → ⊥
  clash_parsed none h k = h
  clash_parsed (some found) h k = clash found h k

-- A command is refused, or it is accepted.
decide_command :
    (sh : Shell) (command : String) (profile : Option ExecutorProfile)
    → Refused sh command profile ⊎ Accepts sh command profile
decide_command sh command none = inr tt
decide_command sh command (some p) =
    by_search (search_parsed p.absent_executables (sh.nodes command))
      (command_uses_pipefail sh command) p.shell.supports_pipefail refl refl
  where
    by_search :
        RunsAbsent p.absent_executables (sh.nodes command)
          ⊎ All
              (λ node. Present p.absent_executables (executable_of node))
              (nodes_or_none (sh.nodes command))
        → (u s : Bool) → command_uses_pipefail sh command ≡ u
        → p.shell.supports_pipefail ≡ s
        → Refused sh command (some p) ⊎ Accepts sh command (some p)
    by_search (inl h) u s e f = inl (inl h)
    by_search (inr h) false s e f = inr (h, inl e)
    by_search (inr h) true true e f = inr (h, inr f)
    by_search (inr h) true false e f = inl (inr ((command_uses_pipefail_iff sh command).0 e, f))

not_both :
    (sh : Shell) (command : String) (profile : Option ExecutorProfile)
    → Refused sh command profile
    → Accepts sh command profile
    → ⊥
not_both sh command none h k = h
not_both sh command (some p) (inl h) k = clash_parsed p.absent_executables (sh.nodes command) h k.0
not_both sh command (some p) (inr h) (k, inl e) =
    absurd (ground (arith, e, (command_uses_pipefail_iff sh command).1 h.0))
not_both sh command (some p) (inr h) (k, inr e) = absurd (ground (arith, e, h.1))

-- preflightCommand refuses a command exactly when a profile is selected of which one of two holds:
-- a call that the parser finds runs an executable that the profile is known to lack, or the command
-- uses pipefail and the profile's shell does not support it. What a call runs is read off its
-- leading literal words, by rules for command and exec with their options, for names with a
-- directory of the image, and for builtins; a quoted word ends the literal words. Pipefail is used
-- where a call of set has it behind an option with an o, or, in a command that does not parse,
-- where the pattern matches.
pub preflight_command_iff :
    (sh : Shell) (command : String) (profile : Option ExecutorProfile)
    → (is_ok (preflight_command sh command profile) ≡ false) ↔ Refused sh command profile
preflight_command_iff sh command profile = (
  λ h. is_refused (decide_command sh command profile) h,
  λ r. is_not_ok r (is_ok (preflight_command sh command profile)) refl,
)
  where
    is_refused :
        Refused sh command profile ⊎ Accepts sh command profile
        → is_ok (preflight_command sh command profile) ≡ false
        → Refused sh command profile
    is_refused (inl r) h = r
    is_refused (inr a) h =
        absurd (ground (arith, h, (preflight_command-Accepts sh command profile).1 a))

    is_not_ok :
        Refused sh command profile
        → (b : Bool) → is_ok (preflight_command sh command profile) ≡ b
        → b ≡ false
    is_not_ok r true e =
        absurd (not_both sh command profile r ((preflight_command-Accepts sh command profile).0 e))
    is_not_ok r false e = refl
