-- ===== src/Profiles/Executables.antt =====
-- profiles.go: the executable of a node, and the use of pipefail, as the rules tell them.
use mathlib.Core.Option.{some-injective}
use sudo_service.Prelude.{
  String, List, [], ◌∷◌, Option, none, some, Bool, true, false, ◌&&◌, ◌||◌, ◌⊎◌, inl, inr, ◌≡◌, ◌↔◌,
  refl, sym, ap, ◌∙◌, subst, arith, ◌===◌, if◌then◌else◌, contains, any, Any,
}
use sudo_service.Profiles.Commands.{
  Word, Node, call, test_clause, proc_subst, other_node, Shell, shell_builtins, literal_args,
  target_of, catalog_executable_name, executable_named, executable_of, sets_option, sets_pipefail,
  is_pipefail_call, is_pipefail, command_uses_pipefail,
}
use sudo_service.Profiles.Running.{Literals, Target, Runs, runs, Names, Sets, sets, UsesPipefail}
use sudo_service.Profiles.Visible.{
  literal_args-Literals, Literals-literal_args, target_of-Target, Target-target_of, catalog-Named,
  Named-catalog,
}

abbrev unless_builtin : Option String → Option String
unless_builtin o = elim o [
  | none ↦ none
  | some name ↦ if contains shell_builtins name then none else some name
]

module _ (words : List Word) (x : String) where
  named_call :
      (target : List String)
      → Target (literal_args words) target
      → unless_builtin (executable_named target) ≡ some x
      → Runs (call words) x
  unfolding executable_named
  named_call [] t h = absurd (ground (arith, h))
  named_call (program ∷ rest) t h = by_name (catalog_executable_name program) refl h
    where
      by_test :
          (name : String) (b : Bool)
          → catalog_executable_name program ≡ some name
          → contains shell_builtins name ≡ b
          → (if b then none else some name) ≡ some x
          → Runs (call words) x
      by_test name true e f k = absurd (ground (arith, k))
      by_test name false e f k =
          let same = some-injective name x k in
          runs (literal_args-Literals words) t (catalog-Named program x (e ∙ k))
            (subst (λ y. contains shell_builtins y ≡ false) same f)

      by_name :
          (o : Option String)
          → catalog_executable_name program ≡ o
          → unless_builtin o ≡ some x
          → Runs (call words) x
      by_name none e k = absurd (ground (arith, k))
      by_name (some name) e k = by_test name (contains shell_builtins name) e refl k

  executable_of-call : executable_of (call words) ≡ some x → Runs (call words) x
  unfolding executable_of executable_named
  executable_of-call h = by_target (target_of-Target (literal_args words))
    where
      by_target :
          (target_of (literal_args words) ≡ [])
            ⊎ Target (literal_args words) (target_of (literal_args words))
          → Runs (call words) x
      by_target (inl e) =
          absurd (ground (arith, sym (ap (λ t. unless_builtin (executable_named t)) e) ∙ h))
      by_target (inr t) = named_call (target_of (literal_args words)) t h

pub executable_of-Runs : (node : Node) (x : String) → executable_of node ≡ some x → Runs node x
unfolding executable_of
executable_of-Runs (call words) x h = executable_of-call words x h
executable_of-Runs test_clause x h = absurd (ground (arith, h))
executable_of-Runs proc_subst x h = absurd (ground (arith, h))
executable_of-Runs other_node x h = absurd (ground (arith, h))

pub Runs-executable_of : (node : Node) (x : String) → Runs node x → executable_of node ≡ some x
unfolding executable_of executable_named
Runs-executable_of (call words) x (runs {args} {rest} {program} l t n b) =
    ap (λ ws. unless_builtin (executable_named (target_of ws))) (Literals-literal_args words args l)
    ∙ (ap (λ ws. unless_builtin (executable_named ws)) (Target-target_of args (program ∷ rest) t)
        ∙ (ap unless_builtin (Named-catalog program x n) ∙ ap (λ k. if k then none else some x) b))
Runs-executable_of test_clause x r = elim r [ ]
Runs-executable_of proc_subst x r = elim r [ ]
Runs-executable_of other_node x r = elim r [ ]

sets_pipefail-Names : (args : List String) → sets_pipefail args ≡ true → Names args
unfolding sets_pipefail sets_option
sets_pipefail-Names [] h = absurd (ground (arith, h))
sets_pipefail-Names (arg ∷ []) h = absurd (ground (arith, h))
sets_pipefail-Names (arg ∷ (value ∷ args)) h =
    by_tests (sets_option arg) (value === "pipefail") refl refl h
      (sets_pipefail-Names (value ∷ args))
  where
    by_tests :
        (b d : Bool)
        → sets_option arg ≡ b
        → (value === "pipefail") ≡ d
        → (b && d || sets_pipefail (value ∷ args)) ≡ true
        → (sets_pipefail (value ∷ args) ≡ true → Names (value ∷ args))
        → Names (arg ∷ (value ∷ args))
    by_tests true true e f h k = Names.here (ground (arith, e)) f
    by_tests true false e f h k = Names.later (k h)
    by_tests false d e f h k = Names.later (k h)

Names-sets_pipefail : (args : List String) → Names args → sets_pipefail args ≡ true
unfolding sets_pipefail sets_option
Names-sets_pipefail _ (Names.here {arg} {value} e f) = ground (arith, e, f)
Names-sets_pipefail (arg ∷ []) (Names.later h) = elim h [ ]
Names-sets_pipefail (arg ∷ (value ∷ args)) (Names.later h) =
    ground (arith, Names-sets_pipefail (value ∷ args) h)

is_pipefail-Sets : (node : Node) → is_pipefail node ≡ true → Sets node
unfolding is_pipefail is_pipefail_call
is_pipefail-Sets (call words) h = by_args (literal_args words) (literal_args-Literals words) h
  where
    by_args :
        (args : List String)
        → Literals words args
        → is_pipefail_call args ≡ true
        → Sets (call words)
    by_args [] l h = absurd (ground (arith, h))
    by_args (value ∷ args) l h = by_test (value === "set") refl h
      where
        by_test :
            (b : Bool)
            → (value === "set") ≡ b
            → (b && sets_pipefail args) ≡ true
            → Sets (call words)
        by_test true e k = sets l e (sets_pipefail-Names args k)
        by_test false e k = absurd (ground (arith, k))
is_pipefail-Sets test_clause h = absurd (ground (arith, h))
is_pipefail-Sets proc_subst h = absurd (ground (arith, h))
is_pipefail-Sets other_node h = absurd (ground (arith, h))

Sets-is_pipefail : (node : Node) → Sets node → is_pipefail node ≡ true
unfolding is_pipefail is_pipefail_call
Sets-is_pipefail (call words) (sets {value} {args} l e n) =
    ap is_pipefail_call (Literals-literal_args words (value ∷ args) l)
    ∙ (ap (λ b. b && sets_pipefail args) e ∙ Names-sets_pipefail args n)
Sets-is_pipefail test_clause r = elim r [ ]
Sets-is_pipefail proc_subst r = elim r [ ]
Sets-is_pipefail other_node r = elim r [ ]

any-Sets : (nodes : List Node) → any is_pipefail nodes ≡ true → Any Sets nodes
unfolding any
any-Sets [] h = absurd (ground (arith, h))
any-Sets (node ∷ nodes) h = by_test (is_pipefail node) refl h (any-Sets nodes)
  where
    by_test :
        (b : Bool)
        → is_pipefail node ≡ b
        → (b || any is_pipefail nodes) ≡ true
        → (any is_pipefail nodes ≡ true → Any Sets nodes)
        → Any Sets (node ∷ nodes)
    by_test true e h k = inl (is_pipefail-Sets node e)
    by_test false e h k = inr (k h)

Sets-any : (nodes : List Node) → Any Sets nodes → any is_pipefail nodes ≡ true
unfolding any
Sets-any [] h = elim h [ ]
Sets-any (node ∷ nodes) (inl h) = ap (λ b. b || any is_pipefail nodes) (Sets-is_pipefail node h)
Sets-any (node ∷ nodes) (inr h) = ground (arith, Sets-any nodes h)

pub command_uses_pipefail_iff :
    (sh : Shell) (command : String)
    → (command_uses_pipefail sh command ≡ true) ↔ UsesPipefail sh command (sh.nodes command)
unfolding command_uses_pipefail
command_uses_pipefail_iff sh command = by_parse (sh.nodes command)
  where
    by_parse :
        (o : Option (List Node))
        → (elim o [ none ↦ sh.matches_pipefail command | some nodes ↦ any is_pipefail nodes ]
            ≡ true)
          ↔ UsesPipefail sh command o
    by_parse none = (λ h. h, λ h. h)
    by_parse (some nodes) = (any-Sets nodes, Sets-any nodes)
