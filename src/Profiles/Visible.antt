-- ===== src/Profiles/Visible.antt =====
-- profiles.go: the executables that are visible in a command, and pipefail, are those of the rules.
use mathlib.Core.Option.{some-injective}
use sudo_service.Prelude.{
  String, List, [], ◌∷◌, none, some, Bool, true, false, ◌||◌, not, ◌⊎◌, inl, inr, ◌≡◌, refl, sym,
  ap, ◌∙◌, subst, arith, is_empty, ◌===◌, if◌then◌else◌, contains, has_prefix, split_last, eq_iff,
}
use sudo_service.Profiles.Commands.{
  Word, image_dirs, literal_args, command_target, exec_target_from, exec_target, target_of,
  catalog_executable_name,
}
use sudo_service.Profiles.Running.{
  is_assignment, Literals, only_asks, AfterCommand, AfterExec, Target, has_slash, Named,
}

pub literal_args-Literals : (words : List Word) → Literals words (literal_args words)
unfolding literal_args
literal_args-Literals [] = Literals.at_end
literal_args-Literals (none ∷ words) = Literals.at_quoted
literal_args-Literals (some value ∷ words) =
    by_tests (is_empty value) (is_assignment value) refl refl (literal_args-Literals words)
  where
    by_tests :
        (b d : Bool)
        → is_empty value ≡ b
        → is_assignment value ≡ d
        → Literals words (literal_args words)
        → Literals (some value ∷ words) (if b || d then [] else value ∷ literal_args words)
    by_tests true d e f h = Literals.at_empty e
    by_tests false true e f h = Literals.at_assignment f
    by_tests false false e f h = Literals.literal e f h

pub Literals-literal_args :
    (words : List Word) (args : List String) → Literals words args → literal_args words ≡ args
unfolding literal_args
Literals-literal_args _ _ Literals.at_end = refl
Literals-literal_args _ _ Literals.at_quoted = refl
Literals-literal_args _ _ (Literals.at_empty e) = ground (arith, e)
Literals-literal_args _ _ (Literals.at_assignment e) = ground (arith, e)
Literals-literal_args (some value ∷ words) _ (Literals.literal {args} e f h) =
    ap (λ t. if t || is_assignment value then [] else value ∷ literal_args words) e
    ∙ (ap (λ t. if t then [] else value ∷ literal_args words) f
        ∙ ap (λ xs. value ∷ xs) (Literals-literal_args words args h))

command_target-AfterCommand :
    (args : List String) → (command_target args ≡ []) ⊎ AfterCommand args (command_target args)
unfolding command_target
command_target-AfterCommand [] = inl refl
command_target-AfterCommand (arg ∷ args) =
    by_tests (has_prefix arg "-") (only_asks arg) refl refl (command_target-AfterCommand args)
  where
    by_tests :
        (b d : Bool)
        → has_prefix arg "-" ≡ b
        → only_asks arg ≡ d
        → (command_target args ≡ []) ⊎ AfterCommand args (command_target args)
        → ((if not b then arg ∷ args else if d then [] else command_target args) ≡ [])
          ⊎ AfterCommand
              (arg ∷ args)
              (if not b then arg ∷ args else if d then [] else command_target args)
    by_tests false d e f h = inr (AfterCommand.here e)
    by_tests true true e f h = inl refl
    by_tests true false e f (inl h) = inl h
    by_tests true false e f (inr h) = inr (AfterCommand.skip e f h)

AfterCommand-command_target :
    (args target : List String) → AfterCommand args target → command_target args ≡ target
unfolding command_target
AfterCommand-command_target _ _ (AfterCommand.here e) = ground (arith, e)
AfterCommand-command_target (arg ∷ args) target (AfterCommand.skip e f h) =
    ap (λ t. if not t then arg ∷ args else if only_asks arg then [] else command_target args) e
    ∙ (ap (λ t. if t then [] else command_target args) f
        ∙ AfterCommand-command_target args target h)

exec_target-AfterExec :
    (args : List String)
    → (exec_target_from false args ≡ []) ⊎ AfterExec args (exec_target_from false args)
unfolding exec_target_from
exec_target-AfterExec [] = inl refl
exec_target-AfterExec (arg ∷ []) = by_test (has_prefix arg "-") refl
  where
    by_test :
        (b : Bool)
        → has_prefix arg "-" ≡ b
        → ((if b then [] else arg ∷ []) ≡ []) ⊎ AfterExec (arg ∷ []) (if b then [] else arg ∷ [])
    by_test true e = inl refl
    by_test false e = inr (AfterExec.here e)
exec_target-AfterExec (arg ∷ (name ∷ args)) =
    by_tests (has_prefix arg "-") (arg === "-a") refl refl (exec_target-AfterExec (name ∷ args))
      (exec_target-AfterExec args)
  where
    by_tests :
        (b d : Bool)
        → has_prefix arg "-" ≡ b
        → (arg === "-a") ≡ d
        → (exec_target_from false (name ∷ args) ≡ [])
          ⊎ AfterExec (name ∷ args) (exec_target_from false (name ∷ args))
        → (exec_target_from false args ≡ []) ⊎ AfterExec args (exec_target_from false args)
        → ((if b then exec_target_from d (name ∷ args) else arg ∷ (name ∷ args)) ≡ [])
          ⊎ AfterExec
              (arg ∷ (name ∷ args))
              (if b then exec_target_from d (name ∷ args) else arg ∷ (name ∷ args))
    by_tests false d e f h k = inr (AfterExec.here e)
    by_tests true true e f h (inl k) = inl k
    by_tests true true e f h (inr k) = inr (AfterExec.named f k)
    by_tests true false e f (inl h) k = inl h
    by_tests true false e f (inr h) k = inr (AfterExec.skip e f h)

is_option : (arg : String) → (arg === "-a") ≡ true → has_prefix arg "-" ≡ true
is_option arg e = subst (λ a. has_prefix a "-" ≡ true) (sym ((eq_iff arg "-a").0 e)) refl

AfterExec-exec_target :
    (args target : List String) → AfterExec args target → exec_target_from false args ≡ target
unfolding exec_target_from
AfterExec-exec_target _ _ (AfterExec.here e) = ground (arith, e)
AfterExec-exec_target (arg ∷ (name ∷ args)) target (AfterExec.named e h) =
    ap (λ t. if t then exec_target_from (arg === "-a") (name ∷ args) else arg ∷ (name ∷ args))
      (is_option arg e)
    ∙ (ap (λ t. exec_target_from t (name ∷ args)) e ∙ AfterExec-exec_target args target h)
AfterExec-exec_target (arg ∷ args) target (AfterExec.skip e f h) =
    ap (λ t. if t then exec_target_from (arg === "-a") args else arg ∷ args) e
    ∙ (ap (λ t. exec_target_from t args) f ∙ AfterExec-exec_target args target h)

pub target_of-Target : (args : List String) → (target_of args ≡ []) ⊎ Target args (target_of args)
unfolding target_of
target_of-Target [] = inl refl
target_of-Target (value ∷ args) =
    by_tests (value === "command") (value === "exec") refl refl (command_target-AfterCommand args)
      (exec_target-AfterExec args)
  where
    by_tests :
        (b d : Bool)
        → (value === "command") ≡ b
        → (value === "exec") ≡ d
        → (command_target args ≡ []) ⊎ AfterCommand args (command_target args)
        → (exec_target args ≡ []) ⊎ AfterExec args (exec_target args)
        → ((if b then command_target args else if d then exec_target args else value ∷ args) ≡ [])
          ⊎ Target
              (value ∷ args)
              (if b then command_target args else if d then exec_target args else value ∷ args)
    by_tests true d e f (inl h) k = inl h
    by_tests true d e f (inr h) k = inr (Target.of_command e h)
    by_tests false true e f h (inl k) = inl k
    by_tests false true e f h (inr k) = inr (Target.of_exec f k)
    by_tests false false e f h k = inr (Target.itself e f)

not_command : (value : String) → (value === "exec") ≡ true → (value === "command") ≡ false
not_command value e = subst (λ a. (a === "command") ≡ false) (sym ((eq_iff value "exec").0 e)) refl

pub Target-target_of : (args target : List String) → Target args target → target_of args ≡ target
unfolding target_of
Target-target_of _ _ (Target.itself e f) = ground (arith, e, f)
Target-target_of (value ∷ args) target (Target.of_command e h) =
    ap
      (λ t.
        if t
        then command_target args
        else if value === "exec"
        then exec_target args
        else value ∷ args)
      e
    ∙ AfterCommand-command_target args target h
Target-target_of (value ∷ args) target (Target.of_exec e h) =
    ap
      (λ t.
        if t
        then command_target args
        else if value === "exec"
        then exec_target args
        else value ∷ args)
      (not_command value e)
    ∙ (ap (λ t. if t then exec_target args else value ∷ args) e
        ∙ AfterExec-exec_target args target h)

pub catalog-Named :
    (program x : String) → catalog_executable_name program ≡ some x → Named program x
unfolding catalog_executable_name
catalog-Named program x =
    by_tests (has_slash program) (contains image_dirs (split_last 47 program).0) refl refl
  where
    by_tests :
        (b d : Bool)
        → has_slash program ≡ b
        → contains image_dirs (split_last 47 program).0 ≡ d
        → (if not b then some program else if d then some (split_last 47 program).1 else none)
          ≡ some x
        → Named program x
    by_tests false d e f h = inl (e, some-injective _ _ h)
    by_tests true true e f h = inr (e, f, some-injective _ _ h)
    by_tests true false e f h = absurd (ground (arith, h))

pub Named-catalog :
    (program x : String) → Named program x → catalog_executable_name program ≡ some x
unfolding catalog_executable_name
Named-catalog program x (inl (e, p)) = ground (arith, e) ∙ ap some p
Named-catalog program x (inr (e, f, p)) = ground (arith, e, f) ∙ ap some p
