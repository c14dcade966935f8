-- ===== src/Profiles/Running.antt =====
-- profiles.go: what a node of a command runs and whether it sets pipefail, by rules.
use sudo_service.Prelude.{
  String, List, [], ◌∷◌, Option, none, some, Bool, true, false, ◌||◌, ◌⊎◌, ◌≡◌, is_empty, ◌==◌,
  ◌===◌, contains, any_char, Any, has_prefix, trim_prefix, split_last, trim_left_by,
}
use sudo_service.Profiles.Commands.{Word, Node, call, Shell, image_dirs, shell_builtins}

-- 61 is the number of `=`.
abbrev pub is_assignment : String → Bool
is_assignment value = any_char (λ n. n == 61) value

-- The words up to the first one that is no literal, is empty, or assigns a variable.
pub data Literals : List Word → List String → Type 0 where
  at_end : Literals [] []
  at_quoted : {words : List Word} → Literals (none ∷ words) []
  at_empty :
      {value : String} {words : List Word}
      → is_empty value ≡ true
      → Literals (some value ∷ words) []
  at_assignment :
      {value : String} {words : List Word}
      → is_assignment value ≡ true
      → Literals (some value ∷ words) []
  literal :
      {value : String} {words : List Word} {args : List String}
      → is_empty value ≡ false
      → is_assignment value ≡ false
      → Literals words args
      → Literals (some value ∷ words) (value ∷ args)

-- `-v` and `-V`, alone or among other letters, only ask what would be run.
abbrev pub only_asks : String → Bool
only_asks arg = any_char (λ n. n == 118 || n == 86) (trim_prefix arg "-")

-- What is run by the arguments of `command`: the first that is no option.
pub data AfterCommand : List String → List String → Type 0 where
  here :
      {arg : String} {args : List String}
      → has_prefix arg "-" ≡ false
      → AfterCommand (arg ∷ args) (arg ∷ args)
  skip :
      {arg : String} {args target : List String}
      → has_prefix arg "-" ≡ true
      → only_asks arg ≡ false
      → AfterCommand args target
      → AfterCommand (arg ∷ args) target

-- What is run by the arguments of `exec`: the first that is no option, where `-a` takes a name.
pub data AfterExec : List String → List String → Type 0 where
  here :
      {arg : String} {args : List String}
      → has_prefix arg "-" ≡ false
      → AfterExec (arg ∷ args) (arg ∷ args)
  named :
      {arg name : String} {args target : List String}
      → (arg === "-a") ≡ true
      → AfterExec args target
      → AfterExec (arg ∷ (name ∷ args)) target
  skip :
      {arg : String} {args target : List String}
      → has_prefix arg "-" ≡ true
      → (arg === "-a") ≡ false
      → AfterExec args target
      → AfterExec (arg ∷ args) target

pub data Target : List String → List String → Type 0 where
  itself :
      {value : String} {args : List String}
      → (value === "command") ≡ false
      → (value === "exec") ≡ false
      → Target (value ∷ args) (value ∷ args)
  of_command :
      {value : String} {args target : List String}
      → (value === "command") ≡ true
      → AfterCommand args target
      → Target (value ∷ args) target
  of_exec :
      {value : String} {args target : List String}
      → (value === "exec") ≡ true
      → AfterExec args target
      → Target (value ∷ args) target

abbrev pub has_slash : String → Bool
has_slash value = any_char (λ n. n == 47) value

-- `x` is the program without a directory, or in one of the image's directories.
abbrev pub Named : String → String → Type 0
Named program x =
    ((has_slash program ≡ false) × (program ≡ x))
    ⊎ ((has_slash program ≡ true)
        × (contains image_dirs (split_last 47 program).0 ≡ true)
        × ((split_last 47 program).1 ≡ x))

-- The node is a call that runs the executable `x`, which is no builtin.
pub data Runs : Node → String → Type 0 where
  runs :
      {words : List Word} {args rest : List String} {program x : String}
      → Literals words args
      → Target args (program ∷ rest)
      → Named program x
      → contains shell_builtins x ≡ false
      → Runs (call words) x

-- Behind its signs, `+` and `-`, the option has an `o` or an `O`.
abbrev pub takes_name : String → Bool
takes_name arg = any_char (λ n. n == 79 || n == 111) (trim_left_by (λ n. n == 43 || n == 45) arg)

-- Somewhere `pipefail` follows such an option.
pub data Names : List String → Type 0 where
  here :
      {arg value : String} {args : List String}
      → takes_name arg ≡ true
      → (value === "pipefail") ≡ true
      → Names (arg ∷ (value ∷ args))
  later : {arg : String} {args : List String} → Names args → Names (arg ∷ args)

pub data Sets : Node → Type 0 where
  sets :
      {words : List Word} {value : String} {args : List String}
      → Literals words (value ∷ args)
      → (value === "set") ≡ true
      → Names args
      → Sets (call words)

-- A node of the parsed command sets pipefail; where it does not parse, the pattern matches.
abbrev pub UsesPipefail : Shell → String → Option (List Node) → Type 0
UsesPipefail sh command none = sh.matches_pipefail command ≡ true
UsesPipefail sh command (some nodes) = Any Sets nodes
