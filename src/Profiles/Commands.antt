-- ===== src/Profiles/Commands.antt =====
-- profiles.go: what the preflight reads off a command. The shell parser and the regular expressions are
-- parameters: a command is the list of the nodes that syntax.Walk visits, and a pattern is the texts
-- that it matches.
use sudo_service.Prelude.{
  String, List, [], ◌∷◌, Option, none, some, Bool, true, false, ◌&&◌, ◌||◌, not, is_empty, ◌==◌,
  ◌===◌, if◌then◌else◌, contains, any, any_char, has_prefix, trim_prefix, split_last, text_lt,
  trim_left_by,
}

-- A word of a command is its value, if it is one literal.
abbrev pub Word : Type 0
Word = Option String

-- syntax.CallExpr, syntax.TestClause, syntax.ProcSubst, and any other node.
pub data Node : Type 0 where
  call : List Word → Node
  test_clause proc_subst other_node : Node

-- What the program takes from the parser (`none` on an error) and from its regular expressions.
-- `base64_literals` are those outside of SSH public keys, and `sleep` is the number and the unit of the
-- first match.
pub record Shell : Type 0 where
  pub nodes : String → Option (List Node)
  pub installs_package : String → Bool
  pub executes_base64 : String → Bool
  pub decodes_base64 : String → Bool
  pub base64_literals : String → List String
  pub has_heredoc : String → Bool
  pub matches_pipefail : String → Bool
  pub matches_bashism : String → Bool
  pub runs_long_tool : String → Bool
  pub sleep : String → Option (String × String)

-- The leading words that are literals, not empty, and no assignments; 61 is the number of `=`.
unfoldable pub literal_args : List Word → List String
literal_args [] = []
literal_args (none ∷ words) = []
literal_args (some value ∷ words) =
    let rest = literal_args words in
    if is_empty value || any_char (λ n. n == 61) value then [] else value ∷ rest

-- 118 and 86 are the numbers of `v` and `V`.
unfoldable pub command_target : List String → List String
command_target [] = []
command_target (arg ∷ args) =
    let rest = command_target args in
    if not (has_prefix arg "-")
    then arg ∷ args
    else if any_char (λ n. n == 118 || n == 86) (trim_prefix arg "-")
    then []
    else rest

-- The loop of execTarget; `skips` says that the option before takes this argument.
unfoldable pub exec_target_from : Bool → List String → List String
exec_target_from skips [] = []
exec_target_from skips (arg ∷ args) =
    let rest = exec_target_from (not skips && arg === "-a") args in
    if skips || has_prefix arg "-" then rest else arg ∷ args

abbrev pub exec_target : List String → List String
exec_target args = exec_target_from false args

abbrev pub image_dirs : List String
image_dirs = "/bin" ∷ "/sbin" ∷ "/usr/bin" ∷ "/usr/sbin" ∷ "/usr/local/bin" ∷ "/usr/local/sbin" ∷ []

-- The name by which the catalogue knows an executable; 47 is the number of the slash.
unfoldable pub catalog_executable_name : String → Option String
catalog_executable_name value =
    let parts = split_last 47 value in
    if not (any_char (λ n. n == 47) value)
    then some value
    else if contains image_dirs parts.0
    then some parts.1
    else none

abbrev pub shell_builtins : List String
shell_builtins =
    "." ∷ ":" ∷ "alias" ∷ "bg" ∷ "break" ∷ "cd" ∷ "command" ∷ "continue" ∷ "echo" ∷ "eval" ∷ "exec"
    ∷ "exit" ∷ "export" ∷ "false" ∷ "fg" ∷ "getopts" ∷ "hash" ∷ "jobs" ∷ "kill" ∷ "printf" ∷ "pwd"
    ∷ "read" ∷ "readonly" ∷ "return" ∷ "set" ∷ "shift" ∷ "test" ∷ "times" ∷ "trap" ∷ "true" ∷ "type"
    ∷ "ulimit" ∷ "umask" ∷ "unalias" ∷ "unset" ∷ "wait" ∷ []

-- The words that are run once `command` or `exec` is looked through.
unfoldable pub target_of : List String → List String
target_of [] = []
target_of (value ∷ args) =
    if value === "command"
    then command_target args
    else if value === "exec"
    then exec_target args
    else value ∷ args

unfoldable pub executable_named : List String → Option String
executable_named [] = none
executable_named (arg ∷ args) = catalog_executable_name arg

-- The executable that a node runs, unless it is a builtin or cannot be told.
unfoldable pub executable_of : Node → Option String
unfolding target_of executable_named
executable_of (call words) = elim (executable_named (target_of (literal_args words))) [
  | none ↦ none
  | some name ↦ if contains shell_builtins name then none else some name
]
executable_of _ = none

-- Into a sorted list, unless the name is there.
unfoldable pub insert_name : String → List String → List String
insert_name x [] = x ∷ []
insert_name x (y ∷ ys) =
    let rest = insert_name x ys in
    if x === y then y ∷ ys else if text_lt x y then x ∷ (y ∷ ys) else y ∷ rest

unfoldable pub insert_seen : Option String → List String → List String
unfolding insert_name
insert_seen none names = names
insert_seen (some name) names = insert_name name names

unfoldable pub executables_in : List Node → List String
unfolding insert_seen executable_of
executables_in [] = []
executables_in (node ∷ nodes) = insert_seen (executable_of node) (executables_in nodes)

abbrev pub nodes_or_none : Option (List Node) → List Node
nodes_or_none none = []
nodes_or_none (some nodes) = nodes

unfoldable pub visible_executables : Shell → String → List String
unfolding executables_in
visible_executables sh command = executables_in (nodes_or_none (sh.nodes command))

-- `option` takes `pipefail`: behind its signs (45 and 43) there is an `o` or an `O` (111 and 79).
unfoldable pub sets_option : String → Bool
sets_option option =
    any_char (λ n. n == 111 || n == 79) (trim_left_by (λ n. n == 45 || n == 43) option)

-- The loop over two neighbouring arguments of `set`.
unfoldable pub sets_pipefail : List String → Bool
unfolding sets_option
sets_pipefail [] = false
sets_pipefail (option ∷ []) = false
sets_pipefail (option ∷ (value ∷ args)) =
    sets_option option && value === "pipefail" || sets_pipefail (value ∷ args)

unfoldable pub is_pipefail_call : List String → Bool
unfolding sets_pipefail
is_pipefail_call [] = false
is_pipefail_call (value ∷ args) = value === "set" && sets_pipefail args

unfoldable pub is_pipefail : Node → Bool
unfolding is_pipefail_call
is_pipefail (call words) = is_pipefail_call (literal_args words)
is_pipefail _ = false

unfoldable pub command_uses_pipefail : Shell → String → Bool
command_uses_pipefail sh command = elim (sh.nodes command) [
  | none ↦ sh.matches_pipefail command
  | some nodes ↦ any is_pipefail nodes
]

unfoldable pub is_source_call : List String → Bool
is_source_call [] = false
is_source_call (value ∷ args) = value === "source"

unfoldable pub is_bashism : Node → Bool
unfolding is_source_call
is_bashism (call words) = is_source_call (literal_args words)
is_bashism test_clause = true
is_bashism proc_subst = true
is_bashism other_node = false

unfoldable pub command_uses_bashism : Shell → String → Bool
command_uses_bashism sh command = elim (sh.nodes command) [
  | none ↦ sh.matches_bashism command
  | some nodes ↦ any is_bashism nodes
]
