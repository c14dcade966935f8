-- ===== src/Profiles/Preflight.antt =====
-- profiles.go: preflightCommand with its warnings.
use sudo_service.Prelude.{
  ℕ, ◌*◌, ◌%◌, String, List, [], ◌∷◌, ◌++◌, Option, none, some, Bool, true, false, ◌&&◌, not,
  byte_len, ltb, leb, ◌===◌, if◌then◌else◌, ◌<>◌, contains, any_char, decimal, digits_value,
}
use sudo_service.Types.{errorf, Result, ok, err}
use sudo_service.Profiles.{ExecutorProfile}
use sudo_service.Profiles.Commands.{
  Shell, visible_executables, command_uses_pipefail, command_uses_bashism,
}

abbrev pub is_upper : ℕ → Bool
is_upper n = leb 65 n && leb n 90

abbrev pub is_lower : ℕ → Bool
is_lower n = leb 97 n && leb n 122

abbrev pub is_digit : ℕ → Bool
is_digit n = leb 48 n && leb n 57

-- The loop of embeddedBase64Literal, with the longest so far.
unfoldable pub longest_literal : ℕ → List String → ℕ
longest_literal longest [] = longest
longest_literal longest (lit ∷ lits) =
    longest_literal
      (if ltb longest (byte_len lit)
          && any_char is_upper lit
          && any_char is_lower lit
          && any_char is_digit lit
        then byte_len lit
        else longest)
      lits

unfoldable pub embedded_base64_literal : Shell → String → ℕ
unfolding longest_literal
embedded_base64_literal sh command =
    if not (sh.decodes_base64 command) then 0 else longest_literal 0 (sh.base64_literals command)

-- The bounds of an int, which has 64 bits.
abbrev pub int_limit : ℕ
int_limit = 9223372036854775808

-- `n*multiplier >= 300`, where the product wraps around.
unfoldable pub is_long : ℕ → ℕ → Bool
is_long n multiplier =
    let product = (n * multiplier) % (2 * int_limit) in ltb product int_limit && leb 300 product

unfoldable pub multiplier : String → ℕ
multiplier unit =
    if unit === "m" then 60 else if unit === "h" then 3600 else if unit === "d" then 86400 else 1

-- A number that does not fit is an error of strconv.Atoi.
unfoldable pub sleeps_long : Option (String × String) → Bool
unfolding is_long multiplier
sleeps_long none = false
sleeps_long (some (digits, unit)) =
    ltb (digits_value 0 digits) int_limit && is_long (digits_value 0 digits) (multiplier unit)

unfoldable pub likely_long_runtime : Shell → String → Bool
unfolding sleeps_long
likely_long_runtime sh command =
    if sh.runs_long_tool command then true else sleeps_long (sh.sleep command)

abbrev pub warn_if : Bool → String → List String
warn_if b warning = if b then warning ∷ [] else []

abbrev pub base64_warning : Shell → String → List String
base64_warning sh command =
    if sh.executes_base64 command
    then "command appears to execute an opaque base64 payload; reviewers cannot inspect the decoded program directly"
      ∷ []
    else let n = embedded_base64_literal sh command in
      warn_if (ltb 0 n) (
        "command decodes an embedded opaque base64 literal ("
        <> decimal n
        <> " chars); reviewers cannot inspect the decoded content directly — pass scripts in readable form instead")

-- The warnings that do not depend on the profile.
unfoldable pub general_warnings : Shell → String → List String
unfolding embedded_base64_literal likely_long_runtime
general_warnings sh command =
    warn_if (sh.installs_package command)
      "command appears to install packages at runtime; executors run non-root with a read-only root filesystem"
    ++ base64_warning sh command
    ++ warn_if (ltb 4096 (byte_len command) && sh.has_heredoc command)
        "command contains a large heredoc; pass the payload with stdin/request-file to reduce quoting and review errors"
    ++ warn_if (likely_long_runtime sh command)
        "command may be long-running; this is an advisory heuristic, and the CLI wait and output-retention windows are client/data-lifecycle settings, not execution deadlines"

-- The first of the executables that the profile is known not to have.
unfoldable pub first_absent : List String → List String → Option String
first_absent absent [] = none
first_absent absent (x ∷ xs) =
    let rest = first_absent absent xs in if contains absent x then some x else rest

unfoldable pub profile_warnings : Shell → String → ExecutorProfile → Result (List String)
profile_warnings sh command p =
    elim (first_absent p.absent_executables (visible_executables sh command)) [
      | some executable ↦ err (
          errorf
            "executor profile %q is known not to include directly invoked executable %q; choose another profile or an explicit image"
            (p.name ∷ executable ∷ []))
      | none ↦
          if command_uses_pipefail sh command && not p.shell.supports_pipefail
          then err (
              errorf
                "executor profile %q uses %s, whose catalog metadata does not support 'set -o pipefail'"
                (p.name ∷ p.shell.dialect ∷ []))
          else ok (
              warn_if (command_uses_bashism sh command && not p.shell.supports_bash) (
                "command contains Bash-specific syntax but profile \"" <> p.name
                <> "\" executes it with " <> p.shell.dialect <> " at " <> p.shell.path))
    ]

unfoldable pub preflight_command : Shell → String → Option ExecutorProfile → Result (List String)
unfolding profile_warnings general_warnings
preflight_command sh command none = ok (
    warn_if (command_uses_pipefail sh command)
      "raw image selected: sudo-service cannot verify whether its /bin/sh supports 'set -o pipefail'"
    ++ general_warnings sh command)
preflight_command sh command (some p) = elim (profile_warnings sh command p) [
  | Result.err e ↦ err e
  | Result.ok warnings ↦ ok (warnings ++ general_warnings sh command)
]
