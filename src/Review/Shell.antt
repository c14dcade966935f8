-- ===== src/Review/Shell.antt =====
-- review.go: shellQuote and shellJoin.
use Prim.Native.Char.{code}
use sudo_service.Prelude.{
  ℕ, String, List, [], ◌∷◌, Bool, true, ◌&&◌, ◌||◌, leb, ◌==◌, is_empty, if◌then◌else◌, ◌<>◌,
  replace_all, join,
}

-- The runes that need no quotes: `_ - . / :`, letters and digits.
abbrev pub is_plain : ℕ → Bool
is_plain n =
    n == 95
    || n == 45
    || n == 46
    || n == 47
    || n == 58
    || (leb 97 n && leb n 122)
    || (leb 65 n && leb n 90)
    || (leb 48 n && leb n 57)

-- `strings.IndexFunc(s, …) < 0`.
unfoldable pub is_all_plain : String → Bool
is_all_plain String.[] = true
is_all_plain (String.◌∷◌ c s) = is_plain (code c) && is_all_plain s

-- 39 is the number of the single quote.
unfoldable pub shell_quote : String → String
shell_quote s =
    if is_empty s
    then "''"
    else if is_all_plain s
    then s
    else "'" <> replace_all 39 "'\\''" s <> "'"

unfoldable pub quote_each : List String → List String
unfolding shell_quote
quote_each [] = []
quote_each (a ∷ argv) = shell_quote a ∷ quote_each argv

unfoldable pub shell_join : List String → String
unfolding quote_each
shell_join argv = join " " (quote_each argv)
