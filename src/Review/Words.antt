-- ===== src/Review/Words.antt =====
-- review.go: what a reader of POSIX shell words reads of the line that shellJoin writes.
use Prim.Native.Char.{Char, code}
use text.Mathlib.TextLemmas.{cons-append, nil-append, append_assoc, append-nil}
use text.Mathlib.TextEquality.{Char-path}
use sudo_service.Prelude.{
  ℕ, String, List, [], ◌∷◌, Option, some, Bool, true, false, ◌==◌, ==_iff, ◌≡◌, refl, sym, ap, ◌∙◌,
  arith, if◌then◌else◌, ◌<>◌, text_append, replace_all, join,
}
use sudo_service.Review.Shell.{is_plain, is_all_plain, shell_quote, quote_each, shell_join}
use sudo_service.Review.Reader.{is_special, between, in_word, in_quotes, prepend, start_word, words}

abbrev prepend_text : String → Option (List String) → Option (List String)
prepend_text String.[] ws = ws
prepend_text (String.◌∷◌ c s) ws = prepend c (prepend_text s ws)

prepend_text_start :
    (s : String) (ws : List String) → prepend_text s (some ("" ∷ ws)) ≡ some (s ∷ ws)
prepend_text_start String.[] ws = refl
prepend_text_start (String.◌∷◌ c s) ws = ap (prepend c) (prepend_text_start s ws)

plain-other :
    (n : ℕ) → is_plain n ≡ true → ((n == 32) ≡ false) × ((n == 39) ≡ false) × ((n == 92) ≡ false)
plain-other n h = (ground (arith, h), ground (arith, h), ground (arith, h))

-- What stands without quotes means nothing to the shell.
plain-special : (n : ℕ) → is_plain n ≡ true → is_special n ≡ false
unfolding is_special
plain-special n h = ground (arith, h)

between_plain :
    (c : Char) (s : String)
    → is_plain (code c) ≡ true
    → words between (String.◌∷◌ c s) ≡ prepend c (words in_word s)
unfolding words
between_plain c s h = ground (arith, plain-special (code c) h, plain-other (code c) h)

in_word_plain :
    (c : Char) (s : String)
    → is_plain (code c) ≡ true
    → words in_word (String.◌∷◌ c s) ≡ prepend c (words in_word s)
unfolding words
in_word_plain c s h = ground (arith, plain-special (code c) h, plain-other (code c) h)

in_quotes_other :
    (c : Char) (s : String)
    → (code c == 39) ≡ false
    → words in_quotes (String.◌∷◌ c s) ≡ prepend c (words in_quotes s)
unfolding words
in_quotes_other c s h = ground (arith, h)

abbrev blank : Char
blank = " "

abbrev quote : Char
quote = "'"

abbrev backslash : Char
backslash = "\\"

-- A quote that is closed, escaped and opened again.
in_quotes_escape : (s : String) → words in_quotes ("'\\''" <> s) ≡ prepend quote (words in_quotes s)
unfolding words
in_quotes_escape s = ap (words in_quotes) unrolled
  where
    unrolled :
        ("'\\''" <> s)
        ≡ String.◌∷◌ quote (String.◌∷◌ backslash (String.◌∷◌ quote (String.◌∷◌ quote s)))
    unrolled =
        cons-append quote "\\''" s
        ∙ ap (String.◌∷◌ quote) (
            cons-append backslash "''" s
            ∙ ap (String.◌∷◌ backslash) (
                cons-append quote "'" s
                ∙ ap (String.◌∷◌ quote)
                    (cons-append quote "" s ∙ ap (String.◌∷◌ quote) (nil-append s))))

bare :
    (s t : String)
    → is_all_plain s ≡ true
    → words in_word (s <> t) ≡ prepend_text s (words in_word t)
unfolding is_all_plain
bare String.[] t h = ap (words in_word) (nil-append t)
bare (String.◌∷◌ c s) t h =
    ap (words in_word) (cons-append c s t)
    ∙ (in_word_plain c (s <> t) (ground (arith, h)) ∙ ap (prepend c) (bare s t (ground (arith, h))))

quoted :
    (s t : String)
    → words in_quotes (replace_all 39 "'\\''" s <> t) ≡ prepend_text s (words in_quotes t)
unfolding replace_all
quoted String.[] t = ap (words in_quotes) (nil-append t)
quoted (String.◌∷◌ c s) t = by_test (code c == 39) refl (quoted s t)
  where
    by_test :
        (b : Bool)
        → (code c == 39) ≡ b
        → words in_quotes (replace_all 39 "'\\''" s <> t) ≡ prepend_text s (words in_quotes t)
        → words in_quotes (
            (if b
              then text_append "'\\''" (replace_all 39 "'\\''" s)
              else String.◌∷◌ c (replace_all 39 "'\\''" s))
            <> t)
          ≡ prepend c (prepend_text s (words in_quotes t))
    by_test true e h =
        ap (words in_quotes) (append_assoc "'\\''" (replace_all 39 "'\\''" s) t)
        ∙ (in_quotes_escape (replace_all 39 "'\\''" s <> t)
            ∙ (ap (prepend quote) h
                ∙ ap (λ d. prepend d (prepend_text s (words in_quotes t)))
                    (sym (Char-path c quote ((==_iff (code c) 39).0 e)))))
    by_test false e h =
        ap (words in_quotes) (cons-append c (replace_all 39 "'\\''" s) t)
        ∙ (in_quotes_other c (replace_all 39 "'\\''" s <> t) e ∙ ap (prepend c) h)

closed : (t : String) → ("'" <> t) ≡ String.◌∷◌ quote t
closed t = cons-append quote "" t ∙ ap (String.◌∷◌ quote) (nil-append t)

opened : (r t : String) → (("'" <> r <> "'") <> t) ≡ String.◌∷◌ quote (r <> "'" <> t)
opened r t =
    append_assoc "'" (r <> "'") t
    ∙ (closed ((r <> "'") <> t) ∙ ap (String.◌∷◌ quote) (append_assoc r "'" t))

spaced : (t : String) → (" " <> t) ≡ String.◌∷◌ blank t
spaced t = cons-append blank "" t ∙ ap (String.◌∷◌ blank) (nil-append t)

-- A token is read as one word, whatever follows it.
between_token :
    (a t : String) → words between (shell_quote a <> t) ≡ prepend_text a (words in_word t)
unfolding shell_quote words is_all_plain
between_token String.[] t = ap (words between) (
    cons-append quote "'" t
    ∙ ap (String.◌∷◌ quote) (cons-append quote "" t ∙ ap (String.◌∷◌ quote) (nil-append t)))
between_token (String.◌∷◌ c s) t = by_test (is_all_plain (String.◌∷◌ c s)) refl
  where
    by_test :
        (b : Bool)
        → is_all_plain (String.◌∷◌ c s) ≡ b
        → words between (
            (if b then String.◌∷◌ c s else "'" <> replace_all 39 "'\\''" (String.◌∷◌ c s) <> "'")
            <> t)
          ≡ prepend_text (String.◌∷◌ c s) (words in_word t)
    by_test true e =
        ap (words between) (cons-append c s t)
        ∙ (between_plain c (s <> t) (ground (arith, e))
            ∙ ap (prepend c) (bare s t (ground (arith, e))))
    by_test false e =
        ap (words between) (opened (replace_all 39 "'\\''" (String.◌∷◌ c s)) t)
        ∙ (quoted (String.◌∷◌ c s) ("'" <> t)
            ∙ ap (λ u. prepend_text (String.◌∷◌ c s) (words in_quotes u)) (closed t))

-- A reader of POSIX shell words, which takes only words, blanks, single quotes and the backslash
-- and gives up at any other character that a shell treats specially outside of quotes, reads from
-- what shellJoin writes exactly the argv that it was given, whatever characters the arguments hold.
pub words-shell_join : (argv : List String) → words between (shell_join argv) ≡ some argv
unfolding shell_join words join
words-shell_join [] = refl
words-shell_join (a ∷ []) =
    ap (words between) (sym (append-nil (shell_quote a)))
    ∙ (between_token a "" ∙ prepend_text_start a [])
words-shell_join (a ∷ (b ∷ rest)) =
    between_token a (" " <> join " " (quote_each (b ∷ rest)))
    ∙ (ap (λ u. prepend_text a (words in_word u)) (spaced (join " " (quote_each (b ∷ rest))))
        ∙ (ap (λ ws. prepend_text a (start_word ws)) (words-shell_join (b ∷ rest))
            ∙ prepend_text_start a (b ∷ rest)))
