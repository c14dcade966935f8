-- ===== src/Review/Reader.antt =====
-- A reader of the words of a POSIX shell. It knows words, blanks, single quotes and the backslash outside
-- of them, and gives up at any other character that means something to a shell.
use Prim.Native.Char.{Char, code}
use sudo_service.Prelude.{
  ℕ, String, List, [], ◌∷◌, Option, none, some, Bool, ◌||◌, ◌&&◌, leb, ◌==◌, if◌then◌else◌,
}

pub data Mode : Type 0 where
  between in_word in_quotes escaped : Mode

-- What becomes of a character: it is dropped, it is taken, it ends the word, or the reader gives up.
pub data Act : Type 0 where
  drop_it take_it end_word give_up : Act

-- The characters that a shell does not take as they stand: control characters, the blank and
-- `! " # $ % & ' ( ) *` up to 42, `; < = > ?` from 59, `[ \ ] ^` from 91, the backquote, and
-- `{ | } ~` from 123.
unfoldable pub is_special : ℕ → Bool
is_special n =
    leb n 42
    || (leb 59 n && leb n 63)
    || (leb 91 n && leb n 94)
    || n == 96
    || (leb 123 n && leb n 127)

-- 32, 39 and 92 are the blank, the single quote and the backslash.
abbrev pub act : Mode → ℕ → Act
act between n =
    if n == 32 || n == 39 || n == 92 then drop_it else if is_special n then give_up else take_it
act in_word n =
    if n == 32
    then end_word
    else if n == 39 || n == 92
    then drop_it
    else if is_special n
    then give_up
    else take_it
act in_quotes n = if n == 39 then drop_it else take_it
act escaped n = take_it

abbrev pub next : Mode → ℕ → Mode
next in_quotes n = if n == 39 then in_word else in_quotes
next escaped n = in_word
next between n =
    if n == 32 then between else if n == 39 then in_quotes else if n == 92 then escaped else in_word
next in_word n =
    if n == 32 then between else if n == 39 then in_quotes else if n == 92 then escaped else in_word

-- The character in front of the first word.
abbrev pub prepend : Char → Option (List String) → Option (List String)
prepend c (some (w ∷ ws)) = some (String.◌∷◌ c w ∷ ws)
prepend c (some []) = none
prepend c none = none

abbrev pub start_word : Option (List String) → Option (List String)
start_word (some ws) = some ("" ∷ ws)
start_word none = none

abbrev pub perform : Act → Char → Option (List String) → Option (List String)
perform drop_it c rest = rest
perform take_it c rest = prepend c rest
perform end_word c rest = start_word rest
perform give_up c rest = none

abbrev pub at_end : Mode → Option (List String)
at_end between = some []
at_end in_word = some ("" ∷ [])
at_end in_quotes = none
at_end escaped = none

-- The words of the text; inside of a word, the first one is the rest of it.
unfoldable pub words : Mode → String → Option (List String)
words m String.[] = at_end m
words m (String.◌∷◌ c s) = perform (act m (code c)) c (words (next m (code c)) s)
