-- ===== src/Prelude/Texts.antt =====
-- Go's functions on strings: ReplaceAll for a single character, Join, ToLower on ASCII, TrimSpace,
-- TrimPrefix and SplitN.
use Prim.Native.Nat.{ℕ, zero, suc, ◌+◌, ◌-◌, ◌*◌, ◌/◌, ◌%◌}
use Prim.Native.Char.{Char, code}
use Prim.Native.String.{String, slice, compare}
use text.Mathlib.Text.{is_lt}
use mathlib.Core.List.{List, [], ◌∷◌}
use mathlib.Core.Bool.{Bool, false, not, ◌&&◌, ◌||◌}
use mathlib.Core.Option.{Option, none, some}
use sudo_service.Prelude.Tests.{
  ◌==◌, leb, ltb, if◌then◌else◌, text_append, text_drop, has_prefix, byte_len, is_empty,
}

infixr 65 ◌<>◌
abbrev pub ◌<>◌ : String → String → String
s <> t = text_append s t

-- Each character of number `n` becomes `t`.
unfoldable pub replace_all : ℕ → String → String → String
replace_all n t String.[] = ""
replace_all n t (String.◌∷◌ c s) =
    let rest = replace_all n t s in if code c == n then text_append t rest else String.◌∷◌ c rest

unfoldable pub join : String → List String → String
join sep [] = ""
join sep (s ∷ []) = s
join sep (s ∷ (t ∷ ts)) = text_append s (text_append sep (join sep (t ∷ ts)))

-- The character that stands in the second text where `c` stands in the first.
unfoldable pub translate_char : String → String → Char → Char
translate_char String.[] small c = c
translate_char (String.◌∷◌ x large) String.[] c = c
translate_char (String.◌∷◌ x large) (String.◌∷◌ y small) c =
    let rest = translate_char large small c in if code c == code x then y else rest

unfoldable pub to_lower : String → String
unfolding translate_char
to_lower String.[] = ""
to_lower (String.◌∷◌ c s) =
    String.◌∷◌ (translate_char "ABCDEFGHIJKLMNOPQRSTUVWXYZ" "abcdefghijklmnopqrstuvwxyz" c)
      (to_lower s)

-- unicode.IsSpace, on the number of a character.
abbrev pub is_space : ℕ → Bool
is_space n =
    (leb 9 n && leb n 13)
    || n == 32
    || n == 133
    || n == 160
    || n == 5760
    || (leb 8192 n && leb n 8202)
    || n == 8232
    || n == 8233
    || n == 8239
    || n == 8287
    || n == 12288

unfoldable pub trim_left : String → String
trim_left String.[] = ""
trim_left (String.◌∷◌ c s) =
    let rest = trim_left s in if is_space (code c) then rest else String.◌∷◌ c s

unfoldable pub trim_right : String → String
trim_right String.[] = ""
trim_right (String.◌∷◌ c s) =
    let rest = trim_right s in if is_empty rest && is_space (code c) then "" else String.◌∷◌ c rest

-- strings.TrimSpace.
abbrev pub trim_space : String → String
trim_space s = trim_right (trim_left s)

-- strings.TrimPrefix.
unfoldable pub trim_prefix : String → String → String
trim_prefix s p = if has_prefix s p then text_drop (byte_len p) s else s

-- strings.SplitN(s, sep, 2) for a separator of number `n`: the text before the first separator, and
-- the text after it, if there is one.
unfoldable pub split_once : ℕ → String → String × Option String
split_once n String.[] = ("", none)
split_once n (String.◌∷◌ c s) =
    let rest = split_once n s in if code c == n then ("", some s) else (String.◌∷◌ c rest.0, rest.1)

-- strings.TrimRight for a cutset of one character, of number `n`.
unfoldable pub trim_right_of : ℕ → String → String
trim_right_of n String.[] = ""
trim_right_of n (String.◌∷◌ c s) =
    let rest = trim_right_of n s in if is_empty rest && code c == n then "" else String.◌∷◌ c rest

-- Some character satisfies the test of its number.
unfoldable pub any_char : (ℕ → Bool) → String → Bool
any_char p String.[] = false
any_char p (String.◌∷◌ c s) = p (code c) || any_char p s

-- len(strings.FieldsFunc(s, unicode.IsSpace)): how many fields begin in the text; `inside` says that
-- one has begun before it.
unfoldable pub count_fields : Bool → String → ℕ
count_fields inside String.[] = 0
count_fields inside (String.◌∷◌ c s) =
    let rest = count_fields (not (is_space (code c))) s in
    if inside || is_space (code c) then rest else suc rest

-- The text before the last character of number `n`, and the text after it; all of it is before where
-- there is none.
unfoldable pub split_last : ℕ → String → String × String
split_last n String.[] = ("", "")
split_last n (String.◌∷◌ c s) =
    let rest = split_last n s in
    if any_char (λ k. k == n) s
    then (String.◌∷◌ c rest.0, rest.1)
    else if code c == n
    then ("", s)
    else (String.◌∷◌ c rest.0, rest.1)

-- `s < t` on strings.
abbrev pub text_lt : String → String → Bool
text_lt s t = is_lt (compare s t)

unfoldable pub digit : ℕ → String
digit d = slice "0123456789" d (suc d)

-- `%d` of a number below 10 ^ 20.
unfoldable pub decimal_from : ℕ → ℕ → String
unfolding digit
decimal_from zero n = ""
decimal_from (suc fuel) n =
    let rest = decimal_from fuel (n / 10) in if ltb n 10 then digit n else rest <> digit (n % 10)

abbrev pub decimal : ℕ → String
decimal n = decimal_from 20 n

-- The number that a text of digits spells.
unfoldable pub digits_value : ℕ → String → ℕ
digits_value acc String.[] = acc
digits_value acc (String.◌∷◌ c s) = digits_value (acc * 10 + (code c - 48)) s

-- strings.TrimLeft for the cutset of the characters whose numbers satisfy the test.
unfoldable pub trim_left_by : (ℕ → Bool) → String → String
trim_left_by p String.[] = ""
trim_left_by p (String.◌∷◌ c s) =
    let rest = trim_left_by p s in if p (code c) then rest else String.◌∷◌ c s

-- strings.TrimSuffix for a suffix of one character, of number `n`.
unfoldable pub trim_suffix_of : ℕ → String → String
trim_suffix_of n String.[] = ""
trim_suffix_of n (String.◌∷◌ c s) =
    let rest = trim_suffix_of n s in if is_empty s && code c == n then "" else String.◌∷◌ c rest
