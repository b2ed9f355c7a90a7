-- ===== src/Base/Text.antt =====
-- The methods of `str` that the program calls, over the characters of a text.
pub mod Lines
pub mod Numbers
use Prim.Native.Char.{Char, code}
use Prim.Native.String.{String, ◌++◌}
use mathlib.Core.Bool.{Bool, true, false, ◌||◌, ◌&&◌}
use mathlib.Core.List.{List, [], ◌∷◌}
use mathlib.Core.Option
use mathlib.Core.Option.{Option, none, some}
use clawstainer.Base.Int.{ℤ, pos, negsuc}
use Prim.Native.Nat.{ℕ, zero, suc, ◌+◌, ◌*◌, ◌-◌}
use clawstainer.Base.Tests.{leb, ltb, nat_eq, if◌then◌else◌, ◌==◌}

-- `char::is_whitespace`: the property White_Space of Unicode.
unfoldable pub is_whitespace : ℕ → Bool
is_whitespace c =
    (leb 9 c && leb c 13)
    || nat_eq c 32
    || nat_eq c 133
    || nat_eq c 160
    || nat_eq c 5760
    || (leb 8192 c && leb c 8202)
    || nat_eq c 8232
    || nat_eq c 8233
    || nat_eq c 8239
    || nat_eq c 8287
    || nat_eq c 12288

-- `s.trim().is_empty()`
unfoldable pub is_blank : String → Bool
unfolding is_whitespace
is_blank String.[] = true
is_blank (String.◌∷◌ c s) = is_whitespace (code c) && is_blank s

unfoldable pub trim_start : String → String
unfolding is_whitespace
trim_start String.[] = String.[]
trim_start (String.◌∷◌ c s) =
    let rest = trim_start s in if is_whitespace (code c) then rest else String.◌∷◌ c s

unfoldable pub trim_end : String → String
unfolding is_blank
trim_end String.[] = String.[]
trim_end (String.◌∷◌ c s) =
    let rest = trim_end s in if is_blank (String.◌∷◌ c s) then String.[] else String.◌∷◌ c rest

unfoldable pub trim : String → String
unfolding trim_start trim_end
trim s = trim_end (trim_start s)

-- `s.contains(c)` for a character.
unfoldable pub has_char : ℕ → String → Bool
has_char k String.[] = false
has_char k (String.◌∷◌ c s) = nat_eq (code c) k || has_char k s

-- `s.split_once(c)`
abbrev push_left : Char → Option (String × String) → Option (String × String)
push_left c none = none
push_left c (some (left, right)) = some (String.◌∷◌ c left, right)

unfoldable pub split_once : ℕ → String → Option (String × String)
split_once k String.[] = none
split_once k (String.◌∷◌ c s) =
    let rest = push_left c (split_once k s) in
    if nat_eq (code c) k then some (String.[], s) else rest

-- `s.split(c)`: never empty.
abbrev push_front : Char → List String → List String
push_front c [] = String.◌∷◌ c String.[] ∷ []
push_front c (first ∷ rest) = String.◌∷◌ c first ∷ rest

unfoldable pub split : ℕ → String → List String
split k String.[] = String.[] ∷ []
split k (String.◌∷◌ c s) =
    let rest = split k s in if nat_eq (code c) k then String.[] ∷ rest else push_front c rest

-- `s.replace(c, by)` for a character.
unfoldable pub replace : ℕ → String → String → String
replace k by String.[] = String.[]
replace k by (String.◌∷◌ c s) =
    let rest = replace k by s in if nat_eq (code c) k then by ++ rest else String.◌∷◌ c rest

-- `s.strip_prefix(prefix)`
unfoldable pub strip_prefix : String → String → Option String
strip_prefix String.[] s = some s
strip_prefix (String.◌∷◌ p prefix) String.[] = none
strip_prefix (String.◌∷◌ p prefix) (String.◌∷◌ c s) =
    let rest = strip_prefix prefix s in if nat_eq (code p) (code c) then rest else none

-- `s.lines()`: the pieces between line feeds, the last one left out if it is empty. A carriage
-- return before the line feed goes too.
strip_cr : String → String
strip_cr String.[] = String.[]
strip_cr (String.◌∷◌ c String.[]) = if nat_eq (code c) 13 then String.[] else String.◌∷◌ c String.[]
strip_cr (String.◌∷◌ c s) = String.◌∷◌ c (strip_cr s)

line_pieces : List String → List String
line_pieces [] = []
line_pieces (last ∷ []) = if last == "" then [] else last ∷ []
line_pieces (piece ∷ rest) = strip_cr piece ∷ line_pieces rest

unfoldable pub lines : String → List String
unfolding split line_pieces strip_cr
lines s = line_pieces (split 10 s)

-- `s.parse::<uN>()`: an optional plus sign, then one digit or more, below the bound.
parse_digits : ℕ → ℕ → String → Option ℕ
parse_digits bound acc String.[] = some acc
parse_digits bound acc (String.◌∷◌ c s) =
    let value = acc * 10 + (code c - 48) in
    let rest = parse_digits bound value s in
    if leb 48 (code c) && leb (code c) 57 && ltb value bound then rest else none

parse_unsigned : ℕ → String → Option ℕ
unfolding parse_digits
parse_unsigned bound String.[] = none
parse_unsigned bound s = parse_digits bound 0 s

unfoldable pub parse_uint : ℕ → String → Option ℕ
unfolding parse_unsigned
parse_uint bound String.[] = none
parse_uint bound (String.◌∷◌ c s) =
    if nat_eq (code c) 43 then parse_unsigned bound s else parse_unsigned bound (String.◌∷◌ c s)

-- `parts.join(separator)`
unfoldable pub join : String → List String → String
join separator [] = ""
join separator (part ∷ []) = part
join separator (part ∷ rest) = part ++ separator ++ join separator rest

-- `s.starts_with(t)` and `s.contains(t)` for a text.
unfoldable pub begins_with : String → String → Bool
begins_with String.[] s = true
begins_with (String.◌∷◌ p t) String.[] = false
begins_with (String.◌∷◌ p t) (String.◌∷◌ c s) =
    let rest = begins_with t s in if nat_eq (code p) (code c) then rest else false

unfoldable pub has_text : String → String → Bool
unfolding begins_with
has_text t String.[] = begins_with t String.[]
has_text t (String.◌∷◌ c s) = begins_with t (String.◌∷◌ c s) || has_text t s

-- `s.split_whitespace()`: the runs of characters that are no white space.
abbrev push_word : Char → Bool → List String → List String
push_word c true words = String.◌∷◌ c String.[] ∷ words
push_word c false [] = String.◌∷◌ c String.[] ∷ []
push_word c false (word ∷ words) = String.◌∷◌ c word ∷ words

starts_blank : String → Bool
unfolding is_whitespace
starts_blank String.[] = true
starts_blank (String.◌∷◌ c s) = is_whitespace (code c)

unfoldable pub split_whitespace : String → List String
unfolding starts_blank is_whitespace
split_whitespace String.[] = []
split_whitespace (String.◌∷◌ c s) =
    let words = split_whitespace s in
    if is_whitespace (code c) then words else push_word c (starts_blank s) words

-- `s.parse::<i32>()`: a minus sign or what an unsigned number starts with.
abbrev negated : ℕ → ℤ
negated zero = pos 0
negated (suc n) = negsuc n

unfoldable pub parse_i32 : String → Option ℤ
unfolding parse_uint parse_unsigned
parse_i32 String.[] = none
parse_i32 (String.◌∷◌ c s) =
    if nat_eq (code c) 45
    then Option.map negated (parse_unsigned 2147483649 s)
    else Option.map pos (parse_uint 2147483648 (String.◌∷◌ c s))

-- `s.eq_ignore_ascii_case(t)`
abbrev to_ascii_lowercase : ℕ → ℕ
to_ascii_lowercase c = if leb 65 c && leb c 90 then c + 32 else c

unfoldable pub eq_ignore_ascii_case : String → String → Bool
eq_ignore_ascii_case String.[] String.[] = true
eq_ignore_ascii_case String.[] (String.◌∷◌ d t) = false
eq_ignore_ascii_case (String.◌∷◌ c s) String.[] = false
eq_ignore_ascii_case (String.◌∷◌ c s) (String.◌∷◌ d t) =
    nat_eq (to_ascii_lowercase (code c)) (to_ascii_lowercase (code d)) && eq_ignore_ascii_case s t

-- `s.replace(pattern, by)` for a text that is not empty: the number is what is still to be skipped
-- of the occurrence just replaced.
unfoldable pub count_chars : String → ℕ
count_chars String.[] = 0
count_chars (String.◌∷◌ c s) = suc (count_chars s)

abbrev skip_from : Bool → ℕ → ℕ
skip_from found size = if found then size - 1 else 0

replace_from : String → String → ℕ → String → String
unfolding begins_with count_chars
replace_from pattern by skip String.[] = String.[]
replace_from pattern by (suc skip) (String.◌∷◌ c s) = replace_from pattern by skip s
replace_from pattern by zero (String.◌∷◌ c s) =
    let found = begins_with pattern (String.◌∷◌ c s) in
    let rest = replace_from pattern by (skip_from found (count_chars pattern)) s in
    if found then by ++ rest else String.◌∷◌ c rest

unfoldable pub replace_text : String → String → String → String
unfolding replace_from
replace_text pattern by s = replace_from pattern by 0 s

-- What follows the first `pattern` in a text.
abbrev drop_prefix : String → String → String
drop_prefix String.[] s = s
drop_prefix (String.◌∷◌ p prefix) String.[] = String.[]
drop_prefix (String.◌∷◌ p prefix) (String.◌∷◌ c s) = drop_prefix prefix s

unfoldable pub text_after : String → String → Option String
unfolding begins_with
text_after pattern String.[] = none
text_after pattern (String.◌∷◌ c s) =
    let rest = text_after pattern s in
    if begins_with pattern (String.◌∷◌ c s)
    then some (drop_prefix pattern (String.◌∷◌ c s))
    else rest

-- What stands before the first `pattern`, or the whole text.
unfoldable pub text_before : String → String → String
unfolding begins_with
text_before pattern String.[] = String.[]
text_before pattern (String.◌∷◌ c s) =
    let rest = String.◌∷◌ c (text_before pattern s) in
    if begins_with pattern (String.◌∷◌ c s) then String.[] else rest
