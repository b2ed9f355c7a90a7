-- ===== src/Lima/Escape/Words.antt =====
-- How a shell reads a command line into words, for the part of its grammar that blanks, single
-- quotes and backslashes make: the reader that `shell_escape` of src/lima.rs writes for.
pub mod RoundTrip
use clawstainer.Base.{
  ℕ, String, Bool, true, false, ◌≡◌, refl, ◌||◌, Option, none, some, List, [], ◌∷◌, if◌then◌else◌,
  nat_eq,
}
use Prim.Native.Char.{Char, code}
use Prim.Native.String.{◌++◌}

-- Characters that mean something to a shell outside of quotes, quotes and backslash left out.
unfoldable pub is_special : ℕ → Bool
is_special c =
    nat_eq c b'\n'
    || nat_eq c b'"'
    || nat_eq c b'$'
    || nat_eq c b'`'
    || nat_eq c b'!'
    || nat_eq c b'('
    || nat_eq c b')'
    || nat_eq c b'&'
    || nat_eq c b';'
    || nat_eq c b'|'
    || nat_eq c b'<'
    || nat_eq c b'>'
    || nat_eq c b'*'
    || nat_eq c b'?'
    || nat_eq c b'['
    || nat_eq c b'{'
    || nat_eq c b'~'
    || nat_eq c b'#'

unfoldable pub is_gap : ℕ → Bool
is_gap c = nat_eq c b' ' || nat_eq c b'\t'

-- Between words, in a word, between single quotes, after a backslash; and a text that this reader
-- does not read.
pub data Mode : Type 0 where
  gap word quoted escaped stuck : Mode

unfoldable pub next : Mode → ℕ → Mode
next gap c =
    if is_gap c
    then gap
    else if nat_eq c b'\''
    then quoted
    else if nat_eq c b'\\'
    then escaped
    else if is_special c
    then stuck
    else word
next word c =
    if is_gap c
    then gap
    else if nat_eq c b'\''
    then quoted
    else if nat_eq c b'\\'
    then escaped
    else if is_special c
    then stuck
    else word
next quoted c = if nat_eq c b'\'' then word else quoted
next escaped c = if nat_eq c b'\n' then stuck else word
next stuck c = stuck

-- In a word, the first text of the result is what is left of that word.
abbrev pub push_char : Char → Option (List String) → Option (List String)
push_char c none = none
push_char c (some []) = none
push_char c (some (w ∷ ws)) = some (String.◌∷◌ c w ∷ ws)

abbrev pub cut : Option (List String) → Option (List String)
cut none = none
cut (some ws) = some ("" ∷ ws)

-- What a character adds: `next m c` is where it leads.
unfoldable pub add_char : Mode → Mode → Char → Option (List String) → Option (List String)
add_char gap word c r = push_char c r
add_char gap _ c r = r
add_char word word c r = push_char c r
add_char word gap c r = cut r
add_char word _ c r = r
add_char quoted quoted c r = push_char c r
add_char quoted _ c r = r
add_char escaped word c r = push_char c r
add_char escaped _ c r = r
add_char stuck _ c r = r

unfoldable pub read_words : Mode → String → Option (List String)
read_words gap String.[] = some []
read_words word String.[] = some ("" ∷ [])
read_words quoted String.[] = none
read_words escaped String.[] = none
read_words stuck String.[] = none
read_words m (String.◌∷◌ c s) = add_char m (next m (code c)) c (read_words (next m (code c)) s)

read_words_quotes : read_words gap "a 'it'\\''s b' c" ≡ some ("a" ∷ "it's b" ∷ "c" ∷ [])
unfolding read_words next add_char is_gap is_special
read_words_quotes = refl
