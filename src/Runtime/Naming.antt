-- ===== src/Runtime/Naming.antt =====
-- The names that src/runtime/mod.rs and src/network/tap.rs give: the identifier of a machine from a
-- random 32-bit word, its readable name, and the TAP device of a machine.
use Prim.Native.String.{◌++◌, count}
use clawstainer.Base.{
  ℕ, zero, suc, ◌/◌, ◌%◌, String, List, [], ◌∷◌, some, none, nat_eq, if◌then◌else◌,
}
use clawstainer.Base.Text.{strip_prefix}

-- A digit of `{:x}`.
hex_digit : ℕ → String
hex_digit d =
    if nat_eq d 0
    then "0"
    else if nat_eq d 1
    then "1"
    else if nat_eq d 2
    then "2"
    else if nat_eq d 3
    then "3"
    else if nat_eq d 4
    then "4"
    else if nat_eq d 5
    then "5"
    else if nat_eq d 6
    then "6"
    else if nat_eq d 7
    then "7"
    else if nat_eq d 8
    then "8"
    else if nat_eq d 9
    then "9"
    else if nat_eq d 10
    then "a"
    else if nat_eq d 11
    then "b"
    else if nat_eq d 12
    then "c"
    else if nat_eq d 13
    then "d"
    else if nat_eq d 14
    then "e"
    else "f"

-- The last `width` hexadecimal digits, `{:08x}` for a `u32` at width 8.
unfoldable pub hex : ℕ → ℕ → String
unfolding hex_digit
hex zero n = ""
hex (suc width) n = hex width (n / 16) ++ hex_digit (n % 16)

unfoldable pub generate_id : ℕ → String
unfolding hex
generate_id word = "sb-" ++ hex 8 word

abbrev pub adjectives : List String
adjectives =
    "bold" ∷ "calm" ∷ "dark" ∷ "fast" ∷ "keen" ∷ "loud" ∷ "neat" ∷ "pale" ∷ "quick" ∷ "shy" ∷ "slim"
    ∷ "warm" ∷ "wise" ∷ "cool" ∷ "bright" ∷ []

abbrev pub animals : List String
animals =
    "parrot" ∷ "falcon" ∷ "otter" ∷ "panda" ∷ "raven" ∷ "tiger" ∷ "whale" ∷ "zebra" ∷ "eagle"
    ∷ "koala" ∷ "lynx" ∷ "moose" ∷ "newt" ∷ "owl" ∷ "fox" ∷ []

abbrev nth : ℕ → List String → String
nth n [] = ""
nth zero (x ∷ xs) = x
nth (suc n) (x ∷ xs) = nth n xs

-- `choose` picks an index below 15 in each list.
unfoldable pub generate_name : ℕ → ℕ → String
generate_name adj animal = nth adj adjectives ++ "-" ++ nth animal animals

-- `trim_start_matches("sb-")` takes the prefix away as often as it is there; each time the text gets
-- shorter, so its length is enough fuel.
trim_prefix : ℕ → String → String → String
trim_prefix zero prefix s = s
trim_prefix (suc fuel) prefix s = elim (strip_prefix prefix s) [
  | none ↦ s
  | some rest ↦ trim_prefix fuel prefix rest
]

unfoldable pub tap_name : String → String
unfolding trim_prefix strip_prefix
tap_name machine_id = "tap-" ++ trim_prefix (count machine_id) "sb-" machine_id
