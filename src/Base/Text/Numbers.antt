-- ===== src/Base/Text/Numbers.antt =====
-- What `parse_uint` promises of the number that it reads.
use clawstainer.Base.Tests.{nat_eq, ltb, leb, Bool-cases}
use clawstainer.Base.Text.{parse_digits, parse_unsigned, parse_uint}
use mathlib.Core.Bool.{◌&&◌}
use mathlib.Core.Logic.{inl, inr}
use mathlib.Core.Option.{some}
use mathlib.Core.Path.{◌≡◌}
use native.Mathlib.Omega.{arith}
use Prim.Native.Char.{code}
use Prim.Native.Nat.{ℕ, ◌<◌, ◌+◌, ◌*◌, ◌-◌}
use Prim.Native.String.{String}

parse_digits-lt :
    (bound acc : ℕ) (s : String) (n : ℕ)
    → acc < bound
    → parse_digits bound acc s ≡ some n
    → n < bound
unfolding parse_digits
parse_digits-lt bound acc String.[] n h e = ground arith
parse_digits-lt bound acc (String.◌∷◌ c s) n h e =
    let value = acc * 10 + (code c - 48) in
    elim (Bool-cases (leb 48 (code c) && leb (code c) 57 && ltb value bound)) [
      | inl digit ↦ parse_digits-lt bound value s n (ground arith) (rw digit at e)
      | inr other ↦ absurd (ground arith)
    ]

parse_unsigned-lt :
    (bound : ℕ) (s : String) (n : ℕ) → 0 < bound → parse_unsigned bound s ≡ some n → n < bound
unfolding parse_unsigned
parse_unsigned-lt bound String.[] n h e = absurd (ground arith)
parse_unsigned-lt bound (String.◌∷◌ c s) n h e = parse_digits-lt bound 0 (String.◌∷◌ c s) n h e

-- A number that is read is below the bound of its type.
pub parse_uint-lt :
    (bound : ℕ) (s : String) (n : ℕ) → 0 < bound → parse_uint bound s ≡ some n → n < bound
unfolding parse_uint
parse_uint-lt bound String.[] n h e = absurd (ground arith)
parse_uint-lt bound (String.◌∷◌ c s) n h e = elim (Bool-cases (nat_eq (code c) 43)) [
  | inl plus ↦ parse_unsigned-lt bound s n h (rw plus at e)
  | inr other ↦ parse_unsigned-lt bound (String.◌∷◌ c s) n h (rw other at e)
]
