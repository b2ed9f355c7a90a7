-- ===== src/Base/Text/Lines.antt =====
-- `lines` of a text that begins with a whole line.
use clawstainer.Base.Put.{put}
use clawstainer.Base.Tests.{nat_eq, Bool-cases}
use clawstainer.Base.Text.{has_char, split, push_front, strip_cr, line_pieces, lines}
use mathlib.Core.Bool.{false}
use mathlib.Core.List.{List, [], ◌∷◌}
use mathlib.Core.Logic.{inl, inr}
use mathlib.Core.Path.{◌≡◌, refl, ap}
use native.Mathlib.Omega.{arith}
use Prim.Native.Char.{Char, code}
use Prim.Native.Nat.{ℕ}
use Prim.Native.String.{String}

has_char_cons :
    (k : ℕ) (c : Char) (s : String)
    → has_char k (String.◌∷◌ c s) ≡ false
    → (nat_eq (code c) k ≡ false) × (has_char k s ≡ false)
unfolding has_char
has_char_cons k c s h = elim (Bool-cases (nat_eq (code c) k)) [
  | inl e ↦ absurd (ground arith)
  | inr n ↦ (n, ground arith)
]

push_front_of :
    (c : Char) (p : String) (ps qs : List String)
    → qs ≡ p ∷ ps
    → push_front c qs ≡ String.◌∷◌ c p ∷ ps
push_front_of c p ps qs e = rw e refl

split_put :
    (l rest : String)
    → has_char 10 l ≡ false
    → split 10 (put l (String.◌∷◌ "\n" rest)) ≡ l ∷ split 10 rest
unfolding split
split_put String.[] rest h = refl
split_put (String.◌∷◌ c l) rest h =
    let (differs, later) = has_char_cons 10 c l h in
    rw differs (push_front_of c l (split 10 rest) _ (split_put l rest later))

split_cons : (s : String) → (p : String) × (ps : List String) × (split 10 s ≡ p ∷ ps)
unfolding split
split_cons String.[] = ("", [], refl)
split_cons (String.◌∷◌ c s) =
    let (p, ps, e) = split_cons s in
    elim (Bool-cases (nat_eq (code c) 10)) [
      | inl line_feed ↦ ("", split 10 s, rw line_feed refl)
      | inr other ↦ (String.◌∷◌ c p, ps, rw other (push_front_of c p ps _ e))
    ]

strip_cr_none : (l : String) → has_char 13 l ≡ false → strip_cr l ≡ l
unfolding strip_cr
strip_cr_none String.[] h = refl
strip_cr_none (String.◌∷◌ c String.[]) h = rw ((has_char_cons 13 c String.[] h).0) refl
strip_cr_none (String.◌∷◌ c (String.◌∷◌ d l)) h =
    ap (String.◌∷◌ c) (strip_cr_none (String.◌∷◌ d l) ((has_char_cons 13 c (String.◌∷◌ d l) h).1))

line_pieces_cons :
    (l p : String) (ps : List String) → line_pieces (l ∷ p ∷ ps) ≡ strip_cr l ∷ line_pieces (p ∷ ps)
unfolding line_pieces
line_pieces_cons l p ps = refl

pub lines-put :
    (l rest : String)
    → has_char 10 l ≡ false
    → has_char 13 l ≡ false
    → lines (put l (String.◌∷◌ "\n" rest)) ≡ l ∷ lines rest
unfolding lines
lines-put l rest no_lf no_cr =
    let (p, ps, e) = split_cons rest in
    rw (split_put l rest no_lf, e, line_pieces_cons l p ps, strip_cr_none l no_cr) refl

pub lines_nil : lines "" ≡ []
unfolding lines
lines_nil = refl
