-- ===== src/Fleet/Provision/Chunks.antt =====
-- `slice::chunks`, as the second pass of a fleet's creation (src/commands/fleet.rs) uses it.
use mathlib.Core.List.{◌++◌ as append}
use clawstainer.Base.{
  ℕ, zero, suc, ◌≤◌, ◌≡◌, refl, ap, ◌∙◌, List, [], ◌∷◌, length, take, drop, arith,
}
use clawstainer.Fleet.{PendingProvision}
use clawstainer.Fleet.Provision.{chunks_from, chunks}

-- The chunks end to end.
abbrev pub concat : List (List PendingProvision) → List PendingProvision
concat [] = []
concat (c ∷ cs) = append c (concat cs)

abbrev pub AllAtMost : ℕ → List (List PendingProvision) → Type 0
AllAtMost n [] = Unit {0}
AllAtMost n (c ∷ cs) = (length c ≤ n) × AllAtMost n cs

take-drop : (n : ℕ) (ps : List PendingProvision) → append (take n ps) (drop n ps) ≡ ps
take-drop zero ps = refl
take-drop (suc n) [] = refl
take-drop (suc n) (p ∷ ps) = ap (λ qs. p ∷ qs) (take-drop n ps)

length-take_le : (n : ℕ) (ps : List PendingProvision) → length (take n ps) ≤ n
length-take_le zero ps = omega arith
length-take_le (suc n) [] = omega arith
length-take_le (suc n) (p ∷ ps) = omega (arith, length-take_le n ps)

length-drop_le : (n : ℕ) (ps : List PendingProvision) → length (drop n ps) ≤ length ps
length-drop_le zero ps = omega arith
length-drop_le (suc n) [] = omega arith
length-drop_le (suc n) (p ∷ ps) = omega (arith, length-drop_le n ps)

chunks_from_lem :
    (fuel n : ℕ) (ps : List PendingProvision)
    → length ps ≤ fuel
    → (concat (chunks_from fuel (suc n) ps) ≡ ps) × AllAtMost (suc n) (chunks_from fuel (suc n) ps)
unfolding chunks_from
chunks_from_lem zero n [] enough = (refl, tt)
chunks_from_lem zero n (p ∷ ps) enough = absurd (omega (arith, enough))
chunks_from_lem (suc fuel) n [] enough = (refl, tt)
chunks_from_lem (suc fuel) n (p ∷ ps) enough =
    let rest = chunks_from_lem fuel n (drop n ps) (omega (arith, enough, length-drop_le n ps)) in
    (
      ap (λ qs. append (take (suc n) (p ∷ ps)) qs) rest.0 ∙ take-drop (suc n) (p ∷ ps),
      (length-take_le (suc n) (p ∷ ps), rest.1),
    )

-- `chunks` cuts the list into pieces of at most `n` machines, for every `n` from 1 on: end to end
-- they are the list, so the second pass leaves no machine out and runs at most `n` threads at once.
pub chunks_lem :
    (n : ℕ) (ps : List PendingProvision)
    → 1 ≤ n
    → (concat (chunks n ps) ≡ ps) × AllAtMost n (chunks n ps)
unfolding chunks
chunks_lem zero ps h = absurd (omega (arith, h))
chunks_lem (suc n) ps h = chunks_from_lem (length ps) n ps (omega arith)
