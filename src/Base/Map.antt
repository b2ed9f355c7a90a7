-- ===== src/Base/Map.antt =====
-- `std::collections::HashMap` as an association list. The order of the entries stands for the
-- unspecified order of iteration.
use mathlib.Core.Bool.{Bool, true, false}
use mathlib.Core.List.{List, [], ◌∷◌}
use mathlib.Core.Logic.{◌≢◌}
use mathlib.Core.Option.{Option, none, some}
use mathlib.Core.Option
use mathlib.Core.Path.{◌≡◌, refl}
use native.Mathlib.Omega.{arith}
use Prim.Native.String.{String}
use text.Mathlib.TextEquality.{eq_iff}
use text.Mathlib.TextPositions.{eq_refl}
use clawstainer.Base.Tests.{◌==◌, if◌then◌else◌, eq-false_of_ne}

abbrev pub Map {ℓ} : Type ℓ → Type ℓ
Map V = List (String × V)

abbrev pub is_some {ℓ} : {A : Type ℓ} → Option A → Bool
is_some none = false
is_some (some _) = true

module _ {ℓ} {V : Type ℓ} where
  unfoldable pub get : String → Map V → Option V
  get k [] = none
  get k ((j, v) ∷ m) = if j == k then some v else get k m

  unfoldable pub contains_key : String → Map V → Bool
  contains_key k m = is_some (get k m)

  unfoldable pub insert : String → V → Map V → Map V
  insert k v [] = (k, v) ∷ []
  insert k v ((j, w) ∷ m) = if j == k then (k, v) ∷ m else (j, w) ∷ insert k v m

  unfoldable pub remove : String → Map V → Map V
  remove k [] = []
  remove k ((j, v) ∷ m) = let rest = remove k m in if j == k then rest else (j, v) ∷ rest

  -- `get_mut` followed by a change of the value.
  unfoldable pub modify : String → (V → V) → Map V → Map V
  modify k f [] = []
  modify k f ((j, v) ∷ m) = (j, if j == k then f v else v) ∷ modify k f m

  unfoldable pub keys : Map V → List String
  keys [] = []
  keys ((k, _) ∷ m) = k ∷ keys m

  unfoldable pub values : Map V → List V
  values [] = []
  values ((_, v) ∷ m) = v ∷ values m

  pub get-insert :
      (k j : String) (v : V) (m : Map V)
      → get j (insert k v m) ≡ (if k == j then some v else get j m)
  unfolding get insert
  get-insert k j v [] = refl
  get-insert k j v ((i, w) ∷ m) =
      ground (arith, eq_iff k j, eq_iff i k, eq_iff i j, get-insert k j v m)

  pub get-remove :
      (k j : String) (m : Map V) → get j (remove k m) ≡ (if k == j then none else get j m)
  unfolding get remove
  get-remove k j [] = ground arith
  get-remove k j ((i, v) ∷ m) = ground (arith, get-remove k j m, eq_iff i k, eq_iff i j, eq_iff k j)

  pub get-modify :
      (k j : String) (f : V → V) (m : Map V)
      → get j (modify k f m) ≡ (if k == j then Option.map f (get j m) else get j m)
  unfolding get modify
  get-modify k j f [] = ground arith
  get-modify k j f ((i, v) ∷ m) =
      ground (arith, get-modify k j f m, eq_iff i k, eq_iff i j, eq_iff k j)

  pub get-insert_self : (k : String) (v : V) (m : Map V) → get k (insert k v m) ≡ some v
  get-insert_self k v m = simp (get-insert, eq_refl)

  pub get-insert_ne : (k j : String) (v : V) (m : Map V) → k ≢ j → get j (insert k v m) ≡ get j m
  get-insert_ne k j v m h = simp (get-insert, eq-false_of_ne k j h)

  pub get-remove_self : (k : String) (m : Map V) → get k (remove k m) ≡ none
  get-remove_self k m = simp (get-remove, eq_refl)

  pub get-remove_ne : (k j : String) (m : Map V) → k ≢ j → get j (remove k m) ≡ get j m
  get-remove_ne k j m h = simp (get-remove, eq-false_of_ne k j h)

pub ruleset map_laws = (get-insert, get-remove, get-modify)
