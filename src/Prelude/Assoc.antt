-- ===== src/Prelude/Assoc.antt =====
-- A set of texts as a list, and a `HashMap<String, V>` as an association list: `get` and `insert`.
-- The entries stand in the order of insertion; where the source goes over a set or a map, the order
-- is a parameter.
use mathlib.Core.Path.{◌≡◌}
use mathlib.Core.Bool.{Bool, false, ◌||◌}
use mathlib.Core.List.{List, [], ◌∷◌}
use mathlib.Core.Option.{Option, none, some}
use Prim.Native.String.{String}
use text.Mathlib.Text.{◌==◌}
use thebalance.Prelude.Tests.{if◌then◌else◌}

-- The entries of a map, each name once.
abbrev pub Assoc {ℓ} : (Value : Type ℓ) → Type ℓ
Assoc Value = List (String × Value)

module _ {ℓ} {Value : Type ℓ} where
  unfoldable pub lookup : (name : String) (entries : Assoc Value) → Option Value
  lookup name [] = none
  lookup name (entry ∷ entries) =
      let behind = lookup name entries in if entry.0 == name then some entry.1 else behind

  unfoldable pub insert : (name : String) (value : Value) (entries : Assoc Value) → Assoc Value
  insert name value [] = (name, value) ∷ []
  insert name value (entry ∷ entries) =
      let behind = insert name value entries in
      if entry.0 == name then (name, value) ∷ entries else entry ∷ behind

unfoldable pub mem : String → List String → Bool
mem x [] = false
mem x (y ∷ ys) = y == x || mem x ys

-- No text is there twice.
abbrev pub HasNone : List String → Type 0
HasNone [] = Unit
HasNone (x ∷ xs) = (mem x xs ≡ false) × HasNone xs

-- `collect()` into a `HashSet`, which keeps each text once; here at its last place.
unfoldable pub dedup : List String → List String
unfolding mem
dedup [] = []
dedup (x ∷ xs) = let rest = dedup xs in if mem x xs then rest else x ∷ rest
