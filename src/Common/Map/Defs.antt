-- ===== src/Common/Map/Defs.antt =====
-- Lookup, write and deletion on association lists keyed by texts.
use Prim.Native.String.{String}
use mathlib.Core.Path.{◌≡◌}
use mathlib.Core.Bool.{Bool, true, false}
use mathlib.Core.List.{List, [], ◌∷◌}
use mathlib.Core.Option.{Option, none, some}
use hacker_sprint2_sim.Common.Tests.{same, if◌then◌else◌}
use hacker_sprint2_sim.Common.Int.{ℤ, pos, ◌+ℤ◌}

abbrev pub Map {ℓ} : Type ℓ → Type ℓ
Map V = List (String × V)

module _ {ℓ} {V : Type ℓ} where
  -- v, exists := m[k]
  unfoldable pub lookup : String → Map V → Option V
  lookup k [] = none
  lookup k ((j, v) ∷ m) = if same j k then some v else lookup k m

  -- m[k] = v
  unfoldable pub insert : String → V → Map V → Map V
  insert k v [] = (k, v) ∷ []
  insert k v ((j, w) ∷ m) = if same j k then (j, v) ∷ m else (j, w) ∷ insert k v m

  -- delete(m, k)
  unfoldable pub erase : String → Map V → Map V
  erase k [] = []
  erase k ((j, v) ∷ m) = let rest = erase k m in if same j k then rest else (j, v) ∷ rest

  -- _, exists := m[k]
  unfoldable pub has : String → Map V → Bool
  has k m = elim (lookup k m) [ none ↦ false | some _ ↦ true ]

  -- The map without the entries that fail a test, as a loop with `delete` leaves it.
  unfoldable pub entries_where : (V → Bool) → Map V → Map V
  entries_where p [] = []
  entries_where p ((j, v) ∷ m) = let rest = entries_where p m in if p v then (j, v) ∷ rest else rest

  unfoldable pub values : Map V → List V
  values [] = []
  values ((j, v) ∷ m) = v ∷ values m

  -- The sum of a quantity over the entries.
  unfoldable pub total : (V → ℤ) → Map V → ℤ
  total f [] = pos 0
  total f ((j, v) ∷ m) = f v +ℤ total f m

  -- No key stands twice, as in every Go map.
  abbrev pub UniqueKeys : Map V → Type 0
  UniqueKeys [] = Unit {0}
  UniqueKeys ((j, v) ∷ m) = (has j m ≡ false) × UniqueKeys m
