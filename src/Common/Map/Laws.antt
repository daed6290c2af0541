-- ===== src/Common/Map/Laws.antt =====
-- What a lookup sees after a write or a deletion.
use Prim.Native.String.{String}
use mathlib.Core.Path.{◌≡◌, refl}
use mathlib.Core.Logic.{◌≢◌}
use mathlib.Core.Bool.{true, false}
use mathlib.Core.List.{[], ◌∷◌}
use mathlib.Core.Option.{none, some}
use native.Mathlib.Omega.{arith}
use hacker_sprint2_sim.Common.Tests.{same, same_iff, same_refl, if◌then◌else◌}
use hacker_sprint2_sim.Common.Map.Defs.{Map, lookup, insert, erase, has, UniqueKeys}

module _ {ℓ} {V : Type ℓ} where
  pub lookup-insert :
      (k j : String) (v : V) (m : Map V)
      → lookup j (insert k v m) ≡ (if same k j then some v else lookup j m)
  unfolding lookup insert
  lookup-insert k j v [] = refl
  lookup-insert k j v ((i, w) ∷ m) =
      ground (arith, same_iff k j, same_iff i k, same_iff i j, lookup-insert k j v m)

  pub lookup-erase :
      (k j : String) (m : Map V) → lookup j (erase k m) ≡ (if same k j then none else lookup j m)
  unfolding lookup erase
  lookup-erase k j [] = ground arith
  lookup-erase k j ((i, w) ∷ m) =
      ground (arith, same_iff k j, same_iff i k, same_iff i j, lookup-erase k j m)

  pub has-insert :
      (k j : String) (v : V) (m : Map V)
      → has j (insert k v m) ≡ (if same k j then true else has j m)
  unfolding has
  has-insert k j v m = ground (arith, lookup-insert k j v m)

  pub has-erase :
      (k j : String) (m : Map V) → has j (erase k m) ≡ (if same k j then false else has j m)
  unfolding has
  has-erase k j m = ground (arith, lookup-erase k j m)

  pub lookup-insert_self : (k : String) (v : V) (m : Map V) → lookup k (insert k v m) ≡ some v
  lookup-insert_self k v m = rw (lookup-insert, same_refl k)

  pub lookup-insert_ne :
      (k j : String) (v : V) (m : Map V) → k ≢ j → lookup j (insert k v m) ≡ lookup j m
  lookup-insert_ne k j v m h = ground (arith, same_iff k j, lookup-insert k j v m)

  pub lookup-erase_self : (k : String) (m : Map V) → lookup k (erase k m) ≡ none
  lookup-erase_self k m = rw (lookup-erase, same_refl k)

  pub lookup-erase_ne : (k j : String) (m : Map V) → k ≢ j → lookup j (erase k m) ≡ lookup j m
  lookup-erase_ne k j m h = ground (arith, same_iff k j, lookup-erase k j m)

  pub insert-UniqueKeys :
      (k : String) (v : V) (m : Map V) → UniqueKeys m → UniqueKeys (insert k v m)
  unfolding insert
  insert-UniqueKeys k v [] h = (unfold has lookup in refl, tt)
  insert-UniqueKeys k v ((i, w) ∷ m) h =
      ground (arith, insert-UniqueKeys k v m h.1, has-insert k i v m, same_iff i k, same_iff k i)

  pub erase-UniqueKeys : (k : String) (m : Map V) → UniqueKeys m → UniqueKeys (erase k m)
  unfolding erase
  erase-UniqueKeys k [] h = tt
  erase-UniqueKeys k ((i, w) ∷ m) h =
      ground (arith, erase-UniqueKeys k m h.1, has-erase k i m, same_iff i k, same_iff k i)

pub ruleset map_laws = (lookup-insert, lookup-erase, has-insert, has-erase)
