-- ===== src/Common/Map/Totals.antt =====
-- How a sum over the entries moves with a write or a deletion.
use Prim.Native.String.{String}
use mathlib.Core.Path.{◌≡◌, refl}
use mathlib.Core.Bool.{Bool, false}
use mathlib.Core.List.{[], ◌∷◌}
use mathlib.Core.Option.{none, some}
use mathlib.Core.Logic.{inl, inr}
use hacker_sprint2_sim.Common.Tests.{same, same_iff, Bool-cases, if◌then◌else◌}
use hacker_sprint2_sim.Common.Int.{ℤ, pos, ◌+ℤ◌, int_laws}
use hacker_sprint2_sim.Common.Map.Defs.{
  Map, lookup, insert, erase, total, has, UniqueKeys, entries_where,
}

module _ {ℓ} {V : Type ℓ} (f : V → ℤ) where
  pub total-insert_new :
      (k : String) (v : V) (m : Map V)
      → lookup k m ≡ none
      → total f (insert k v m) ≡ f v +ℤ total f m
  unfolding lookup insert total
  total-insert_new k v [] h = refl
  total-insert_new k v ((i, w) ∷ m) h = grind (int_laws, total-insert_new k v m)

  pub total-insert_old :
      (k : String) (v w : V) (m : Map V)
      → lookup k m ≡ some w
      → total f (insert k v m) +ℤ f w ≡ f v +ℤ total f m
  unfolding lookup insert total
  total-insert_old k v w [] h = grind int_laws
  total-insert_old k v w ((i, u) ∷ m) h = grind (int_laws, total-insert_old k v w m)

  pub total-erase_none :
      (k : String) (m : Map V) → has k m ≡ false → total f (erase k m) ≡ total f m
  unfolding has lookup erase total
  total-erase_none k [] h = refl
  total-erase_none k ((i, u) ∷ m) h = grind (int_laws, total-erase_none k m)

  pub total-erase :
      (k : String) (w : V) (m : Map V)
      → UniqueKeys m
      → lookup k m ≡ some w
      → total f (erase k m) +ℤ f w ≡ total f m
  unfolding lookup erase total
  total-erase k w [] u h = grind int_laws
  total-erase k w ((i, x) ∷ m) u h = elim (Bool-cases (same i k)) [
    | inl e ↦ grind (int_laws, same_iff i k, total-erase_none k m)
    | inr e ↦ grind (int_laws, total-erase k w m u.1)
  ]

  -- A sum splits into the entries that a test keeps and those that it drops.
  pub total-where :
      (p : V → Bool) (m : Map V)
      → total f m ≡ total f (entries_where p m) +ℤ total (λ v. if p v then pos 0 else f v) m
  unfolding total entries_where
  total-where p [] = omega int_laws
  total-where p ((i, x) ∷ m) = grind (int_laws, total-where p m)
