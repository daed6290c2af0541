-- ===== src/Common/Sort.antt =====
-- sort.Slice with a strict order, as a stable insertion sort. Where the order tells any two elements
-- apart, every sorting routine returns this list.
use mathlib.Core.Path.{◌≡◌}
use mathlib.Core.Bool.{Bool, true, false}
use mathlib.Core.Logic.{inl, inr}
use mathlib.Core.List.{List, [], ◌∷◌, Perm}
use mathlib.Core.List.Perm
use hacker_sprint2_sim.Common.Tests.{if◌then◌else◌, Bool-cases}
use hacker_sprint2_sim.Common.Lists.{All}

module _ {ℓ} {A : Type ℓ} (less : A → A → Bool) where
  unfoldable pub place : A → List A → List A
  place x [] = x ∷ []
  place x (y ∷ ys) = if less y x then y ∷ place x ys else x ∷ y ∷ ys

  unfoldable pub sort : List A → List A
  unfolding place
  sort [] = []
  sort (x ∷ xs) = place x (sort xs)

  -- No element stands behind one that it precedes.
  abbrev pub IsSorted : List A → Type ℓ
  IsSorted [] = Unit
  IsSorted (x ∷ xs) = All (λ y. less y x ≡ false) xs × IsSorted xs

  place-perm : (x : A) (ys : List A) → Perm (place x ys) (x ∷ ys)
  unfolding place
  place-perm x [] = Perm.refl _
  place-perm x (y ∷ ys) = elim (Bool-cases (less y x)) [
    | inl e ↦ rw e (Perm.trans (Perm.cons y (place-perm x ys)) (Perm.swap x y ys))
    | inr e ↦ rw e (Perm.refl _)
  ]

  pub sort-perm : (xs : List A) → Perm (sort xs) xs
  unfolding sort
  sort-perm [] = Perm.refl _
  sort-perm (x ∷ xs) = Perm.trans (place-perm x (sort xs)) (Perm.cons x (sort-perm xs))

  module _ (asym : (a b : A) → less a b ≡ true → less b a ≡ false)
      (neg_trans : (a b c : A) → less a b ≡ false → less b c ≡ false → less a c ≡ false) where
    place-All :
        (z x : A) (ys : List A)
        → less x z ≡ false
        → All (λ y. less y z ≡ false) ys
        → All (λ y. less y z ≡ false) (place x ys)
    unfolding place
    place-All z x [] h a = (h, tt)
    place-All z x (y ∷ ys) h a = elim (Bool-cases (less y x)) [
      | inl e ↦ rw e (a.0, place-All z x ys h a.1)
      | inr e ↦ rw e (h, a)
    ]

    -- What stands behind y stands behind all that y does not stand behind.
    pub behind :
        (x y : A) (ys : List A)
        → less y x ≡ false
        → All (λ z. less z y ≡ false) ys
        → All (λ z. less z x ≡ false) ys
    behind x y [] h a = tt
    behind x y (z ∷ ys) h a = (neg_trans z y x a.0 h, behind x y ys h a.1)

    place-IsSorted : (x : A) (ys : List A) → IsSorted ys → IsSorted (place x ys)
    unfolding place
    place-IsSorted x [] h = (tt, tt)
    place-IsSorted x (y ∷ ys) h = elim (Bool-cases (less y x)) [
      | inl e ↦ rw e (place-All y x ys (asym y x e) h.0, place-IsSorted x ys h.1)
      | inr e ↦ rw e ((e, behind x y ys e h.0), h)
    ]

    pub sort-IsSorted : (xs : List A) → IsSorted (sort xs)
    unfolding sort
    sort-IsSorted [] = tt
    sort-IsSorted (x ∷ xs) = place-IsSorted x (sort xs) (sort-IsSorted xs)
