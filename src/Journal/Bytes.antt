-- ===== src/Journal/Bytes.antt =====
-- Big-endian integers and `io.ReadFull` on byte sequences, as internal/persistence/journal/format.go
-- uses them.
use hacker_sprint2_sim.Common.{
  ℕ, zero, suc, ◌+◌, ◌*◌, ◌/◌, ◌%◌, ◌^◌, ◌<◌, ◌≡◌, refl, ◌∙◌, Option, none, some, List, [], ◌∷◌,
  ◌++◌, arith, Bool, true, false, ◌&&◌, inl, inr,
}
use native.Mathlib.Numerals.{unary_clauses}
use hacker_sprint2_sim.Common.Lists.{length, length-append, take, drop}
use hacker_sprint2_sim.Common.Tests.{Option-cases, ◌==◌}

-- []byte
abbrev pub Bytes : Type 0
Bytes = List ℕ

-- binary.BigEndian.PutUint16, PutUint32 and PutUint64: the low `n` bytes of a number.
unfoldable pub put_uint : ℕ → ℕ → Bytes
put_uint zero v = []
put_uint (suc n) v = put_uint n (v / 256) ++ (v % 256 ∷ [])

unfoldable pub get_from : ℕ → Bytes → ℕ
get_from acc [] = acc
get_from acc (b ∷ bs) = get_from (acc * 256 + b) bs

-- binary.BigEndian.Uint16, Uint32 and Uint64
unfoldable pub get_uint : Bytes → ℕ
unfolding get_from
get_uint bs = get_from 0 bs

get_from-append :
    (acc b : ℕ) (bs : Bytes) → get_from acc (bs ++ (b ∷ [])) ≡ get_from acc bs * 256 + b
unfolding get_from
get_from-append acc b [] = refl
get_from-append acc b (c ∷ bs) = get_from-append (acc * 256 + c) b bs

-- A number that fits into `n` bytes is read back as it was written.
pub get_uint-put_uint : (n v : ℕ) → v < 256 ^ n → get_uint (put_uint n v) ≡ v
unfolding get_uint get_from put_uint
get_uint-put_uint zero v h = omega arith
get_uint-put_uint (suc n) v h =
    get_from-append 0 (v % 256) (put_uint n (v / 256))
    ∙ omega (
      arith,
      get_uint-put_uint n (v / 256)
          (let big : v < 256 ^ n * 256 = simp unary_clauses at h in omega arith),
    )

pub length-put_uint : (n v : ℕ) → length (put_uint n v) ≡ n
unfolding put_uint
length-put_uint zero v = refl
length-put_uint (suc n) v =
    omega (arith, length-append (put_uint n (v / 256)) (v % 256 ∷ []), length-put_uint n (v / 256))

-- value[offset:offset+n]
abbrev pub slice : ℕ → ℕ → Bytes → Bytes
slice offset n bs = take n (drop offset bs)

-- What `io.ReadFull` of `n` bytes takes and leaves, and `none` where fewer are left.
unfoldable pub split_at : ℕ → Bytes → Option (Bytes × Bytes)
split_at zero bs = some ([], bs)
split_at (suc n) [] = none
split_at (suc n) (b ∷ bs) = elim (split_at n bs) [
  | none ↦ none
  | some (taken, rest) ↦ some (b ∷ taken, rest)
]

pub split_at-append : (xs ys : Bytes) → split_at (length xs) (xs ++ ys) ≡ some (xs, ys)
unfolding split_at
split_at-append [] ys = refl
split_at-append (x ∷ xs) ys = rw (split_at-append xs ys) refl

-- A read that is answered takes `n` bytes off the front.
pub split_at-some :
    (n : ℕ) (bs taken rest : Bytes)
    → split_at n bs ≡ some (taken, rest)
    → (bs ≡ taken ++ rest) × (length taken ≡ n)
unfolding split_at
split_at-some zero bs taken rest h = ground (arith)
split_at-some (suc n) [] taken rest h = ground (arith)
split_at-some (suc n) (b ∷ bs) taken rest h = elim (Option-cases (split_at n bs)) [
  | inl e ↦ ground (arith)
  | inr ((front, back), e) ↦ ground (arith, split_at-some n bs front back e)
]

pub split_at-none : (n : ℕ) (bs : Bytes) → length bs < n → split_at n bs ≡ none
unfolding split_at
split_at-none zero bs h = absurd (omega arith)
split_at-none (suc n) [] h = refl
split_at-none (suc n) (b ∷ bs) h = rw (split_at-none n bs (omega arith)) refl

-- bytes.Equal
unfoldable pub bytes_equal : Bytes → Bytes → Bool
bytes_equal [] [] = true
bytes_equal [] (c ∷ cs) = false
bytes_equal (b ∷ bs) [] = false
bytes_equal (b ∷ bs) (c ∷ cs) = b == c && bytes_equal bs cs
