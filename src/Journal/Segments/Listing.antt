-- ===== src/Journal/Segments/Listing.antt =====
-- The order and the choice of `listSegments` of internal/persistence/journal/store.go.
use mathlib.Core.Path.{subst}
use hacker_sprint2_sim.Common.{
  ℕ, ◌≤◌, ◌<◌, ◌≡◌, refl, sym, Bool, true, false, List, [], ◌∷◌, arith, inl, inr, ◌⊎◌,
}
use hacker_sprint2_sim.Common.Tests.{◌==◌, if◌then◌else◌}
use hacker_sprint2_sim.Common.Lists.{All, All-map}
use hacker_sprint2_sim.Journal.Segments.{
  SegmentFile, sorts_before, insert_segment, sort_segments, deduplicate, list_segments,
}

-- Numbers ascend; of two entries with one number a compressed one comes first.
abbrev Follows : SegmentFile → SegmentFile → Type 0
Follows a b =
    (a.number ≤ b.number) × (a.number ≡ b.number → b.compressed ≡ true → a.compressed ≡ true)

data IsSorted : List SegmentFile → Type 0 where
  sorted_empty : IsSorted []
  sorted_next :
      {s : SegmentFile} {ss : List SegmentFile}
      → All (Follows s) ss
      → IsSorted ss
      → IsSorted (s ∷ ss)

-- To prove something of what an `if` chooses.
chosen :
    (P : List SegmentFile → Type 0) (b : Bool) (xs ys : List SegmentFile)
    → (b ≡ true → P xs)
    → (b ≡ false → P ys)
    → P (if b then xs else ys)
chosen P true xs ys h k = h refl
chosen P false xs ys h k = k refl

chosen_of :
    (P : List SegmentFile → Type 0) (b : Bool) (xs ys : List SegmentFile)
    → P (if b then xs else ys)
    → P xs ⊎ P ys
chosen_of P true xs ys h = inl h
chosen_of P false xs ys h = inr h

insert_segment-All :
    (P : SegmentFile → Type 0) (s : SegmentFile) (ss : List SegmentFile)
    → P s
    → All P ss
    → All P (insert_segment s ss)
unfolding insert_segment
insert_segment-All P s [] h k = (h, tt)
insert_segment-All P s (t ∷ ts) h k =
    chosen (All P) (sorts_before s t) (s ∷ t ∷ ts) (t ∷ insert_segment s ts) (λ b. (h, (k.0, k.1)))
      (λ b. (k.0, insert_segment-All P s ts h k.1))

-- What holds of the sorted entries holds of the entries.
All-insert_segment :
    (P : SegmentFile → Type 0) (s : SegmentFile) (ss : List SegmentFile)
    → All P (insert_segment s ss)
    → P s × All P ss
unfolding insert_segment
All-insert_segment P s [] h = h
All-insert_segment P s (t ∷ ts) h =
    elim (chosen_of (All P) (sorts_before s t) (s ∷ t ∷ ts) (t ∷ insert_segment s ts) h) [
      | inl first ↦ (first.0, first.1)
      | inr later ↦ let rest = All-insert_segment P s ts later.1 in (rest.0, (later.0, rest.1))
    ]

All-sort_segments :
    (P : SegmentFile → Type 0) (ss : List SegmentFile) → All P (sort_segments ss) → All P ss
unfolding sort_segments
All-sort_segments P [] h = tt
All-sort_segments P (s ∷ ss) h =
    let parts = All-insert_segment P s (sort_segments ss) h in
    (parts.0, All-sort_segments P ss parts.1)

sorts_before-Follows : (s t : SegmentFile) → sorts_before s t ≡ true → Follows s t
unfolding sorts_before
sorts_before-Follows s t h = ground arith

not_before-Follows : (s t : SegmentFile) → sorts_before s t ≡ false → Follows t s
unfolding sorts_before
not_before-Follows s t h = ground arith

Follows-trans : (a b c : SegmentFile) → Follows a b → Follows b c → Follows a c
Follows-trans a b c h k = ground arith

insert_segment-IsSorted :
    (s : SegmentFile) (ss : List SegmentFile) → IsSorted ss → IsSorted (insert_segment s ss)
unfolding insert_segment
insert_segment-IsSorted s [] h = sorted_next tt sorted_empty
insert_segment-IsSorted s (t ∷ ts) (sorted_next a h) =
    chosen IsSorted (sorts_before s t) (s ∷ t ∷ ts) (t ∷ insert_segment s ts)
      (λ b.
        let first = sorts_before-Follows s t b in
        sorted_next (first, All-map ts (λ c. Follows-trans s t c first) a) (sorted_next a h))
      (λ b.
        sorted_next (insert_segment-All (Follows t) s ts (not_before-Follows s t b) a)
          (insert_segment-IsSorted s ts h))

sort_segments-IsSorted : (ss : List SegmentFile) → IsSorted (sort_segments ss)
unfolding sort_segments
sort_segments-IsSorted [] = sorted_empty
sort_segments-IsSorted (s ∷ ss) =
    insert_segment-IsSorted s (sort_segments ss) (sort_segments-IsSorted ss)

-- A list has a segment with the number of an entry, compressed if the entry is.
pub data Covers (e : SegmentFile) : List SegmentFile → Type 0 where
  covers_here :
      {s : SegmentFile} {ss : List SegmentFile}
      → s.number ≡ e.number
      → (e.compressed ≡ true → s.compressed ≡ true)
      → Covers e (s ∷ ss)
  covers_later : {s : SegmentFile} {ss : List SegmentFile} → Covers e ss → Covers e (s ∷ ss)

-- Each number is greater than the one before.
pub data IsAscending : List SegmentFile → Type 0 where
  ascending_empty : IsAscending []
  ascending_next :
      {s : SegmentFile} {ss : List SegmentFile}
      → All (λ t. s.number < t.number) ss
      → IsAscending ss
      → IsAscending (s ∷ ss)

Covers-behind :
    (a b : SegmentFile) (rest ss : List SegmentFile)
    → All (λ e. Covers e (b ∷ rest)) ss
    → All (λ e. Covers e (a ∷ b ∷ rest)) ss
Covers-behind a b rest ss h = All-map ss (λ e c. covers_later c) h

deduplicate-Covers :
    (s : SegmentFile) (ss : List SegmentFile)
    → All (Follows s) ss
    → IsSorted ss
    → All (λ e. Covers e (s ∷ deduplicate s.number ss)) ss
unfolding deduplicate
deduplicate-Covers s [] a h = tt
deduplicate-Covers s (x ∷ xs) a (sorted_next b h) =
    chosen (λ kept. All (λ e. Covers e (s ∷ kept)) (x ∷ xs)) (s.number == x.number)
      (deduplicate s.number xs) (x ∷ deduplicate x.number xs)
      (λ q.
        let equal : s.number ≡ x.number = ground arith in
        (covers_here equal (a.0.1 equal), deduplicate-Covers s xs a.1 h))
      (λ q. (
        covers_later (covers_here refl (λ c. c)),
        Covers-behind s x (deduplicate x.number xs) xs (deduplicate-Covers x xs b h),
      ))

-- Behind a kept segment the numbers are greater, and ascend.
deduplicate-IsAscending :
    (n : ℕ) (ss : List SegmentFile)
    → All (λ t. n ≤ t.number) ss
    → IsSorted ss
    → All (λ t. n < t.number) (deduplicate n ss) × IsAscending (deduplicate n ss)
unfolding deduplicate
deduplicate-IsAscending n [] a h = (tt, ascending_empty)
deduplicate-IsAscending n (x ∷ xs) a (sorted_next b h) =
    chosen (λ kept. All (λ t. n < t.number) kept × IsAscending kept) (n == x.number)
      (deduplicate n xs) (x ∷ deduplicate x.number xs) (λ q. deduplicate-IsAscending n xs a.1 h)
      (λ q.
        let greater : n < x.number = let le = a.0 in ground arith in
        let more = deduplicate-IsAscending x.number xs (All-map xs (λ t f. f.0) b) h in
        (
          (greater, All-map (deduplicate x.number xs) (λ t lt. omega arith) more.0),
          ascending_next more.0 more.1,
        ))

listing :
    (entries sorted : List SegmentFile)
    → IsSorted sorted
    → ((P : SegmentFile → Type 0) → All P sorted → All P entries)
    → (ss : List SegmentFile)
    → ss ≡ elim sorted [ [] ↦ [] | s ∷ more ↦ s ∷ deduplicate s.number more ]
    → IsAscending ss × All (λ e. Covers e ss) entries
listing entries [] h back ss q =
    subst (λ x. IsAscending x × All (λ e. Covers e x) entries) (sym q)
      (ascending_empty, back (λ e. Covers e []) tt)
listing entries (s ∷ more) (sorted_next a h) back ss q =
    let above = deduplicate-IsAscending s.number more (All-map more (λ t f. f.0) a) h in
    subst (λ x. IsAscending x × All (λ e. Covers e x) entries) (sym q)
      (
        ascending_next above.0 above.1,
        back (λ e. Covers e (s ∷ deduplicate s.number more))
            (covers_here refl (λ c. c), deduplicate-Covers s more a h),
      )

-- Whatever the order of the directory, the segments that are read have ascending numbers, and each
-- entry is covered by one of them with its number, which is compressed if the entry is. So where a
-- crash left a segment both compressed and plain, the compressed one is read and the other is not.
pub list_segments-IsAscending :
    (entries : List SegmentFile)
    → IsAscending (list_segments entries) × All (λ e. Covers e (list_segments entries)) entries
unfolding list_segments
list_segments-IsAscending entries =
    listing entries (sort_segments entries) (sort_segments-IsSorted entries)
      (λ P. All-sort_segments P entries) (list_segments entries) refl
