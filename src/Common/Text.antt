-- ===== src/Common/Text.antt =====
-- The order of texts, Go's `<` on strings, and the tests that the program makes on their characters.
-- UTF-8 keeps the order of code points, so the order of the bytes is that of the code points.
use Prim.Native.Char.{code}
use Prim.Native.String.{String}
use text.Mathlib.TextEquality.{Char-path}
use hacker_sprint2_sim.Common.Tests.{ltb, leb, ◌==◌, same}
use hacker_sprint2_sim.Common.Lists.{length}
use Prim.Native.Nat.{ℕ}
use mathlib.Core.Path.{◌≡◌, refl, ap₂}
use mathlib.Core.Bool.{Bool, true, false, ◌&&◌, ◌||◌}
use mathlib.Core.List.{List, [], ◌∷◌}
use native.Mathlib.Omega.{arith}

-- The code points of a text.
abbrev pub codes : String → List ℕ
codes String.[] = []
codes (String.◌∷◌ c s) = code c ∷ codes s

codes_injective : (s t : String) → codes s ≡ codes t → s ≡ t
codes_injective String.[] String.[] h = refl
codes_injective String.[] (String.◌∷◌ d t) h = cc
codes_injective (String.◌∷◌ c s) String.[] h = cc
codes_injective (String.◌∷◌ c s) (String.◌∷◌ d t) h =
    ap₂ String.◌∷◌ (Char-path c d (ground arith)) (codes_injective s t (ground arith))

-- The lexicographic order of code points.
unfoldable pub less_codes : List ℕ → List ℕ → Bool
less_codes [] [] = false
less_codes [] (d ∷ t) = true
less_codes (c ∷ s) [] = false
less_codes (c ∷ s) (d ∷ t) = ltb c d || (c == d && less_codes s t)

less_codes_irrefl : (s : List ℕ) → less_codes s s ≡ false
unfolding less_codes
less_codes_irrefl [] = refl
less_codes_irrefl (c ∷ s) = ground (arith, less_codes_irrefl s)

less_codes_trans :
    (s t u : List ℕ) → less_codes s t ≡ true → less_codes t u ≡ true → less_codes s u ≡ true
unfolding less_codes
less_codes_trans [] t [] h k =
    elim t as (λ t. less_codes [] t ≡ true → less_codes t [] ≡ true → less_codes [] [] ≡ true) [
      | [] ↦ λ h k. h
      | d ∷ t ↦ λ h k. k
    ]
      h k
less_codes_trans [] t (e ∷ u) h k = refl
less_codes_trans (c ∷ s) [] u h k = cc
less_codes_trans (c ∷ s) (d ∷ t) [] h k = cc
less_codes_trans (c ∷ s) (d ∷ t) (e ∷ u) h k = ground (arith, less_codes_trans s t u)

less_codes_total : (s t : List ℕ) → less_codes s t ≡ false → less_codes t s ≡ false → s ≡ t
unfolding less_codes
less_codes_total [] [] h k = refl
less_codes_total [] (d ∷ t) h k = cc
less_codes_total (c ∷ s) [] h k = cc
less_codes_total (c ∷ s) (d ∷ t) h k = ground (arith, less_codes_total s t)

-- `before s t` is `s < t`.
unfoldable pub before : String → String → Bool
unfolding less_codes
before s t = less_codes (codes s) (codes t)

pub before_irrefl : (s : String) → before s s ≡ false
unfolding before
before_irrefl s = less_codes_irrefl (codes s)

pub before_trans : (s t u : String) → before s t ≡ true → before t u ≡ true → before s u ≡ true
unfolding before
before_trans s t u h k = less_codes_trans (codes s) (codes t) (codes u) h k

pub before_total : (s t : String) → before s t ≡ false → before t s ≡ false → s ≡ t
unfolding before
before_total s t h k = codes_injective s t (less_codes_total (codes s) (codes t) h k)

-- strings.Contains, on code points.
unfoldable pub is_prefix : List ℕ → List ℕ → Bool
is_prefix [] t = true
is_prefix (c ∷ s) [] = false
is_prefix (c ∷ s) (d ∷ t) = c == d && is_prefix s t

unfoldable pub contains_codes : List ℕ → List ℕ → Bool
contains_codes [] s = is_prefix s []
contains_codes (c ∷ t) s = is_prefix s (c ∷ t) || contains_codes t s

-- strings.Contains(t, s)
unfoldable pub contains : String → String → Bool
unfolding contains_codes is_prefix
contains t s = contains_codes (codes t) (codes s)

-- utf8.RuneCountInString
abbrev pub rune_count : String → ℕ
rune_count s = length (codes s)

-- s == ""
abbrev pub is_empty : String → Bool
is_empty s = same s ""

-- `[A-Za-z0-9]`
abbrev pub is_alnum : ℕ → Bool
is_alnum c = (leb b'A' c && leb c b'Z') || (leb b'a' c && leb c b'z') || (leb b'0' c && leb c b'9')

-- `[A-Za-z0-9._:-]`
abbrev pub is_resource_char : ℕ → Bool
is_resource_char c = is_alnum c || c == 46 || c == 95 || c == 58 || c == 45
