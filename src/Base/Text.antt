-- ===== src/Base/Text.antt =====
-- A Go string is its list of bytes. `codes` writes an ASCII literal.
use Prim.Native.Nat.{ℕ, suc, ◌+◌}
use Prim.Native.Char.{code}
use Prim.Native.String.{String}
use mathlib.Core.Path.{◌≡◌, refl, ap}
use mathlib.Core.Logic.{◌↔◌, ◌≢◌, inl, inr}
use mathlib.Core.Bool.{Bool, true, false, ◌&&◌, ◌||◌}
use mathlib.Core.List.{List, [], ◌∷◌, ◌++◌}
use native.Mathlib.Omega.{arith}
use front_basicrum_go.Base.Tests.{◌==◌, if◌then◌else◌, Bool-cases}
use front_basicrum_go.Base.Lists.{length}

abbrev pub Bytes : Type 0
Bytes = List ℕ

unfoldable pub codes : String → Bytes
codes String.[] = []
codes (String.◌∷◌ c s) = code c ∷ codes s

-- Go's `==` on strings.
unfoldable pub eqb : Bytes → Bytes → Bool
eqb [] [] = true
eqb [] (c ∷ t) = false
eqb (b ∷ s) [] = false
eqb (b ∷ s) (c ∷ t) = (b == c) && eqb s t

eqb_sound : (s t : Bytes) → eqb s t ≡ true → s ≡ t
unfolding eqb
eqb_sound [] [] h = refl
eqb_sound [] (c ∷ t) h = cc
eqb_sound (b ∷ s) [] h = cc
eqb_sound (b ∷ s) (c ∷ t) h = ground (arith, eqb_sound s t)

pub eqb_refl : (s : Bytes) → eqb s s ≡ true
unfolding eqb
eqb_refl [] = refl
eqb_refl (b ∷ s) = ground (arith, eqb_refl s)

pub eqb_iff : (s t : Bytes) → (eqb s t ≡ true) ↔ (s ≡ t)
eqb_iff s t = (eqb_sound s t, λ h. rw h (eqb_refl t))

abbrev pub is_empty : Bytes → Bool
is_empty [] = true
is_empty (b ∷ s) = false

extend : ℕ → List Bytes → List Bytes
extend c [] = (c ∷ []) ∷ []
extend c (p ∷ ps) = (c ∷ p) ∷ ps

-- strings.Split on a separator of one byte.
unfoldable pub split : ℕ → Bytes → List Bytes
unfolding extend
split sep [] = [] ∷ []
split sep (c ∷ s) = if c == sep then [] ∷ split sep s else extend c (split sep s)

-- How often a byte stands in a text.
abbrev pub count : ℕ → Bytes → ℕ
count b [] = 0
count b (c ∷ s) = (if c == b then 1 else 0) + count b s

pub count-append : (b : ℕ) (s t : Bytes) → count b (s ++ t) ≡ count b s + count b t
count-append b [] t = omega arith
count-append b (c ∷ s) t = ground (arith, count-append b s t)

pub split-ne-nil : (sep : ℕ) (s : Bytes) → (p : Bytes) × (ps : List Bytes) × (split sep s ≡ p ∷ ps)
unfolding split
split-ne-nil sep [] = ([], [], refl)
split-ne-nil sep (c ∷ s) = elim (Bool-cases (c == sep)) [
  | inl e ↦ ([], split sep s, rw e)
  | inr e ↦ let (p, ps, q) = split-ne-nil sep s in (c ∷ p, ps, rw e (ap (extend c) q))
]

pub length-split : (sep : ℕ) (s : Bytes) → length (split sep s) ≡ suc (count sep s)
unfolding split
length-split sep [] = refl
length-split sep (c ∷ s) =
    let (p, ps, q) = split-ne-nil sep s in ground (arith, q, length-split sep s)

pub split-append :
    (sep : ℕ) (s t : Bytes) → count sep s ≡ 0 → split sep (s ++ sep ∷ t) ≡ s ∷ split sep t
unfolding split
split-append sep [] t h = ground arith
split-append sep (c ∷ s) t h = ground (arith, split-append sep s t)

pub split_whole : (sep : ℕ) (s : Bytes) → count sep s ≡ 0 → split sep s ≡ s ∷ []
unfolding split
split_whole sep [] h = refl
split_whole sep (c ∷ s) h = ground (arith, split_whole sep s)

pub is_empty_of_ne : (s : Bytes) → s ≢ [] → is_empty s ≡ false
is_empty_of_ne [] h = absurd (h refl)
is_empty_of_ne (c ∷ s) h = refl

pub eqb_append_left : (s t u : Bytes) → eqb (s ++ t) (s ++ u) ≡ eqb t u
unfolding eqb
eqb_append_left [] t u = refl
eqb_append_left (c ∷ s) t u = ground (arith, eqb_append_left s t u)

-- A text is not equal to a longer one that starts with it.
pub eqb_longer : (s : Bytes) (c : ℕ) (t : Bytes) → eqb (s ++ c ∷ t) s ≡ false
unfolding eqb
eqb_longer [] c t = refl
eqb_longer (b ∷ s) c t = ground (arith, eqb_longer s c t)

unfoldable pub has_prefix : Bytes → Bytes → Bool
has_prefix [] s = true
has_prefix (c ∷ p) [] = false
has_prefix (c ∷ p) (b ∷ s) = b == c && has_prefix p s

-- `strings.Contains`
unfoldable pub contains : Bytes → Bytes → Bool
contains [] p = has_prefix p []
contains (c ∷ s) p = has_prefix p (c ∷ s) || contains s p

pub has_prefix-append : (p t : Bytes) → has_prefix p (p ++ t) ≡ true
unfolding has_prefix
has_prefix-append [] t = refl
has_prefix-append (c ∷ p) t = ground (arith, has_prefix-append p t)

contains-prefix : (s p : Bytes) → has_prefix p s ≡ true → contains s p ≡ true
unfolding contains
contains-prefix [] p h = h
contains-prefix (c ∷ s) p h = ground arith

-- A text contains each of its beginnings.
pub contains-append : (p t : Bytes) → contains (p ++ t) p ≡ true
contains-append p t = contains-prefix (p ++ t) p (has_prefix-append p t)

-- A text that lacks the first byte of another does not contain it.
pub contains-count : (s : Bytes) (c : ℕ) (p : Bytes) → count c s ≡ 0 → contains s (c ∷ p) ≡ false
unfolding contains has_prefix
contains-count [] c p h = refl
contains-count (b ∷ s) c p h = ground (arith, contains-count s c p)
