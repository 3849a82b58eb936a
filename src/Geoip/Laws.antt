-- ===== src/Geoip/Laws.antt =====
-- The chain of location services (geoip/composite.go) and the cleaning of Cloudflare's header values.
use mathlib.Core.List.{reverse, reverse-append, reverse-cons, reverse-reverse}
use front_basicrum_go.Base.{
  Bytes, [], ◌∷◌, ◌++◌, true, false, ◌≡◌, refl, sym, ◌∙◌, ap, ◌⊎◌, inl, inr, arith, append_assoc,
  All, All-append, Bool-cases,
}
use front_basicrum_go.Types.{Header}
use front_basicrum_go.Geoip.{Service, failed, unknown, composite}
use front_basicrum_go.Geoip.Cloudflare.{
  quote, is_space, trim_left, trim_space, trim_prefix, trim_suffix, cleanup_header_value,
}

-- A chain of three services asks them in the same order however it is nested.
pub composite_assoc :
    (a b c : Service) (header : Header) (ip : Bytes)
    → composite (composite a b) c header ip ≡ composite a (composite b c) header ip
unfolding composite
composite_assoc a b c header ip = ground arith

-- The answer is the primary's, which then is no error and names a country or a city, or it is the
-- next service's, and then the primary failed or named neither.
pub composite_choice :
    (primary next : Service) (header : Header) (ip : Bytes)
    → ((composite primary next header ip ≡ primary header ip)
        × (failed (primary header ip) ≡ false)
        × (unknown (primary header ip) ≡ false))
      ⊎ ((composite primary next header ip ≡ next header ip)
          × ((failed (primary header ip) ≡ true) ⊎ (unknown (primary header ip) ≡ true)))
unfolding composite
composite_choice primary next header ip = ground arith

-- The first rune, if there is one, is no space.
abbrev pub StartsClean : Bytes → Type 0
StartsClean [] = Unit
StartsClean (c ∷ s) = is_space c ≡ false

-- No space at either end.
abbrev pub IsTrimmed : Bytes → Type 0
IsTrimmed s = StartsClean s × StartsClean (reverse s)

abbrev pub Spaces : Bytes → Type 0
Spaces = All (λ c. is_space c ≡ true)

trim_left-StartsClean : (s : Bytes) → StartsClean (trim_left s)
unfolding trim_left
trim_left-StartsClean [] = tt
trim_left-StartsClean (c ∷ s) = elim (Bool-cases (is_space c)) [
  | inl e ↦ rw e (trim_left-StartsClean s)
  | inr e ↦ rw e e
]

-- What `trim_left` removes.
cut : Bytes → Bytes
cut [] = []
cut (c ∷ s) = elim (is_space c) [ true ↦ c ∷ cut s | false ↦ [] ]

cut-trim_left : (s : Bytes) → cut s ++ trim_left s ≡ s
unfolding cut trim_left
cut-trim_left [] = refl
cut-trim_left (c ∷ s) = ground (arith, cut-trim_left s)

StartsClean-prefix : (s t : Bytes) → StartsClean (s ++ t) → StartsClean s
StartsClean-prefix [] t h = tt
StartsClean-prefix (c ∷ s) t h = h

-- The second trim, at the other end, leaves the first end clean.
trim_back : (t : Bytes) → reverse (trim_left (reverse t)) ++ reverse (cut (reverse t)) ≡ t
trim_back t =
    sym (reverse-append (cut (reverse t)) (trim_left (reverse t)))
    ∙ ap reverse (cut-trim_left (reverse t))
    ∙ reverse-reverse t

trim_space-IsTrimmed : (s : Bytes) → IsTrimmed (trim_space s)
unfolding trim_space
trim_space-IsTrimmed s =
    let t = trim_left s in
    (
      StartsClean-prefix (reverse (trim_left (reverse t))) (reverse (cut (reverse t)))
          (rw (trim_back t) (trim_left-StartsClean s)),
      rw reverse-reverse (trim_left-StartsClean (reverse t)),
    )

-- A cleaned header value has no space at either end.
pub cleanup_header_value-IsTrimmed : (s : Bytes) → IsTrimmed (cleanup_header_value s)
unfolding cleanup_header_value
cleanup_header_value-IsTrimmed s = trim_space-IsTrimmed _

trim_left-append : (p s : Bytes) → Spaces p → trim_left (p ++ s) ≡ trim_left s
unfolding trim_left
trim_left-append [] s h = refl
trim_left-append (c ∷ p) s (hc, h) = rw hc (trim_left-append p s h)

Spaces-reverse : (p : Bytes) → Spaces p → Spaces (reverse p)
Spaces-reverse [] h = tt
Spaces-reverse (c ∷ p) (hc, h) =
    rw reverse-cons (All-append _ (reverse p) (c ∷ []) (Spaces-reverse p h) (hc, tt))

reverse_quoted :
    (v q : Bytes)
    → reverse (quote ∷ (v ++ quote ∷ q)) ≡ reverse q ++ quote ∷ (reverse v ++ quote ∷ [])
reverse_quoted v q = simp (reverse-cons, reverse-append, append_assoc)

quote_not_space : is_space quote ≡ false
unfolding is_space
quote_not_space = refl

trim_left-quote : (s : Bytes) → trim_left (quote ∷ s) ≡ quote ∷ s
unfolding trim_left
trim_left-quote s = rw quote_not_space

trim_space_quoted :
    (p v q : Bytes)
    → Spaces p
    → Spaces q
    → trim_space (p ++ quote ∷ (v ++ quote ∷ q)) ≡ quote ∷ (v ++ quote ∷ [])
unfolding trim_space
trim_space_quoted p v q hp hq =
    rw
      (
        trim_left-append p _ hp,
        trim_left-quote,
        reverse_quoted v q,
        trim_left-append (reverse q) _ (Spaces-reverse q hq),
        trim_left-quote,
      )
      (simp (reverse-cons, reverse-append, reverse-reverse, append_assoc))

trim_suffix-quote : (v : Bytes) → trim_suffix (v ++ quote ∷ []) ≡ v
unfolding trim_suffix trim_prefix
trim_suffix-quote v = rw reverse-append (reverse-reverse v)

-- A value in double quotes, with any spaces around the quotes, is cleaned to the trimmed value
-- between them, whatever that holds, quotes included.
pub cleanup_header_value_quoted :
    (p v q : Bytes)
    → Spaces p
    → Spaces q
    → cleanup_header_value (p ++ quote ∷ (v ++ quote ∷ q)) ≡ trim_space v
unfolding cleanup_header_value trim_prefix
cleanup_header_value_quoted p v q hp hq =
    rw (trim_space_quoted p v q hp hq) (rw (trim_suffix-quote v))
