-- ===== src/Dao/Migration/Replacing.antt =====
-- Replacing a text that starts with a byte which nothing else in the template has.
use front_basicrum_go.Base.{
  ℕ, Bytes, List, [], ◌∷◌, ◌++◌, append-nil, ◌≡◌, ◌∙◌, ap, refl, arith, count, length, has_prefix,
  has_prefix-append,
}
use front_basicrum_go.Dao.Migration.{replace_from, replace_all}

-- A template: texts with a mark between each two.
unfoldable pub joined : Bytes → List Bytes → Bytes
joined mark [] = []
joined mark (p ∷ []) = p
joined mark (p ∷ q ∷ ps) = p ++ (mark ++ joined mark (q ∷ ps))

-- No text of the template has the byte.
abbrev pub Lack : ℕ → List Bytes → Type 0
Lack c [] = Unit
Lack c (p ∷ ps) = (count c p ≡ 0) × Lack c ps

module _ (c : ℕ) (find replacement : Bytes) where
  replace_from-skip :
      (u t : Bytes)
      → replace_from (c ∷ find) replacement (u ++ t) (length u)
        ≡ replace_from (c ∷ find) replacement t 0
  unfolding replace_from
  replace_from-skip [] t = refl
  replace_from-skip (b ∷ u) t = replace_from-skip u t

  replace_from-plain :
      (p t : Bytes)
      → count c p ≡ 0
      → replace_from (c ∷ find) replacement (p ++ t) 0
        ≡ p ++ replace_from (c ∷ find) replacement t 0
  unfolding replace_from has_prefix
  replace_from-plain [] t h = refl
  replace_from-plain (b ∷ p) t h = ground (arith, replace_from-plain p t)

  replace_from-mark :
      (t : Bytes)
      → replace_from (c ∷ find) replacement ((c ∷ find) ++ t) 0
        ≡ replacement ++ replace_from (c ∷ find) replacement t 0
  unfolding replace_from
  replace_from-mark t = ground (arith, has_prefix-append (c ∷ find) t, replace_from-skip find t)

  -- In a template whose texts lack the first byte of a mark, replacing the mark gives the same texts with
  -- the replacement between them, whatever the replacement holds.
  pub replace_all-joined :
      (ps : List Bytes)
      → Lack c ps
      → replace_all (joined (c ∷ find) ps) (c ∷ find) replacement ≡ joined replacement ps
  unfolding replace_all joined replace_from
  replace_all-joined [] h = refl
  replace_all-joined (p ∷ []) (h, hs) = ground (arith, replace_from-plain p [] h, append-nil p)
  replace_all-joined (p ∷ q ∷ ps) (h, hs) =
      replace_from-plain p ((c ∷ find) ++ joined (c ∷ find) (q ∷ ps)) h
      ∙ ap (λ x. p ++ x)
          (replace_from-mark (joined (c ∷ find) (q ∷ ps))
            ∙ ap (λ x. replacement ++ x) (replace_all-joined (q ∷ ps) hs))
