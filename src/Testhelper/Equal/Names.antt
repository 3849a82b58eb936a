-- ===== src/Testhelper/Equal/Names.antt =====
-- The names that are collected of a directory.
use front_basicrum_go.Base.{
  Bytes, List, [], ◌∷◌, Bool, true, false, not, ◌&&◌, Option, none, some, ◌≡◌, ◌↔◌, ◌∙◌, refl, sym,
  ap, arith, eqb, eqb_iff, Bool-cases, inl, inr,
}
use mathlib.Core.Path.{subst}
use front_basicrum_go.Testhelper.{Node, Dir, nothing, entry, find, AreTrees}
use front_basicrum_go.Testhelper.Equal.{
  skip_file, is_collected, collect_name_map, has_name, are_among, assert_names_are_the_same,
}

-- Whether an entry is one that is collected.
unfoldable pub kind : Bool → Option Node → Bool
unfolding is_collected
kind b none = false
kind b (some x) = is_collected b x

pub has_name-collect_name_map :
    (b : Bool) (n : Bytes) (d : Dir)
    → AreTrees d
    → has_name n (collect_name_map b d) ≡ not (skip_file n) && kind b (find n d)
unfolding has_name collect_name_map kind find
has_name-collect_name_map b n nothing t = ground arith
has_name-collect_name_map b n (entry m x rest) (new, t, ts) = elim (Bool-cases (eqb m n)) [
  | inl e ↦
      let same : m ≡ n = (eqb_iff m n).0 e in
      let gone : find n rest ≡ none = subst (λ k. find k rest ≡ none) same new in
      let skip : skip_file m ≡ skip_file n = ap skip_file same in
      ground (arith, has_name-collect_name_map b n rest ts)
  | inr e ↦ ground (arith, has_name-collect_name_map b n rest ts)
]

are_among-has_name :
    (xs ys : List Bytes)
    → (are_among xs ys ≡ true) ↔ ((n : Bytes) → has_name n xs ≡ true → has_name n ys ≡ true)
unfolding are_among has_name
are_among-has_name [] ys = (λ h n q. cc, λ h. refl)
are_among-has_name (x ∷ xs) ys =
    let (there, back) = are_among-has_name xs ys in
    (
      λ h n q. elim (Bool-cases (eqb x n)) [
        | inl e ↦ subst (λ k. has_name k ys ≡ true) ((eqb_iff x n).0 e) (ground arith)
        | inr e ↦ there (ground arith) n (ground arith)
      ],
      λ h.
          let a = h x (ground (arith, eqb_iff x x)) in
          let b = back (λ n q. h n (ground arith)) in ground arith,
    )

both_among :
    (xs ys : List Bytes)
    → (are_among xs ys && are_among ys xs ≡ true) ↔ ((n : Bytes) → has_name n xs ≡ has_name n ys)
both_among xs ys =
    let (a, b) = are_among-has_name xs ys in
    let (c, d) = are_among-has_name ys xs in
    (
      λ h n. let p = a (ground arith) n in let q = c (ground arith) n in ground arith,
      λ h. let p = b (λ n q. sym (h n) ∙ q) in let r = d (λ n q. h n ∙ q) in ground arith,
    )

-- The names are the same exactly when every name is collected of both or of neither.
pub same_names_iff :
    (b : Bool) (e a : Dir)
    → AreTrees e
    → AreTrees a
    → (assert_names_are_the_same b e a ≡ true) ↔ (
        (n : Bytes)
        → not (skip_file n) && kind b (find n e) ≡ not (skip_file n) && kind b (find n a))
unfolding assert_names_are_the_same
same_names_iff b e a te ta =
    let (there, back) = both_among (collect_name_map b e) (collect_name_map b a) in
    (
      λ h n.
          sym (has_name-collect_name_map b n e te) ∙ there h n ∙ has_name-collect_name_map b n a ta,
      λ h.
          back λ n.
            has_name-collect_name_map b n e te ∙ h n ∙ sym (has_name-collect_name_map b n a ta),
    )

-- The nodes are two files, two directories, or both missing.
pub same_kind :
    (e a : Dir) (n : Bytes)
    → AreTrees e
    → AreTrees a
    → assert_names_are_the_same true e a ≡ true
    → assert_names_are_the_same false e a ≡ true
    → skip_file n ≡ false
    → (kind true (find n e) ≡ kind true (find n a))
      × (kind false (find n e) ≡ kind false (find n a))
same_kind e a n te ta files dirs s =
    let f = (same_names_iff true e a te ta).0 files n in
    let d = (same_names_iff false e a te ta).0 dirs n in (ground arith, ground arith)
