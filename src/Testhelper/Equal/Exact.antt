-- ===== src/Testhelper/Equal/Exact.antt =====
-- AssertDirEqual against what can be seen in the two directories, path by path.
use front_basicrum_go.Base.{
  Bytes, List, [], ◌∷◌, true, false, Option, none, some, ◌≡◌, ◌↔◌, ◌∙◌, refl, ap, arith, eqb,
  eqb_iff, Bool-cases, inl, inr, All,
}
use mathlib.Core.Path.{subst}
use front_basicrum_go.Testhelper.{Node, plain, folder, Dir, nothing, entry, find, IsTree, AreTrees}
use front_basicrum_go.Testhelper.Equal.{
  skip_file, read_all, same_bytes, assert_file_content_is_the_same, assert_node, assert_entries,
  do_assert_dir_equal,
}
use front_basicrum_go.Testhelper.Equal.Seen.{
  IsKept, IsReadable, IsTree?, find-IsTree?, same_bytes_iff, see, LookAlike, DirsLookAlike,
  dirs_of_entries, find_rest, names_complete,
}

module _ (gunzip unzstd : Bytes → Option Bytes) where
  mutual
    unfolding assert_node assert_entries assert_file_content_is_the_same same_bytes see find

    node_sound :
        (n : Bytes) (x : Node) (o : Option Node)
        → IsTree x
        → IsTree? o
        → assert_node gunzip unzstd n x o ≡ true
        → LookAlike gunzip unzstd n (some x) o
    node_sound n (plain m s) none t u h p k = absurd (ground arith)
    node_sound n (plain m s) (some (plain j r)) t u h [] k =
        (same_bytes_iff gunzip unzstd (read_all gunzip unzstd n s) (read_all gunzip unzstd n r)).0 h
    node_sound n (plain m s) (some (plain j r)) t u h (i ∷ p) k = (refl, tt)
    node_sound n (plain m s) (some (folder j d)) t u h p k = absurd (ground arith)
    node_sound n (folder m d) none t u h p k = absurd (ground arith)
    node_sound n (folder m d) (some (plain j r)) t u h p k = absurd (ground arith)
    node_sound n (folder m d) (some (folder j a)) t u h [] k = (refl, tt)
    node_sound n (folder m d) (some (folder j a)) t u h (i ∷ p) (k, ks) =
        dirs_of_entries gunzip unzstd d a t u (ground arith) (ground arith)
          (λ l x kept there. entries_sound d a t u (ground arith) l x kept there) i k p ks

    entries_sound :
        (es a : Dir)
        → AreTrees es
        → AreTrees a
        → assert_entries gunzip unzstd es a ≡ true
        → (n : Bytes) (x : Node) → IsKept n
        → find n es ≡ some x
        → LookAlike gunzip unzstd n (some x) (find n a)
    entries_sound nothing a t u h n x k there = cc
    entries_sound (entry m y rest) a (new, t, ts) u h n x k there = elim (Bool-cases (eqb m n)) [
      | inl e ↦
          let same : m ≡ n = (eqb_iff m n).0 e in
          let kept : skip_file m ≡ false = ap skip_file same ∙ k in
          let found : y ≡ x = ground arith in
          let alike = node_sound m y (find m a) t (find-IsTree? m a u) (ground arith) in
          subst (λ z. LookAlike gunzip unzstd n (some z) (find n a)) found
            (subst (λ j. LookAlike gunzip unzstd j (some y) (find j a)) same alike)
      | inr e ↦ entries_sound rest a ts u (ground arith) n x k (ground arith)
    ]

  mutual
    unfolding assert_node assert_entries assert_file_content_is_the_same see find

    node_complete :
        (n : Bytes) (x : Node) (o : Option Node)
        → IsTree x
        → IsTree? o
        → LookAlike gunzip unzstd n (some x) o
        → assert_node gunzip unzstd n x o ≡ true
    node_complete n (plain m s) none t u h = let (p, _) = h [] tt in absurd (ground arith)
    node_complete n (plain m s) (some (plain j r)) t u h =
        (same_bytes_iff gunzip unzstd (read_all gunzip unzstd n s) (read_all gunzip unzstd n r)).1
          (h [] tt)
    node_complete n (plain m s) (some (folder j d)) t u h =
        let (p, _) = h [] tt in absurd (ground arith)
    node_complete n (folder m d) none t u h = let (p, _) = h [] tt in absurd (ground arith)
    node_complete n (folder m d) (some (plain j r)) t u h =
        let (p, _) = h [] tt in absurd (ground arith)
    node_complete n (folder m d) (some (folder j a)) t u h =
        let alike : DirsLookAlike gunzip unzstd d a = λ i kept p ks. h (i ∷ p) (kept, ks) in
        ground (
          arith,
          names_complete gunzip unzstd true d a t u alike,
          names_complete gunzip unzstd false d a t u alike,
          entries_complete d a t u (λ i x kept there p ks.
              subst (λ o. LookAlike gunzip unzstd i o (find i a)) there (alike i kept) p ks),
        )

    entries_complete :
        (es a : Dir)
        → AreTrees es
        → AreTrees a
        → ((n : Bytes) (x : Node)
            → IsKept n
            → find n es ≡ some x
            → LookAlike gunzip unzstd n (some x) (find n a))
        → assert_entries gunzip unzstd es a ≡ true
    entries_complete nothing a t u h = refl
    entries_complete (entry m y rest) a (new, t, ts) u h =
        let later =
          entries_complete rest a ts u
            (λ n x kept there. h n x kept (find_rest gunzip unzstd m n y x rest new there)) in
        elim (Bool-cases (skip_file m)) [
          | inl skipped ↦ ground arith
          | inr kept ↦
              let first =
                node_complete m y (find m a) t (find-IsTree? m a u)
                  (h m y kept (ground (arith, eqb_iff m m))) in
              ground arith
        ]

  -- For directories in which all names are distinct: AssertDirEqual lets a test go on exactly when at
  -- every path with no part named .git or .gitkeep there is in both a file, or a directory, or nothing,
  -- every such file can be read by the reader for its name, and what is read of it is the same in both.
  pub do_assert_dir_equal_iff :
      (e a : Dir)
      → AreTrees e
      → AreTrees a
      → (do_assert_dir_equal gunzip unzstd e a ≡ true) ↔ (
          (n : Bytes) (p : List Bytes)
          → IsKept n
          → All IsKept p
          → (see gunzip unzstd n p (find n e) ≡ see gunzip unzstd n p (find n a))
            × IsReadable (see gunzip unzstd n p (find n e)))
  unfolding do_assert_dir_equal
  do_assert_dir_equal_iff e a te ta = (
    λ h n p k ks.
        dirs_of_entries gunzip unzstd e a te ta (ground arith) (ground arith)
          (entries_sound e a te ta (ground arith)) n k p ks,
    λ h.
        let alike : DirsLookAlike gunzip unzstd e a = λ n k p ks. h n p k ks in
        ground (
          arith,
          names_complete gunzip unzstd true e a te ta alike,
          names_complete gunzip unzstd false e a te ta alike,
          entries_complete e a te ta (λ i x kept there p ks.
              subst (λ o. LookAlike gunzip unzstd i o (find i a)) there (alike i kept) p ks),
        ),
  )
