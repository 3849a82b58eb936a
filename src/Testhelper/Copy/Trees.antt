-- ===== src/Testhelper/Copy/Trees.antt =====
-- A copy has distinct names in every directory, like its source and its destination.
use front_basicrum_go.Base.{
  ℕ, Bytes, [], ◌∷◌, ◌++◌, Option, none, some, ◌≡◌, inl, inr, refl, sym, arith, eqb, eqb_iff,
  Bool-cases,
}
use mathlib.Core.Path.{subst}
use front_basicrum_go.Testhelper.{
  Node, plain, folder, Dir, nothing, entry, find, put, find-put, IsTree, AreTrees,
}
use front_basicrum_go.Testhelper.Equal.Seen.{IsTree?, find-IsTree?}
use front_basicrum_go.Testhelper.Copy.Overlay.{entry_copied}
use front_basicrum_go.Testhelper.Copy.{
  Names, Error, Disk, copy_file, create_destination_directory, copy_made, put_result, copy_node,
  copy_entries,
}

put-AreTrees : (name : Bytes) (y : Node) (d : Dir) → IsTree y → AreTrees d → AreTrees (put name y d)
unfolding put find
put-AreTrees name y nothing t u = (refl, t, tt)
put-AreTrees name y (entry n x rest) t (new, u, us) = elim (Bool-cases (eqb n name)) [
  | inl e ↦ rw e (subst (λ k. find k rest ≡ none) ((eqb_iff n name).0 e) new, t, us)
  | inr e ↦ rw e (
    ground (arith, find-put name n y rest, eqb_iff n name, eqb_iff name n),
    u,
    put-AreTrees name y rest t us,
  )
]

module _ (disk : Disk) where
  copy_file-IsTree? :
      (p : Names) (mode : ℕ) (content : Bytes) (dest o : Option Node)
      → copy_file disk p mode content dest ≡ (none, o)
      → IsTree? o
  unfolding copy_file
  copy_file-IsTree? p mode content none o h =
      let e : o ≡ some (plain mode content) = ground arith in subst IsTree? (sym e) tt
  copy_file-IsTree? p mode content (some (plain old s)) o h =
      let e : o ≡ some (plain mode content) = ground arith in subst IsTree? (sym e) tt
  copy_file-IsTree? p mode content (some (folder m d)) o h = absurd (ground arith)

  copy_made-IsTree? :
      (p : Names) (mode : ℕ) (dest o : Option Node) (loop : Dir → Option Error × Dir)
      → IsTree? dest
      → ((d d' : Dir) → AreTrees d → loop d ≡ (none, d') → AreTrees d')
      → copy_made disk p dest loop (create_destination_directory disk p mode dest) ≡ (none, o)
      → IsTree? o
  unfolding copy_made create_destination_directory
  copy_made-IsTree? p mode none o loop t ih h =
      let l : (loop nothing).0 ≡ none = ground arith in
      let e : o ≡ some (folder (disk.masked mode) (loop nothing).1) = ground arith in
      subst IsTree? (sym e) (ih nothing (loop nothing).1 tt (ground (arith, l)))
  copy_made-IsTree? p mode (some (plain old s)) o loop t ih h = absurd (ground arith)
  copy_made-IsTree? p mode (some (folder old d)) o loop t ih h =
      let l : (loop d).0 ≡ none = ground arith in
      let e : o ≡ some (folder old (loop d).1) = ground arith in
      subst IsTree? (sym e) (ih d (loop d).1 t (ground (arith, l)))

  put_result-AreTrees :
      (name : Bytes) (o : Option Node) (d : Dir)
      → IsTree? o
      → AreTrees d
      → AreTrees (put_result disk name o d)
  unfolding put_result
  put_result-AreTrees name none d t u = u
  put_result-AreTrees name (some y) d t u = put-AreTrees name y d t u

  mutual
    unfolding copy_node copy_entries

    pub copy_node-IsTree? :
        (p : Names) (x : Node) (dest o : Option Node)
        → IsTree? dest
        → copy_node disk p x dest ≡ (none, o)
        → IsTree? o
    copy_node-IsTree? p (plain mode content) dest o t h = copy_file-IsTree? p mode content dest o h
    copy_node-IsTree? p (folder mode es) dest o t h =
        copy_made-IsTree? p mode dest o (copy_entries disk p es) t
          (λ d d' u loop. copy_entries-AreTrees p es d d' u loop) h

    copy_entries-AreTrees :
        (p : Names) (es d d' : Dir)
        → AreTrees d
        → copy_entries disk p es d ≡ (none, d')
        → AreTrees d'
    copy_entries-AreTrees p nothing d d' t h = let e : d ≡ d' = ground arith in subst AreTrees e t
    copy_entries-AreTrees p (entry name x rest) d d' t h =
        let place = find name d in
        let (o, copied, looped) =
          entry_copied disk name (copy_node disk (p ++ name ∷ []) x place) d d'
            (copy_entries disk p rest) h in
        let u = copy_node-IsTree? (p ++ name ∷ []) x place o (find-IsTree? name d t) copied in
        copy_entries-AreTrees p rest (put_result disk name o d) d'
          (put_result-AreTrees name o d u t) looped
