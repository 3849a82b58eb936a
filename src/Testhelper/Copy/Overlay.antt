-- ===== src/Testhelper/Copy/Overlay.antt =====
-- What CopyDir leaves at the destination when it returns no error.
use front_basicrum_go.Base.{
  ℕ, Bytes, List, [], ◌∷◌, ◌++◌, Option, none, some, ◌≡◌, ◌∙◌, inl, inr, refl, sym, ap, arith, eqb,
  eqb_iff, Bool-cases,
}
use mathlib.Core.Path.{subst}
use front_basicrum_go.Testhelper.{
  Node, plain, folder, Dir, nothing, entry, find, put, find-put, IsTree, AreTrees, View, at_path,
}
use front_basicrum_go.Testhelper.Copy.{
  Names, Error, Disk, Result, copy_file, create_destination_directory, copy_made, unless_failed,
  put_copied, put_result, copy_node, copy_entries,
}

-- What is at the source, and where there is nothing, what was at the destination.
abbrev pub overlay : Option View → Option View → Option View
overlay none old = old
overlay (some v) old = some v

overlay-none : (v : Option View) → v ≡ overlay v none
overlay-none none = refl
overlay-none (some v) = refl

plain_over :
    (mode old : ℕ) (content s : Bytes) (q : List Bytes)
    → at_path q (some (plain mode content))
      ≡ overlay (at_path q (some (plain mode content))) (at_path q (some (plain old s)))
unfolding at_path
plain_over mode old content s [] = refl
plain_over mode old content s (n ∷ q) = refl

module _ (disk : Disk) where
  -- The copied node covers what was at its place.
  Covers : Node → Option Node → Option Node → Type 0
  Covers x dest o =
      (y : Node) × (o ≡ some y)
      × ((q : List Bytes) → at_path q o ≡ overlay (at_path q (some x)) (at_path q dest))

  copy_file-Covers :
      (p : Names) (mode : ℕ) (content : Bytes) (dest o : Option Node)
      → copy_file disk p mode content dest ≡ (none, o)
      → Covers (plain mode content) dest o
  unfolding copy_file Covers at_path
  copy_file-Covers p mode content none o h =
      let e : o ≡ some (plain mode content) = ground arith in
      (plain mode content, e, λ q. ap (at_path q) e ∙ overlay-none _)
  copy_file-Covers p mode content (some (plain old s)) o h =
      let e : o ≡ some (plain mode content) = ground arith in
      (plain mode content, e, λ q. ap (at_path q) e ∙ plain_over mode old content s q)
  copy_file-Covers p mode content (some (folder m d)) o h = absurd (ground arith)

  -- The entries of a directory, as they were and behind the copy of others.
  CoversAll : Dir → Dir → Dir → Type 0
  CoversAll es d d' =
      (n : Bytes) (q : List Bytes)
      → at_path q (find n d') ≡ overlay (at_path q (find n es)) (at_path q (find n d))

  folder_over :
      (mode old : ℕ) (es d d' : Dir)
      → CoversAll es d d'
      → (q : List Bytes)
      → at_path q (some (folder old d'))
        ≡ overlay (at_path q (some (folder mode es))) (at_path q (some (folder old d)))
  unfolding CoversAll at_path
  folder_over mode old es d d' same [] = refl
  folder_over mode old es d d' same (n ∷ q) = same n q

  folder_new :
      (mode old : ℕ) (es d' : Dir)
      → CoversAll es nothing d'
      → (q : List Bytes)
      → at_path q (some (folder old d')) ≡ overlay (at_path q (some (folder mode es))) none
  unfolding CoversAll at_path find
  folder_new mode old es d' same [] = refl
  folder_new mode old es d' same (n ∷ q) = same n q

  folder-Covers :
      (p : Names) (mode : ℕ) (es : Dir) (dest o : Option Node) (loop : Dir → Option Error × Dir)
      → ((d d' : Dir) → loop d ≡ (none, d') → CoversAll es d d')
      → copy_made disk p dest loop (create_destination_directory disk p mode dest) ≡ (none, o)
      → Covers (folder mode es) dest o
  unfolding copy_made create_destination_directory Covers CoversAll at_path find
  folder-Covers p mode es none o loop ih h =
      let l : (loop nothing).0 ≡ none = ground arith in
      let e : o ≡ some (folder (disk.masked mode) (loop nothing).1) = ground arith in
      let same = ih nothing (loop nothing).1 (ground (arith, l)) in
      (
        folder (disk.masked mode) (loop nothing).1,
        e,
        λ q. ap (at_path q) e ∙ folder_new mode (disk.masked mode) es (loop nothing).1 same q,
      )
  folder-Covers p mode es (some (plain old s)) o loop ih h = absurd (ground arith)
  folder-Covers p mode es (some (folder old d)) o loop ih h =
      let l : (loop d).0 ≡ none = ground arith in
      let e : o ≡ some (folder old (loop d).1) = ground arith in
      let same = ih d (loop d).1 (ground (arith, l)) in
      (
        folder old (loop d).1,
        e,
        λ q. ap (at_path q) e ∙ folder_over mode old es d (loop d).1 same q,
      )

  entry_over :
      (name : Bytes) (x : Node) (rest d d' : Dir) (o : Option Node) (y : Node)
      → find name rest ≡ none
      → o ≡ some y
      → ((q : List Bytes) → at_path q o ≡ overlay (at_path q (some x)) (at_path q (find name d)))
      → CoversAll rest (put name y d) d'
      → CoversAll (entry name x rest) d d'
  unfolding CoversAll at_path find
  entry_over name x rest d d' o y new made over ih n q = elim (Bool-cases (eqb name n)) [
    | inl e ↦
        let same : name ≡ n = (eqb_iff name n).0 e in
        let gone : find n rest ≡ none = subst (λ k. find k rest ≡ none) same new in
        let copied : find n (put name y d) ≡ some y = ground (arith, find-put name n y d) in
        rw e (
          ih n q
          ∙ ap (λ r. overlay (at_path q r) (at_path q (find n (put name y d)))) gone
          ∙ ap (at_path q) (copied ∙ sym made)
          ∙ over q
          ∙ ap (λ k. overlay (at_path q (some x)) (at_path q (find k d))) same)
    | inr e ↦
        let kept : find n (put name y d) ≡ find n d = ground (arith, find-put name n y d) in
        rw e (ih n q ∙ ap (λ r. overlay (at_path q (find n rest)) (at_path q r)) kept)
  ]

  pub entry_copied :
      (name : Bytes) (r : Result) (d d' : Dir) (loop : Dir → Option Error × Dir)
      → unless_failed disk (put_copied disk name r d) loop ≡ (none, d')
      → (o : Option Node) × (r ≡ (none, o)) × (loop (put_result disk name o d) ≡ (none, d'))
  unfolding unless_failed put_copied
  entry_copied name (some e, o) d d' loop h = absurd (ground arith)
  entry_copied name (none, o) d d' loop h = (o, refl, h)

  mutual
    unfolding copy_node copy_entries copy_file-Covers folder-Covers unless_failed put_copied
        put_result find Covers CoversAll at_path

    copy_node-Covers :
        (p : Names) (x : Node) (dest o : Option Node)
        → IsTree x
        → copy_node disk p x dest ≡ (none, o)
        → Covers x dest o
    copy_node-Covers p (plain mode content) dest o t h = copy_file-Covers p mode content dest o h
    copy_node-Covers p (folder mode es) dest o t h =
        folder-Covers p mode es dest o (copy_entries disk p es)
          (λ d d' loop. copy_entries-CoversAll p es d d' t loop) h

    copy_entries-CoversAll :
        (p : Names) (es d d' : Dir)
        → AreTrees es
        → copy_entries disk p es d ≡ (none, d')
        → CoversAll es d d'
    copy_entries-CoversAll p nothing d d' t h = λ n q. ap (λ k. at_path q (find n k)) (ground arith)
    copy_entries-CoversAll p (entry name x rest) d d' (new, t, ts) h =
        let place = find name d in
        let (o, copied, looped) =
          entry_copied name (copy_node disk (p ++ name ∷ []) x place) d d'
            (copy_entries disk p rest) h in
        let (y, made, over) = copy_node-Covers (p ++ name ∷ []) x place o t copied in
        entry_over name x rest d d' o y new made over (
          copy_entries-CoversAll p rest (put name y d) d' ts
            (ap (λ k. copy_entries disk p rest (put_result disk name k d)) (sym made) ∙ looped))

  -- Where CopyDir, or CopyFile, returns no error, there is at every path below the destination what is
  -- at that path of the source, a file with the same bytes or a directory; and where the source has
  -- nothing, what was there before. This is for a source whose directories have distinct names, and
  -- whatever calls the disk may let fail.
  pub copy_node-overlay :
      (x : Node) (dest o : Option Node)
      → IsTree x
      → copy_node disk [] x dest ≡ (none, o)
      → (q : List Bytes) → at_path q o ≡ overlay (at_path q (some x)) (at_path q dest)
  unfolding Covers
  copy_node-overlay x dest o t h q =
      let (y, made, over) = copy_node-Covers [] x dest o t h in over q
