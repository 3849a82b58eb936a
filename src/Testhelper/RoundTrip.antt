-- ===== src/Testhelper/RoundTrip.antt =====
-- A directory that was copied equals its copy.
use front_basicrum_go.Base.{
  ℕ, Bytes, List, [], ◌∷◌, true, Option, none, some, ◌≡◌, ◌∙◌, refl, sym, ap, arith, All,
}
use front_basicrum_go.Testhelper.{
  Node, plain, folder, Dir, find, AreTrees, View, bytes, directory, at_path,
}
use front_basicrum_go.Testhelper.Copy.{Disk, copy_node}
use front_basicrum_go.Testhelper.Copy.Overlay.{overlay, copy_node-overlay}
use front_basicrum_go.Testhelper.Copy.Trees.{copy_node-IsTree?}
use front_basicrum_go.Testhelper.Equal.{read_all, assert_dir_equal}
use front_basicrum_go.Testhelper.Equal.Seen.{Seen, content, a_directory, IsKept, IsReadable, see}
use front_basicrum_go.Testhelper.Equal.Exact.{do_assert_dir_equal_iff}

overlay_nothing : (v : Option View) → overlay v none ≡ v
overlay_nothing none = refl
overlay_nothing (some v) = refl

last : Bytes → List Bytes → Bytes
last n [] = n
last n (k ∷ p) = last k p

module _ (gunzip unzstd : Bytes → Option Bytes) where
  seen_of : Bytes → Option View → Option Seen
  seen_of name none = none
  seen_of name (some (bytes s)) = some (content (read_all gunzip unzstd name s))
  seen_of name (some directory) = some a_directory

  -- What is seen at a path is what is there, read by the last name of the path.
  see-at_path :
      (n : Bytes) (p : List Bytes) (o : Option Node)
      → see gunzip unzstd n p o ≡ seen_of (last n p) (at_path p o)
  unfolding see seen_of last at_path
  see-at_path n [] none = refl
  see-at_path n (k ∷ p) none = refl
  see-at_path n [] (some (plain m s)) = refl
  see-at_path n [] (some (folder m d)) = refl
  see-at_path n (k ∷ p) (some (plain m s)) = refl
  see-at_path n (k ∷ p) (some (folder m d)) = see-at_path k p (find k d)

  -- Where CopyDir copies a directory with distinct names to a place where there was nothing, and
  -- returns no error, AssertDirEqual of the directory and its copy lets the test go on, if every file
  -- at a path with no part named .git or .gitkeep can be read by the reader for its name.
  pub assert_dir_equal-copy_node :
      (disk : Disk) (mode : ℕ) (es : Dir) (y : Node)
      → AreTrees es
      → copy_node disk [] (folder mode es) none ≡ (none, some y)
      → ((n : Bytes) (p : List Bytes)
          → IsKept n
          → All IsKept p
          → IsReadable (see gunzip unzstd n p (find n es)))
      → assert_dir_equal gunzip unzstd (folder mode es) y ≡ true
  unfolding assert_dir_equal at_path
  assert_dir_equal-copy_node disk mode es (plain k s) t h r =
      let v = copy_node-overlay disk (folder mode es) none (some (plain k s)) t h [] in
      absurd (ground arith)
  assert_dir_equal-copy_node disk mode es (folder k a) t h r =
      (do_assert_dir_equal_iff gunzip unzstd es a t
          (copy_node-IsTree? disk [] (folder mode es) none (some (folder k a)) tt h)).1
        λ n p kept ks. (
          see-at_path n p (find n es)
              ∙ ap (seen_of (last n p)) (
                  sym (
                    copy_node-overlay disk (folder mode es) none (some (folder k a)) t h (n ∷ p)
                    ∙ overlay_nothing (at_path p (find n es))))
              ∙ sym (see-at_path n p (find n a)),
          r n p kept ks,
        )
