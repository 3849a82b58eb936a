-- ===== src/Testhelper/Copy.antt =====
-- testhelper/copy.go: CopyFile and CopyDir. `Disk` says which call of package os fails at which path,
-- by the names below the two directories; the copy goes to another place than its source.
pub mod Overlay
pub mod Trees
use front_basicrum_go.Base.{
  ℕ, Bytes, List, [], ◌∷◌, ◌++◌, Bool, true, false, Option, none, some, ◌≡◌, refl, arith, eqb,
  eqb_iff, if◌then◌else◌,
}
use front_basicrum_go.Testhelper.{
  Node, plain, folder, Dir, nothing, entry, find, put, find-put, IsTree, AreTrees, View, bytes,
  directory, at_path,
}

abbrev pub Names : Type 0
Names = List Bytes

pub data Error : Type 0 where
  cannot_stat : Names → Error
  cannot_make_dir : Names → Error
  cannot_open : Names → Error
  cannot_read_dir : Names → Error
  cannot_create : Names → Error
  cannot_copy : Names → Error
  cannot_chmod : Names → Error

pub record Disk : Type 0 where
  pub stat : Names → Bool
  pub make_dir : Names → Bool
  pub open_source : Names → Bool
  pub read_dir : Names → Bool
  pub create : Names → Bool
  pub copy : Names → Bool
  pub chmod : Names → Bool
  -- what io.Copy wrote before it failed
  pub partial : Bytes → Bytes
  -- the mode of a file that os.Create makes, and of a directory that os.MkdirAll makes with a mode
  pub created : ℕ
  pub masked : ℕ → ℕ

abbrev pub Result : Type 0
Result = Option Error × Option Node

module _ (disk : Disk) where
  -- CopyFile behind os.Create, where the file had the mode `old`.
  fill : Names → ℕ → Bytes → ℕ → Result
  fill p mode content old =
      if disk.copy p
      then (some (cannot_copy p), some (plain old (disk.partial content)))
      else if disk.stat p
      then (some (cannot_stat p), some (plain old content))
      else if disk.chmod p
      then (some (cannot_chmod p), some (plain old content))
      else (none, some (plain mode content))

  -- CopyFile of a file to what is at the destination.
  unfoldable pub copy_file : Names → ℕ → Bytes → Option Node → Result
  unfolding fill
  copy_file p mode content dest =
      if disk.open_source p
      then (some (cannot_open p), dest)
      else if disk.create p
      then (some (cannot_create p), dest)
      else elim dest [
        | none ↦ fill p mode content disk.created
        | some (plain old s) ↦ fill p mode content old
        | some (folder m d) ↦ (some (cannot_create p), some (folder m d))
      ]

  -- createDestinationDirectory: the directory with its mode and its entries, or the error.
  unfoldable pub create_destination_directory : Names → ℕ → Option Node → Option Error × ℕ × Dir
  create_destination_directory p mode dest =
      if disk.stat p
      then (some (cannot_stat p), 0, nothing)
      else if disk.make_dir p
      then (some (cannot_make_dir p), 0, nothing)
      else elim dest [
        | none ↦ (none, disk.masked mode, nothing)
        | some (plain old s) ↦ (some (cannot_make_dir p), 0, nothing)
        | some (folder old d) ↦ (none, old, d)
      ]

  pub put_result : Bytes → Option Node → Dir → Dir
  put_result name none d = d
  put_result name (some x) d = put name x d

  -- CopyDir behind createDestinationDirectory; `loop` copies the entries to those that are there.
  copy_opened : Names → (Dir → Option Error × Dir) → ℕ → Dir → Result
  copy_opened p loop mode d =
      if disk.open_source p
      then (some (cannot_open p), some (folder mode d))
      else if disk.read_dir p
      then (some (cannot_read_dir p), some (folder mode d))
      else (let (e, d') = loop d in (e, some (folder mode d')))

  copy_made : Names → Option Node → (Dir → Option Error × Dir) → Option Error × ℕ × Dir → Result
  unfolding copy_opened
  copy_made p dest loop (some e, mode, d) = (some e, dest)
  copy_made p dest loop (none, mode, d) = copy_opened p loop mode d

  -- The rest of the loop, unless an entry failed.
  pub unless_failed : Option Error × Dir → (Dir → Option Error × Dir) → Option Error × Dir
  unless_failed (some e, d) rest = (some e, d)
  unless_failed (none, d) rest = rest d

  pub put_copied : Bytes → Result → Dir → Option Error × Dir
  unfolding put_result
  put_copied name (e, o) d = (e, put_result name o d)

  unfoldable mutual
    unfolding copy_file create_destination_directory copy_made unless_failed put_copied

    -- copyDirEntry, and CopyDir of the whole.
    pub copy_node : Names → Node → Option Node → Result
    copy_node p (plain mode content) dest = copy_file p mode content dest
    copy_node p (folder mode es) dest =
        copy_made p dest (copy_entries p es) (create_destination_directory p mode dest)

    -- The loop of CopyDir.
    pub copy_entries : Names → Dir → Dir → Option Error × Dir
    copy_entries p nothing d = (none, d)
    copy_entries p (entry name x rest) d =
        unless_failed (put_copied name (copy_node (p ++ name ∷ []) x (find name d)) d)
          (copy_entries p rest)
