-- ===== src/Backup/Disk.antt =====
-- backup/backup.go: the files, and writeToFile, openFile, appendToFile on them. A backup directory
-- has one directory for each host; that has a directory of hour files for each day, and the archive
-- files. `Faults` says which system call fails, by the name of its
-- file; a directory in the place of a file shows as a fault of `remove` or `open_file`.
use front_basicrum_go.Base.{
  Bytes, List, [], ◌++◌, Bool, false, Option, none, some, ◌≡◌, refl, arith, eqb, eqb_iff,
  if◌then◌else◌,
}
use front_basicrum_go.Base.Assoc.{lookup, insert, erase, lookup-insert, lookup-erase}
use front_basicrum_go.Backup.Compression.{Codec, Factory, filename, compress}

-- Hour files by name.
abbrev pub DayDir : Type 0
DayDir = List (Bytes × Bytes)

pub data Entry : Type 0 where
  file : Bytes → Entry
  directory : DayDir → Entry

abbrev pub HostDir : Type 0
HostDir = List (Bytes × Entry)

-- A backup directory by the names of its entries; `none` is one that is no directory.
abbrev pub Root : Type 0
Root = List (Bytes × Option HostDir)

pub data Error : Type 0 where
  cannot_read_dir : Error
  cannot_stat : Error
  expected_directory : Error
  cannot_read_file : Bytes → Error
  cannot_write_file : Bytes → Error
  cannot_remove_all : Error

pub record Faults : Type 0 where
  pub mkdir : Bytes → Bool
  pub remove : Bytes → Bool
  pub open_file : Bytes → Bool
  pub create_writer : Bytes → Bool
  pub write : Bytes → Bool
  pub close : Bytes → Bool
  pub stat : Bytes → Bool
  pub read : Bytes → Bool
  pub remove_all : Bytes → Bool
  pub read_dir : Bool
  -- what is in the file after a write or a close that failed
  pub partial : Bytes → Bytes
  -- the files of a directory that a failed os.RemoveAll leaves
  pub left : DayDir → DayDir

-- A disk on which every call succeeds.
abbrev pub no_faults : Faults
no_faults = record {
  mkdir = λ n. false;
  remove = λ n. false;
  open_file = λ n. false;
  create_writer = λ n. false;
  write = λ n. false;
  close = λ n. false;
  stat = λ n. false;
  read = λ n. false;
  remove_all = λ n. false;
  read_dir = false;
  partial = λ s. s;
  left = λ d. d;
}

-- appendToFile on an hour file; a file that cannot be opened is a nil handle, whose WriteString fails.
unfoldable pub append_to_file : Faults → Bytes → Bytes → DayDir → Option Error × DayDir
append_to_file faults name lines dir =
    let old : Bytes = elim (lookup name dir) [ none ↦ [] | some s ↦ s ] in
    if faults.open_file name
    then (some (cannot_write_file name), dir)
    else if faults.write name
    then (some (cannot_write_file name), insert name (old ++ faults.partial lines) dir)
    else (none, insert name (old ++ lines) dir)

module _ (codec : Codec) (faults : Faults) where
  -- The writer's `Write` and `Close`; an error of `Close` is only logged.
  unfoldable pub fill : Factory → Bytes → Bytes → HostDir → Option Error × HostDir
  fill factory name lines dir =
      if faults.write name
      then (
        some (cannot_write_file name),
        insert name (file (faults.partial (compress codec factory lines))) dir,
      )
      else if faults.close name
      then (none, insert name (file (faults.partial (compress codec factory lines))) dir)
      else (none, insert name (file (compress codec factory lines)) dir)

  -- openFile and writeToFile: the old file is removed, and a new one is made and filled.
  unfoldable pub write_to_file : Bytes → Bytes → Factory → HostDir → Option Error × HostDir
  unfolding fill
  write_to_file original lines factory dir =
      let name = filename factory original in
      if faults.mkdir name
      then (some (cannot_write_file original), dir)
      else if faults.remove name
      then (some (cannot_write_file original), dir)
      else if faults.open_file name
      then (some (cannot_write_file original), erase name dir)
      else if faults.create_writer name
      then (some (cannot_write_file original), insert name (file []) (erase name dir))
      else fill factory name lines (erase name dir)

  -- A write touches no file but its own.
  pub lookup-write_to_file :
      (original lines : Bytes) (factory : Factory) (dir : HostDir) (j : Bytes)
      → eqb (filename factory original) j ≡ false
      → lookup j (write_to_file original lines factory dir).1 ≡ lookup j dir
  unfolding write_to_file
  lookup-write_to_file original lines factory dir j h =
      let name = filename factory original in
      let dir' = erase name dir in
      ground (
        arith,
        lookup-erase name j dir,
        lookup-insert name j (file []) dir',
        lookup-insert name j (file (faults.partial (compress codec factory lines))) dir',
        lookup-insert name j (file (compress codec factory lines)) dir',
      )

-- Where no call fails the file holds the compressed text, whatever it held before.
pub lookup-write_to_file_self :
    (codec : Codec) (original lines : Bytes) (factory : Factory) (dir : HostDir)
    → (write_to_file codec no_faults original lines factory dir).0 ≡ none
      × (lookup
            (filename factory original)
            (write_to_file codec no_faults original lines factory dir).1
          ≡ some (file (compress codec factory lines)))
unfolding write_to_file
lookup-write_to_file_self codec original lines factory dir =
    let name = filename factory original in
    (
      refl,
      ground (
        arith,
        eqb_iff name name,
        lookup-insert name name (file (compress codec factory lines)) (erase name dir),
      ),
    )
