-- ===== src/Dao/Migration.antt =====
-- dao/migration_dao.go: the templates of the migrations are copied to a temporary directory, with the
-- prefix of the tables in place of the placeholder, and applied by chmigrate under a lock. `Faults` says
-- which calls of the file system fail; an oracle does so for the calls of chmigrate.
pub mod Replacing
pub mod Copying
pub mod Running
pub mod Locking
use front_basicrum_go.Base.{
  ℕ, zero, suc, ◌+◌, ◌-◌, Bytes, List, [], ◌∷◌, ◌++◌, Bool, true, false, not, Option, none, some,
  codes, length, take, drop, has_prefix, is_empty, if◌then◌else◌,
}
use front_basicrum_go.Base.Assoc.{lookup, insert}

abbrev pub table_prefix_placeholder : Bytes
table_prefix_placeholder = codes "{prefix}"

abbrev pub buffer_size : ℕ
buffer_size = 1024

-- The files below the temporary directory, by their paths there.
abbrev pub Files : Type 0
Files = List (Bytes × Bytes)

-- An entry that WalkDir visits; `error` is the error that it reports for it.
pub record Entry : Type 0 where
  pub path : Bytes
  pub error : Option Bytes
  pub is_dir : Bool
  pub is_regular : Bool
  pub content : Bytes

-- The error of each call, with the path; of a Read or a Write also its round in the loop.
pub record Faults : Type 0 where
  pub open_source : Bytes → Option Bytes
  pub stat_source : Bytes → Option Bytes
  pub create : Bytes → Option Bytes
  pub read : Bytes → ℕ → Option Bytes
  pub write : Bytes → ℕ → Option Bytes
  pub stat : Bytes → Option Bytes
  pub read_file : Bytes → Option Bytes
  pub write_file : Bytes → Option Bytes

abbrev pub no_faults : Faults
no_faults = record {
  open_source = λ p. none;
  stat_source = λ p. none;
  create = λ p. none;
  read = λ p n. none;
  write = λ p n. none;
  stat = λ p. none;
  read_file = λ p. none;
  write_file = λ p. none;
}

-- An error as the functions wrap it.
pub data Error : Type 0 where
  plain : Bytes → Error
  not_regular : Bytes → Error
  cannot_copy_file : Bytes → Error → Error
  cannot_read_stat : Bytes → Bytes → Error
  cannot_read_source : Bytes → Bytes → Error
  cannot_write_replaced : Bytes → Bytes → Error
  cannot_replace_prefix : Bytes → Error → Error
  cannot_create_temp : Bytes → Error
  cannot_copy_migrations : Error → Error
  cannot_discover : Bytes → Error

-- bytes.ReplaceAll for a text to find that is not empty; the number counts the bytes of a match that
-- are still to be passed over.
unfoldable pub replace_from : Bytes → Bytes → Bytes → ℕ → Bytes
replace_from find replacement [] skip = []
replace_from find replacement (c ∷ s) (suc skip) = replace_from find replacement s skip
replace_from find replacement (c ∷ s) zero =
    let found = replace_from find replacement s (length find - 1) in
    let other = replace_from find replacement s 0 in
    if has_prefix find (c ∷ s) then replacement ++ found else c ∷ other

unfoldable pub replace_all : Bytes → Bytes → Bytes → Bytes
replace_all input find replacement = replace_from find replacement input 0

-- What the loop of copyFile ends with: the error, and what was written.
pub data Copied : Type 0 where
  copied : Option Bytes → Bytes → Copied
  out_of_fuel : Copied

module _ (faults : Faults) where
  -- The loop of copyFile; a Read gives the next bytes of the source, as many as the buffer holds.
  unfoldable pub copy_loop : ℕ → ℕ → Bytes → Bytes → Bytes → Copied
  copy_loop zero round path rest written = out_of_fuel
  copy_loop (suc fuel) round path rest written =
      let chunk = take buffer_size rest in
      let more = copy_loop fuel (round + 1) path (drop buffer_size rest) (written ++ chunk) in
      elim (faults.read path round) [
        | some e ↦ copied (some e) written
        | none ↦
            if is_empty chunk
            then copied none written
            else elim (faults.write path round) [ some e ↦ copied (some e) written | none ↦ more ]
      ]

  -- What copyFile leaves in the file that it has made; nil is returned with no error.
  finish_copy : Bytes → Files → Copied → Option (Option Error × Files)
  finish_copy path files out_of_fuel = none
  finish_copy path files (copied (some e) written) =
      some (some (plain e), insert path written files)
  finish_copy path files (copied none written) = some (none, insert path written files)

  -- `none` is a loop that does not end.
  unfoldable pub copy_file : Entry → Files → Option (Option Error × Files)
  unfolding finish_copy
  copy_file src files = elim (faults.stat_source src.path) [
    | some e ↦ some (some (plain e), files)
    | none ↦
        if not src.is_regular
        then some (some (not_regular src.path), files)
        else elim (faults.create src.path) [
          | some e ↦ some (some (plain e), files)
          | none ↦
              finish_copy src.path files
                (copy_loop (suc (length src.content)) 0 src.path src.content [])
        ]
  ]

  content_of : Option Bytes → Bytes
  content_of none = []
  content_of (some s) = s

  unfoldable pub replace_text_in_file : Bytes → Bytes → Bytes → Files → Option Error × Files
  unfolding content_of
  replace_text_in_file path find replacement files = elim (faults.stat path) [
    | some e ↦ (some (cannot_read_stat path e), files)
    | none ↦ elim (faults.read_file path) [
      | some e ↦ (some (cannot_read_source path e), files)
      | none ↦ elim (faults.write_file path) [
        | some e ↦ (some (cannot_write_replaced path e), files)
        | none ↦ (
          none,
          insert path (replace_all (content_of (lookup path files)) find replacement) files,
        )
      ]
    ]
  ]

  replace_prefix : Bytes → Bytes → Files → Option Error × Files
  replace_prefix prefix path files =
      let (e, files') = replace_text_in_file path table_prefix_placeholder prefix files in
      elim e [ some x ↦ (some (cannot_replace_prefix path x), files') | none ↦ (none, files') ]

  with_prefix : Bytes → Bytes → Option (Option Error × Files) → Option (Option Error × Files)
  with_prefix prefix path none = none
  with_prefix prefix path (some (some e, files)) = some (some (cannot_copy_file path e), files)
  with_prefix prefix path (some (none, files)) = some (replace_prefix prefix path files)

  unfoldable pub process_migration_file : Bytes → Entry → Files → Option (Option Error × Files)
  unfolding replace_prefix with_prefix
  process_migration_file prefix src files = with_prefix prefix src.path (copy_file src files)

  -- The function that copyMigrations gives to WalkDir.
  unfoldable pub visit : Bytes → Entry → Files → Option (Option Error × Files)
  visit prefix entry files = elim entry.error [
    | some e ↦ some (some (plain e), files)
    | none ↦ if entry.is_dir then some (none, files) else elim (faults.open_source entry.path) [
      | some e ↦ some (some (plain e), files)
      | none ↦ process_migration_file prefix entry files
    ]
  ]

  -- WalkDir over the entries, up to the first error.
  unfoldable pub copy_migrations : Bytes → List Entry → Files → Option (Option Error × Files)
  copy_migrations prefix [] files = some (none, files)
  copy_migrations prefix (entry ∷ rest) files = elim (visit prefix entry files) [
    | none ↦ none
    | some r ↦ elim r.0 [ some x ↦ some (some x, r.1) | none ↦ copy_migrations prefix rest r.1 ]
  ]
