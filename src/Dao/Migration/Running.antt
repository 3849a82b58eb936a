-- ===== src/Dao/Migration/Running.antt =====
-- dao/migration_dao.go: migrateUp and Migrate. The calls of chmigrate are in a list, the latest first; an
-- oracle gives the error of the latest from that list.
use front_basicrum_go.Base.{Bytes, List, [], ◌∷◌, ◌++◌, Option, none, some, codes}
use front_basicrum_go.Dao.Migration.{
  Files, Entry, Faults, Error, plain, cannot_create_temp, cannot_copy_migrations, cannot_discover,
  copy_migrations,
}

-- `discover` reads the migrations of the directory; `init` has the names of the tables of the log and of
-- the locks.
pub data Call : Type 0 where
  discover : Files → Call
  init : Bytes → Bytes → Call
  lock : Call
  migrate_all : Call
  unlock : Call

module _ (answers : List Call → Option Bytes) where
  -- migrateUp once Init has answered.
  unfoldable pub with_lock : List Call → Option Error × List Call
  with_lock calls = elim (answers (lock ∷ calls)) [
    | some e ↦ (some (plain e), lock ∷ calls)
    | none ↦ elim (answers (migrate_all ∷ lock ∷ calls)) [
      | some e ↦ (some (plain e), unlock ∷ migrate_all ∷ lock ∷ calls)
      | none ↦ (none, unlock ∷ migrate_all ∷ lock ∷ calls)
    ]
  ]

  unfoldable pub migrate_up : Bytes → Files → List Call → Option Error × List Call
  unfolding with_lock
  migrate_up prefix files calls =
      let initialised =
        init (prefix ++ codes "ch_migrations") (prefix ++ codes "ch_migration_locks")
        ∷ discover files
        ∷ calls in
      elim (answers (discover files ∷ calls)) [
        | some e ↦ (some (cannot_discover e), discover files ∷ calls)
        | none ↦ elim (answers initialised) [
          | some e ↦ (some (plain e), initialised)
          | none ↦ with_lock initialised
        ]
      ]

  unfoldable pub run_copied :
      Bytes → Option (Option Error × Files) → Option (Option Error × List Call)
  run_copied prefix none = none
  run_copied prefix (some (some e, files)) = some (some (cannot_copy_migrations e), [])
  run_copied prefix (some (none, files)) = some (migrate_up prefix files [])

  -- Migrate, where `mkdir_temp` is the error of MkdirTemp. The temporary directory is new, and is removed
  -- at the end.
  unfoldable pub migrate :
      Option Bytes → Faults → Bytes → List Entry → Option (Option Error × List Call)
  unfolding run_copied
  migrate mkdir_temp faults prefix entries = elim mkdir_temp [
    | some e ↦ some (some (cannot_create_temp e), [])
    | none ↦ run_copied prefix (copy_migrations faults prefix entries [])
  ]
