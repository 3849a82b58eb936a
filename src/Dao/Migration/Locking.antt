-- ===== src/Dao/Migration/Locking.antt =====
-- Migrate as a whole: it ends, gives back its lock, and applies the rendered templates.
use front_basicrum_go.Base.{
  Bytes, List, [], ◌∷◌, Bool, true, false, ◌&&◌, Option, none, some, ◌≡◌, ◌∙◌, ap, refl, arith,
}
use front_basicrum_go.Base.Assoc.{lookup, lookup-nil}
use front_basicrum_go.Dao.Migration.{Files, Entry, Faults, no_faults, Error}
use front_basicrum_go.Dao.Migration.Copying.{
  rendered, AreFine, copy_migrations-rendered, copy_migrations_ends,
}
use front_basicrum_go.Dao.Migration.Running.{
  Call, discover, init, lock, migrate_all, unlock, with_lock, migrate_up, run_copied, migrate,
}

abbrev pub is_none : {A : Type 0} → Option A → Bool
is_none none = true
is_none (some a) = false

module _ (answers : List Call → Option Bytes) where
  -- Whether the lock is held behind the calls: it was taken with no error, and not given back since.
  unfoldable pub is_locked : List Call → Bool
  is_locked [] = false
  is_locked (lock ∷ calls) = is_none (answers (lock ∷ calls))
  is_locked (unlock ∷ calls) = false
  is_locked (discover files ∷ calls) = is_locked calls
  is_locked (init log locks ∷ calls) = is_locked calls
  is_locked (migrate_all ∷ calls) = is_locked calls

  -- Whether the migrations were applied with no error and under the lock.
  unfoldable pub is_applied : List Call → Bool
  is_applied [] = false
  is_applied (migrate_all ∷ calls) = is_none (answers (migrate_all ∷ calls)) && is_locked calls
  is_applied (lock ∷ calls) = is_applied calls
  is_applied (unlock ∷ calls) = is_applied calls
  is_applied (discover files ∷ calls) = is_applied calls
  is_applied (init log locks ∷ calls) = is_applied calls

  migrate_up-is_locked :
      (prefix : Bytes) (files : Files)
      → (is_locked (migrate_up answers prefix files []).1 ≡ false)
        × (is_none (migrate_up answers prefix files []).0
            ≡ is_applied (migrate_up answers prefix files []).1)
  unfolding migrate_up with_lock is_locked is_applied
  migrate_up-is_locked prefix files = (ground arith, ground arith)

  copied_is_locked :
      (prefix : Bytes) (r : Option Error × Files)
      → (e : Option Error) × (calls : List Call) × (run_copied answers prefix (some r)
          ≡ some (e, calls))
        × (is_locked calls ≡ false)
        × (is_none e ≡ is_applied calls)
  unfolding run_copied is_locked is_applied
  copied_is_locked prefix (some x, files) = (_, _, refl, refl, refl)
  copied_is_locked prefix (none, files) =
      let (free, applied) = migrate_up-is_locked prefix files in (_, _, refl, free, applied)

  -- Migrate ends, whatever calls fail. A lock that was taken has then been given back by a call of
  -- Unlock, and there is no error exactly when the migrations were applied under the lock.
  pub migrate-is_locked :
      (mkdir_temp : Option Bytes) (faults : Faults) (prefix : Bytes) (entries : List Entry)
      → (e : Option Error) × (calls : List Call) × (migrate answers mkdir_temp faults prefix entries
          ≡ some (e, calls))
        × (is_locked calls ≡ false)
        × (is_none e ≡ is_applied calls)
  unfolding migrate is_locked is_applied
  migrate-is_locked (some x) faults prefix entries = (_, _, refl, refl, refl)
  migrate-is_locked none faults prefix entries =
      let (r, c) = copy_migrations_ends faults prefix entries [] in
      let (e, calls, run, free, applied) = copied_is_locked prefix r in
      (e, calls, ap (run_copied answers prefix) c ∙ run, free, applied)

  -- Where no call of the file system fails, and each entry is a directory or a regular file that
  -- WalkDir reports with no error, what chmigrate discovers is a directory in which each file holds
  -- the latest template of its path with the prefix for the placeholder, and Migrate returns what
  -- migrateUp returns for it.
  pub migrate-rendered :
      (prefix : Bytes) (entries : List Entry)
      → AreFine entries
      → (files : Files) × (migrate answers none no_faults prefix entries
          ≡ some (migrate_up answers prefix files []))
        × ((path : Bytes) → lookup path files ≡ rendered prefix path entries none)
  unfolding migrate run_copied
  migrate-rendered prefix entries h =
      let (files, c, l) = copy_migrations-rendered prefix entries [] h in
      (
        files,
        ap (run_copied answers prefix) c,
        λ path. l path ∙ ap (rendered prefix path entries) (lookup-nil path),
      )
