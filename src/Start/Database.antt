-- ===== src/Start/Database.antt =====
-- What the start-up does to the database, by the flags and by what opening it says.
use front_basicrum_go.Base.{
  Bytes, ◌∷◌, ◌++◌, true, false, Option, none, some, ◌≡◌, refl, arith, codes, contains, has_prefix,
  contains-append, contains-count, count, count-append, if◌then◌else◌,
}
use front_basicrum_go.Base.Outcome.{returns}
use front_basicrum_go.Base.Decimal.{ℤ, pos, lt_int, itoa_int, itoa, count-itoa_int}
use front_basicrum_go.Dao.{check_version, not_initialized, invalid_version, adp_version}
use front_basicrum_go.Store.{
  Store, Parsed, is_open, open_store, get_adapter_version, get_db_version, init_db, upgrade_db,
}
use front_basicrum_go.Start.{
  Flags, default_flags, goes_on, exits, ignoring, handle_open_error, handle_opened,
  prepare_database,
}

version_text : ℤ → Bytes
version_text version =
    invalid_version ++ (itoa_int version ++ (codes ". Expected " ++ itoa adp_version))

one-digits : count b'D' (itoa adp_version) ≡ 0
unfolding itoa_int
one-digits = count-itoa_int b'D' (pos adp_version) (omega arith)

version_text-other : (version : ℤ) → contains (version_text version) not_initialized ≡ false
unfolding version_text codes
version_text-other version =
    contains-count (version_text version) b'D' (codes "atabase not initialized") (
      ground (
        arith,
        count-append b'D' invalid_version
            (itoa_int version ++ (codes ". Expected " ++ itoa adp_version)),
        count-append b'D' (itoa_int version) (codes ". Expected " ++ itoa adp_version),
        count-itoa_int b'D' version (omega arith),
        count-append b'D' (codes ". Expected ") (itoa adp_version),
        one-digits,
      ))

version_text-same :
    (version : ℤ) → contains (version_text version) (codes "Invalid database version") ≡ true
unfolding version_text codes
version_text-same version =
    contains-append (codes "Invalid database version")
      (b' ' ∷ (itoa_int version ++ (codes ". Expected " ++ itoa adp_version)))

not_initialized-contained : contains not_initialized (codes "Database not initialized") ≡ true
unfolding contains codes has_prefix
not_initialized-contained = refl

module _ {W : Type 0} (parse : Bytes → Parsed) (raw : Bytes) where
  -- With the default flags a start-up that goes on has opened the store with no error, and works on the
  -- database as the opening left it: nothing was created, reset or upgraded.
  pub prepare_database-kept :
      (s s' : Store W)
      → prepare_database parse default_flags raw s ≡ returns (goes_on s')
      → open_store parse (pos 1) raw s ≡ returns (none, s')
  unfolding prepare_database handle_opened handle_open_error
  prepare_database-kept s s' h = ground arith

  -- When the error of Open is the one that CheckDbVersion makes of a version that it could read and that
  -- is not the expected one, whatever the number, main never takes it for a database that is not
  -- initialized: with `reset` it calls InitDb, without it and with `upgrade` it ends at a database newer
  -- than the adapter and calls UpgradeDb on any other, and with neither flag it ends. The result of
  -- the call does not decide whether the start-up goes on.
  pub handle_open_error-check_version :
      (flags : Flags) (version : ℤ) (e : Bytes) (s : Store W)
      → check_version version none ≡ some e
      → handle_open_error parse flags raw e s ≡ (
          if flags.reset
          then ignoring parse (init_db parse raw true s)
          else if flags.upgrade
          then (if lt_int (get_adapter_version s) (if is_open s then get_db_version s else pos 0)
              then returns exits
              else ignoring parse (upgrade_db parse raw s))
          else returns exits)
  unfolding handle_open_error check_version version_text
  handle_open_error-check_version flags version e s h =
      ground (arith, version_text-other version, version_text-same version)

  -- Where the database is not initialized and `no_init` is off, the start-up goes on with what InitDb
  -- leaves, even where InitDb fails.
  pub prepare_database-init_failed :
      (flags : Flags) (s opened left : Store W) (e : Option Bytes)
      → flags.no_init ≡ false
      → open_store parse (pos 1) raw s ≡ returns (some not_initialized, opened)
      → init_db parse raw true opened ≡ returns (e, left)
      → prepare_database parse flags raw s ≡ returns (goes_on left)
  unfolding prepare_database handle_opened handle_open_error ignoring
  prepare_database-init_failed flags s opened left e n o i =
      ground (arith, not_initialized-contained)
