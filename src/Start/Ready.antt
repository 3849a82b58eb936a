-- ===== src/Start/Ready.antt =====
-- The start-up over the adapters of dao: when the database that it goes on with is ready.
use front_basicrum_go.Base.{Bytes, true, ◌≡◌}
use front_basicrum_go.Base.Outcome.{returns}
use front_basicrum_go.Base.Decimal.{pos}
use front_basicrum_go.Store.{Store, Parsed, is_open, get_adapter_version, get_db_version}
use front_basicrum_go.Store.Contract.{HasAdapters, open_store-ready}
use front_basicrum_go.Start.{default_flags, goes_on, prepare_database}
use front_basicrum_go.Start.Database.{prepare_database-kept}

module _ {W : Type 0} (parse : Bytes → Parsed) (raw : Bytes) where
  -- Where every adapter that the store can choose keeps the contract, a start-up with the default flags
  -- that goes on has an open database of the version of the adapter.
  pub prepare_database-ready :
      (s s' : Store W)
      → HasAdapters s
      → prepare_database parse default_flags raw s ≡ returns (goes_on s')
      → (is_open s' ≡ true) × (get_db_version s' ≡ get_adapter_version s')
  prepare_database-ready s s' h p =
      open_store-ready parse (pos 1) raw s s' h (prepare_database-kept parse raw s s' p)
