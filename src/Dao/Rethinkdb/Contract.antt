-- ===== src/Dao/Rethinkdb/Contract.antt =====
-- The RethinkDB adapter as an adapter of the store. The state is the adapter and the writes of CreateDb
-- that were sent, the latest first; `version_value` is the answer to the query for the version behind
-- those writes, and `close_error` the error of Close of the session.
use front_basicrum_go.Base.{
  Bytes, List, [], ◌++◌, Bool, true, Option, none, some, ◌≡◌, refl, arith, is_empty, if◌then◌else◌,
  ◌⊎◌, inl, inr,
}
use front_basicrum_go.Base.Decimal.{ℤ, pos}
use front_basicrum_go.Dao.{adp_version, default_database, max_results_of}
use front_basicrum_go.Dao.Checking.{check_version-none}
use front_basicrum_go.Dao.Addresses.{read_addresses, Addresses-cases}
use front_basicrum_go.Dao.Rethinkdb.{
  Adapter, Config, Options, Parsed, config, invalid, One, Write, adapter_name, default_host,
  options, connect_with, open_config, open_adapter, close_adapter, get_db_version, check_db_version,
  create_db,
}
use front_basicrum_go.Store as Stores
use front_basicrum_go.Store.Opening.{IsOpening}
use front_basicrum_go.Store.Contract.{IsAdapter}

abbrev pub World : Type 0
World = Adapter × List Write

raw_or_empty : Option Bytes → Bytes
raw_or_empty none = []
raw_or_empty (some raw) = raw

Parsed-cases : (r : Parsed) → ((e : Bytes) × (r ≡ invalid e)) ⊎ ((c : Config) × (r ≡ config c))
Parsed-cases (invalid e) = inl (e, refl)
Parsed-cases (config c) = inr (c, refl)

module _ (unmarshal : Bytes → Parsed) (connect : Options → Bool × Option Bytes)
    (close_error : Option Bytes) (version_value : List Write → One ℤ)
    (answers : List Write → Option Bytes) where
  -- An error of rdb.Connect comes with no session, and no error with one.
  abbrev pub IsConnecting : Type 0
  IsConnecting = (opts : Options) → (connect opts).1 ≡ none → (connect opts).0 ≡ true

  -- The adapter that init registers; UpgradeDb does nothing.
  unfoldable pub store_adapter : Stores.Adapter World
  unfolding raw_or_empty
  store_adapter = record {
    name = adapter_name;
    version = pos adp_version;
    is_open = λ w. w.0.conn;
    set_max_results = λ n w. (none, (record w.0 { max_results = max_results_of n }, w.1));
    open_database = λ raw w.
        let (e, a) = open_adapter connect unmarshal (raw_or_empty raw) w.0 in (e, (a, w.1));
    close = λ w. let (e, a) = close_adapter close_error w.0 in (e, (a, w.1));
    check_db_version = λ w. (check_db_version (version_value w.1) w.0).0;
    get_db_version = λ w. (get_db_version (version_value w.1) w.0).0.0;
    create_db = λ reset w.
        let (e, sent) = create_db (λ sent. answers (sent ++ w.1)) reset w.0 in
        (e, (w.0, sent ++ w.1));
    upgrade_db = λ w. (none, w);
  }

  module _ (h : IsConnecting) where
    connected_open :
        (one : Bytes) (several : List Bytes) (c : Config) (a : Adapter)
        → (connect_with connect one several c a).0 ≡ none
        → (connect_with connect one several c a).1.conn ≡ true
    unfolding connect_with
    connected_open one several c a e =
        let database = if is_empty c.database then default_database else c.database in
        ground (arith, h (options one several database c))

    configured_open :
        (c : Config) (a : Adapter)
        → (open_config connect c a).0 ≡ none
        → (open_config connect c a).1.conn ≡ true
    unfolding open_config
    configured_open c a e =
        elim (Addresses-cases (read_addresses adapter_name default_host c.addresses)) [
          | inl (x, w) ↦ ground arith
          | inr (inl (t, w)) ↦ ground (arith, connected_open t [] c a)
          | inr (inr (ts, w)) ↦ ground (arith, connected_open [] ts c a)
        ]

    store_adapter-IsOpening : IsOpening store_adapter
    unfolding store_adapter open_adapter
    store_adapter-IsOpening raw w e = elim (Parsed-cases (unmarshal (raw_or_empty raw))) [
      | inl (x, p) ↦ ground arith
      | inr (c, p) ↦ ground (arith, configured_open c w.0)
    ]

    -- Where rdb.Connect returns a session whenever it returns no error, the RethinkDB adapter keeps the
    -- contract of the store.
    pub store_adapter-IsAdapter : IsAdapter store_adapter
    unfolding store_adapter check_db_version
    store_adapter-IsAdapter = record {
      opening = store_adapter-IsOpening;
      checking = λ w c. check_version-none _ _ c;
    }
