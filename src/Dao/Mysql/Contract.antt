-- ===== src/Dao/Mysql/Contract.antt =====
-- The MySQL adapter as an adapter of the store. The state is the adapter and the calls of database/sql,
-- the latest first; `version_row` is the answer to the query for the version behind those calls.
use front_basicrum_go.Base.{
  Bytes, List, [], true, Option, none, some, ◌≡◌, refl, arith, codes, ◌⊎◌, inl, inr,
}
use front_basicrum_go.Base.Decimal.{ℤ, pos}
use front_basicrum_go.Dao.{Failure, adp_version, max_results_of}
use front_basicrum_go.Dao.Checking.{check_version-none}
use front_basicrum_go.Dao.Mysql.{
  Adapter, Config, Parsed, config, invalid, choose_source, settings, connect_with, open_adapter,
  close_adapter, Version, get_db_version, check_db_version,
}
use front_basicrum_go.Dao.Mysql.Writing.{Call, Answers, create_db}
use front_basicrum_go.Store as Stores
use front_basicrum_go.Store.Opening.{IsOpening}
use front_basicrum_go.Store.Contract.{IsAdapter}

abbrev pub World : Type 0
World = Adapter × List Call

raw_or_empty : Option Bytes → Bytes
raw_or_empty none = []
raw_or_empty (some raw) = raw

Parsed-cases : (r : Parsed) → ((e : Bytes) × (r ≡ invalid e)) ⊎ ((c : Config) × (r ≡ config c))
Parsed-cases (invalid e) = inl (e, refl)
Parsed-cases (config c) = inr (c, refl)

module _ (default_cfg : Bytes) (parse_path : Bytes → Option Bytes) (parse_error : Bytes)
    (one_and_half : ℤ → ℤ) (connect : Bytes → Option Bytes) (ping : Bytes → Option Failure)
    (unmarshal : Bytes → Parsed) (close_error : Option Bytes) (version_row : List Call → Version)
    (answers : Answers) (without_db : Bytes → Bytes) where
  -- The adapter that init registers; UpgradeDb does nothing.
  unfoldable pub store_adapter : Stores.Adapter World
  unfolding raw_or_empty
  store_adapter = record {
    name = codes "mysql";
    version = pos adp_version;
    is_open = λ w. w.0.db;
    set_max_results = λ n w. (none, (record w.0 { max_results = max_results_of n }, w.1));
    open_database = λ raw w.
        let (e, a) =
          open_adapter default_cfg parse_path parse_error one_and_half connect ping unmarshal
            (raw_or_empty raw) w.0 in
        (e, (a, w.1));
    close = λ w. let (e, a) = close_adapter close_error w.0 in (e, (a, w.1));
    check_db_version = λ w. (check_db_version (version_row w.1) w.0).0;
    get_db_version = λ w. (get_db_version (version_row w.1) w.0).0.0;
    create_db = λ reset w.
        let ((e, calls), a) = create_db answers without_db reset w.0 w.1 in (e, (a, calls));
    upgrade_db = λ w. (none, w);
  }

  connected_open :
      (c : Config) (a : Adapter)
      → (connect_with one_and_half connect ping c a).0 ≡ none
      → (connect_with one_and_half connect ping c a).1.db ≡ true
  unfolding connect_with settings
  connected_open c a e = ground arith

  store_adapter-IsOpening : IsOpening store_adapter
  unfolding store_adapter open_adapter
  store_adapter-IsOpening raw w e = elim (Parsed-cases (unmarshal (raw_or_empty raw))) [
    | inl (x, p) ↦ ground arith
    | inr (c, p) ↦
        let source = choose_source default_cfg parse_path parse_error c w.0 in
        ground (arith, p, connected_open c source.adapter)
  ]

  -- The MySQL adapter keeps the contract of the store.
  pub store_adapter-IsAdapter : IsAdapter store_adapter
  unfolding store_adapter check_db_version
  store_adapter-IsAdapter = record {
    opening = store_adapter-IsOpening;
    checking = λ w c. check_version-none _ _ c;
  }
