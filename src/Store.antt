-- ===== src/Store.antt =====
-- store/store.go: the registered database adapters, the one that is in use, and opening it. The
-- interface dao.Adapter is a record of operations on a state of the database.
pub mod Opening
pub mod Contract
mod Tests
use front_basicrum_go.Base.{
  ℕ, Bytes, List, [], ◌∷◌, ◌++◌, Bool, true, false, not, Option, none, some, is_empty, codes, ltb,
  if◌then◌else◌,
}
use front_basicrum_go.Base.Assoc.{lookup, insert}
use front_basicrum_go.Base.Outcome.{Outcome, returns, panics}
use front_basicrum_go.Base.Decimal.{ℤ, pos, negsuc}

-- An adapter over the states `W`; `none` is the nil error.
pub record Adapter (W : Type 0) : Type 0 where
  pub name : Bytes
  pub version : ℤ
  pub is_open : W → Bool
  pub set_max_results : ℤ → W → Option Bytes × W
  pub open_database : Option Bytes → W → Option Bytes × W
  pub close : W → Option Bytes × W
  pub check_db_version : W → Option Bytes
  pub get_db_version : W → ℤ
  pub create_db : Bool → W → Option Bytes × W
  pub upgrade_db : W → Option Bytes × W

-- `adapters` is `none` for the nil map.
pub record Config : Type 0 where
  pub uid_key : Bytes
  pub max_results : ℤ
  pub use_adapter : Bytes
  pub adapters : Option (List (Bytes × Bytes))

-- The result of json.Unmarshal.
pub data Parsed : Type 0 where
  config : Config → Parsed
  invalid : Bytes → Parsed

-- The variables `availableAdapters` and `adp`, and the state of the database.
pub record Store (W : Type 0) : Type 0 where
  pub available : List (Bytes × Adapter W)
  pub adp : Option (Adapter W)
  pub database : W

-- The adapter of the configuration, or the text of an error.
pub data Chosen (W : Type 0) : Type 0 where
  chosen : Adapter W → Chosen W
  missing : Bytes → Chosen W

unfoldable pub valid_worker_id : ℤ → Bool
valid_worker_id (negsuc n) = false
valid_worker_id (pos n) = if ltb 1023 n then false else true

unfoldable pub adapter_config : Bytes → Option (List (Bytes × Bytes)) → Option Bytes
adapter_config name none = none
adapter_config name (some m) = lookup name m

module _ {W : Type 0} where
  only : List (Bytes × Adapter W) → Chosen W
  only ((name, a) ∷ []) = chosen a
  only _ = missing (
      codes
        "store: db adapter is not specified. Please set `store_config.use_adapter` in `front_basicrum_config.conf`")

  named : Bytes → Option (Adapter W) → Chosen W
  named name none =
      missing (codes "store: " ++ (name ++ codes " adapter is not available in this binary"))
  named name (some a) = chosen a

  unfoldable pub choose_adapter : Config → Store W → Chosen W
  unfolding only named
  choose_adapter c s = elim s.adp [
    | some a ↦ chosen a
    | none ↦
        if is_empty c.use_adapter
        then only s.available
        else named c.use_adapter (lookup c.use_adapter s.available)
  ]

  -- openAdapter once the adapter is chosen.
  unfoldable pub open_chosen : ℤ → Config → Adapter W → Store W → Option Bytes × Store W
  open_chosen worker_id c a s =
      if a.is_open s.database
      then (some (codes "store: connection is already opened"), s)
      else if not (valid_worker_id worker_id)
      then (some (codes "store: invalid worker ID"), s)
      else let (e, database) = a.set_max_results c.max_results s.database in
        elim e [
          | some x ↦ (some x, record s { database = database })
          | none ↦
              let (e', database') = a.open_database (adapter_config a.name c.adapters) database in
              (e', record s { database = database' })
        ]

  -- The adapter stays chosen, whatever comes of opening it.
  unfoldable pub open_adapter : (Bytes → Parsed) → ℤ → Bytes → Store W → Option Bytes × Store W
  open_adapter parse worker_id json_config s = elim (parse json_config) [
    | invalid e ↦ (
      some (
          codes "store: failed to parse config: "
          ++ (e ++ (codes "(" ++ (json_config ++ codes ")")))),
      s,
    )
    | config c ↦ elim (choose_adapter c s) [
      | missing e ↦ (some e, s)
      | chosen a ↦ open_chosen worker_id c a (record s { adp = some a })
    ]
  ]

  -- A call of a method of `adp`, which panics where `adp` is nil.
  call : (Adapter W → W → Option Bytes × W) → Store W → Outcome (Option Bytes × Store W)
  call method s = elim s.adp [
    | none ↦ panics
    | some a ↦
        let (e, database) = method a s.database in returns (e, record s { database = database })
  ]

  unfoldable pub is_open : Store W → Bool
  is_open s = elim s.adp [ none ↦ false | some a ↦ a.is_open s.database ]

  unfoldable pub open_store :
      (Bytes → Parsed) → ℤ → Bytes → Store W → Outcome (Option Bytes × Store W)
  unfolding call
  open_store parse worker_id json_config s =
      let (e, s') = open_adapter parse worker_id json_config s in
      elim e [ some x ↦ returns (some x, s') | none ↦ call (λ a w. (a.check_db_version w, w)) s' ]

  unfoldable pub close : Store W → Outcome (Option Bytes × Store W)
  close s = elim s.adp [
    | none ↦ panics
    | some a ↦
        let (e, database) = a.close s.database in
        if a.is_open s.database
        then returns (e, record s { database = database })
        else returns (none, s)
  ]

  unfoldable pub get_adapter_name : Store W → Bytes
  get_adapter_name s = elim s.adp [ none ↦ [] | some a ↦ a.name ]

  unfoldable pub get_adapter_version : Store W → ℤ
  get_adapter_version s = elim s.adp [ none ↦ negsuc 0 | some a ↦ a.version ]

  unfoldable pub get_db_version : Store W → ℤ
  get_db_version s = elim s.adp [ none ↦ negsuc 0 | some a ↦ a.get_db_version s.database ]

  -- The common text of InitDb and UpgradeDb.
  opened :
      (Bytes → Parsed)
      → (Adapter W → W → Option Bytes × W)
      → Bytes
      → Store W
      → Outcome (Option Bytes × Store W)
  opened parse method json_config s =
      if is_open s
      then call method s
      else let (e, s') = open_adapter parse (pos 1) json_config s in
        elim e [ some x ↦ returns (some x, s') | none ↦ call method s' ]

  unfoldable pub init_db :
      (Bytes → Parsed) → Bytes → Bool → Store W → Outcome (Option Bytes × Store W)
  unfolding opened call
  init_db parse json_config reset = opened parse (λ a. a.create_db reset) json_config

  unfoldable pub upgrade_db : (Bytes → Parsed) → Bytes → Store W → Outcome (Option Bytes × Store W)
  unfolding opened call
  upgrade_db parse json_config = opened parse (λ a. a.upgrade_db) json_config

  -- RegisterAdapter; `none` is the nil adapter.
  unfoldable pub register_adapter : Option (Adapter W) → Store W → Outcome (Store W)
  register_adapter none s = panics
  register_adapter (some a) s = elim (lookup a.name s.available) [
    | some b ↦ panics
    | none ↦ returns (record s { available = insert a.name a s.available })
  ]
