-- ===== src/Dao/Rethinkdb.antt =====
-- dao/rethinkdb/rethinkdb.go. `unmarshal` is json.Unmarshal into a configType, and `connect` whether
-- rdb.Connect returned a session, with its error.
pub mod Sharing
pub mod Writing
pub mod Contract
use front_basicrum_go.Base.{
  ℕ, Bytes, List, [], ◌∷◌, ◌++◌, Bool, true, false, ◌||◌, ◌&&◌, Option, none, some, codes, is_empty,
  contains, length, ltb, if◌then◌else◌,
}
use front_basicrum_go.Base.Decimal.{ℤ, pos, negsuc, is_positive, mul_int64}
use front_basicrum_go.Types.{SubscriptionWithHostname}
use front_basicrum_go.Service.Subscriptions.{Answer, answer, failure, Cache}
use front_basicrum_go.Base.Assoc.{insert}
use front_basicrum_go.Dao.{
  adp_version, default_max_results, default_database, not_initialized, check_version,
}
use front_basicrum_go.Dao.Addresses.{Value, address, addresses, wrong, read_addresses}

pub record Config : Type 0 where
  pub database : Bytes
  pub addresses : Value
  pub username : Bytes
  pub password : Bytes
  pub auth_key : Bytes
  pub timeout : ℤ
  pub write_timeout : ℤ
  pub read_timeout : ℤ
  pub keep_alive_period : ℤ
  pub use_json_number : Bool
  pub num_retries : ℤ
  pub initial_cap : ℤ
  pub max_open : ℤ
  pub discover_hosts : Bool
  pub host_decay_duration : ℤ

-- The fields of rdb.ConnectOpts that are set; a time.Duration is its nanoseconds.
pub record Options : Type 0 where
  pub address : Bytes
  pub addresses : List Bytes
  pub database : Bytes
  pub username : Bytes
  pub password : Bytes
  pub auth_key : Bytes
  pub timeout : ℤ
  pub write_timeout : ℤ
  pub read_timeout : ℤ
  pub keep_alive_period : ℤ
  pub use_json_number : Bool
  pub num_retries : ℤ
  pub initial_cap : ℤ
  pub max_open : ℤ
  pub discover_hosts : Bool
  pub host_decay_duration : ℤ

pub record Adapter : Type 0 where
  pub conn : Bool
  pub db_name : Bytes
  pub max_results : ℤ
  pub version : ℤ
  pub prefix : Bytes

pub data Parsed : Type 0 where
  config : Config → Parsed
  invalid : Bytes → Parsed

abbrev pub adapter_name : Bytes
adapter_name = codes "rethinkdb"

abbrev pub default_host : Bytes
default_host = codes "localhost:28015"

-- `time.Duration(n) * time.Second`
abbrev seconds : ℤ → ℤ
seconds n = mul_int64 n (pos 1000000000)

unfoldable pub options : Bytes → List Bytes → Bytes → Config → Options
options one several database c = record {
  address = one;
  addresses = several;
  database = database;
  username = c.username;
  password = c.password;
  auth_key = c.auth_key;
  timeout = seconds c.timeout;
  write_timeout = seconds c.write_timeout;
  read_timeout = seconds c.read_timeout;
  keep_alive_period = seconds c.keep_alive_period;
  use_json_number = c.use_json_number;
  num_retries = c.num_retries;
  initial_cap = c.initial_cap;
  max_open = c.max_open;
  discover_hosts = c.discover_hosts;
  host_decay_duration = seconds c.host_decay_duration;
}

module _ (connect : Options → Bool × Option Bytes) where
  unfoldable pub connect_with : Bytes → List Bytes → Config → Adapter → Option Bytes × Adapter
  connect_with one several c a =
      let database = if is_empty c.database then default_database else c.database in
      let (conn, e) = connect (options one several database c) in
      let a' : Adapter = record a {
        conn = conn;
        db_name = database;
        max_results = if is_positive a.max_results then a.max_results else pos default_max_results;
      } in
      elim e [ some x ↦ (some x, a') | none ↦ (none, record a' { version = negsuc 0 }) ]

  unfoldable pub open_config : Config → Adapter → Option Bytes × Adapter
  open_config c a = elim (read_addresses adapter_name default_host c.addresses) [
    | wrong e ↦ (some e, a)
    | address h ↦ connect_with h [] c a
    | addresses hs ↦ connect_with [] hs c a
  ]

  unfoldable pub open_adapter : (Bytes → Parsed) → Bytes → Adapter → Option Bytes × Adapter
  open_adapter unmarshal json_config a =
      if a.conn
      then (some (codes "adapter rethinkdb is already connected"), a)
      else if ltb (length json_config) 2
      then (some (codes "adapter rethinkdb missing config"), a)
      else elim (unmarshal json_config) [
        | invalid e ↦ (some (codes "adapter rethinkdb failed to parse config: " ++ e), a)
        | config c ↦ open_config c a
      ]

-- `error` is what Close of the session returns.
unfoldable pub close_adapter : Option Bytes → Adapter → Option Bytes × Adapter
close_adapter error a =
    if a.conn then (error, record a { conn = false; version = negsuc 0 }) else (none, a)

unfoldable pub is_missing_db : Bytes → Bool
is_missing_db msg = contains msg (codes "Database `") && contains msg (codes "` does not exist")

unfoldable pub is_missing_table : Bytes → Bool
is_missing_table msg = contains msg (codes "Table `") && contains msg (codes "` does not exist")

-- What a query for one value gives: an error, nil, an error of One, or the value.
pub data One (A : Type 0) : Type 0 where
  query_error : Bytes → One A
  is_nil : One A
  one_error : Bytes → One A
  one : A → One A

unfoldable pub get_db_version : One ℤ → Adapter → (ℤ × Option Bytes) × Adapter
get_db_version result a = if is_positive a.version then ((a.version, none), a) else elim result [
  | query_error e ↦
      ((negsuc 0, some (if is_missing_db e || is_missing_table e then not_initialized else e)), a)
  | is_nil ↦ ((negsuc 0, some not_initialized), a)
  | one_error e ↦ ((negsuc 0, some e), a)
  | one v ↦ ((v, none), record a { version = v })
]

-- CheckDbVersion
unfoldable pub check_db_version : One ℤ → Adapter → Option Bytes × Adapter
check_db_version result a = let ((v, e), a') = get_db_version result a in (check_version v e, a')

-- GetSubscription; `none` is the nil item.
unfoldable pub get_subscription :
    One SubscriptionWithHostname → Answer (Option SubscriptionWithHostname)
get_subscription (query_error e) = failure e
get_subscription is_nil = answer none
get_subscription (one_error e) = failure e
get_subscription (one item) = answer (some item)

-- What a query for many rows gives: an error, or the rows and the error of the cursor.
pub data Many (A : Type 0) : Type 0 where
  many_error : Bytes → Many A
  many : List A → Option Bytes → Many A

-- The address of the variable `item`.
pub data Pointer : Type 0 where
  to_item : Pointer

-- The loop of GetSubscriptions. All entries of the map point to the one variable `item`: the loop
-- gives the map from ids to that pointer, and what the variable holds.
unfoldable pub point_all :
    List SubscriptionWithHostname
    → List (Bytes × Pointer)
    → SubscriptionWithHostname
    → List (Bytes × Pointer) × SubscriptionWithHostname
point_all [] result item = (result, item)
point_all (row ∷ rows) result item = point_all rows (insert row.subscription.id to_item result) row

-- What the pointers of the map lead to.
unfoldable pub deref : List (Bytes × Pointer) → SubscriptionWithHostname → Cache
deref [] item = []
deref ((id, p) ∷ m) item = (id, item) ∷ deref m item

-- The variable `item` before the loop.
abbrev pub zero_item : SubscriptionWithHostname
zero_item = record { subscription = record { id = []; expires_at = 0 }; hostname = [] }

-- GetSubscriptions
unfoldable pub get_subscriptions : Many SubscriptionWithHostname → Answer Cache
get_subscriptions (many_error e) = failure e
get_subscriptions (many rows (some e)) = failure e
get_subscriptions (many rows none) =
    let (m, item) = point_all rows [] zero_item in answer (deref m item)

-- GetEvents copies the variable of its loop into the list.
unfoldable pub get_events : {A : Type 0} → Many A → List A × Option Bytes
get_events (many_error e) = ([], some e)
get_events (many rows (some e)) = ([], some e)
get_events (many rows none) = (rows, none)

-- The tables that CreateDb makes, with their primary keys, in order.
unfoldable pub tables : Adapter → List (Bytes × Bytes)
tables a =
    (codes "latency", codes "Id")
    ∷ (a.prefix ++ codes "webperf_rum_hostnames", codes "hostname")
    ∷ (a.prefix ++ codes "webperf_rum_own_hostnames", codes "hostname")
    ∷ (a.prefix ++ codes "webperf_rum_grant_hostnames", codes "hostname")
    ∷ (codes "kvmeta", codes "key")
    ∷ []

-- The writes of CreateDb.
pub data Write : Type 0 where
  db_drop : Bytes → Write
  db_create : Bytes → Write
  table_create : Bytes → Bytes → Bytes → Write
  insert_version : Bytes → ℕ → Write

module _ (answers : List Write → Option Bytes) where
  -- The tables and then the version; the latest write stands first.
  unfoldable pub create_tables :
      Bytes → List (Bytes × Bytes) → List Write → Option Bytes × List Write
  create_tables db [] done =
      (answers (insert_version db adp_version ∷ done), insert_version db adp_version ∷ done)
  create_tables db ((table, key) ∷ rest) done =
      let more = create_tables db rest (table_create db table key ∷ done) in
      elim (answers (table_create db table key ∷ done)) [
        | some e ↦ (some e, table_create db table key ∷ done)
        | none ↦ more
      ]

  -- An error of the drop is ignored.
  unfoldable pub create_db : Bool → Adapter → Option Bytes × List Write
  create_db reset a =
      let dropped = if reset then db_drop a.db_name ∷ [] else [] in
      elim (answers (db_create a.db_name ∷ dropped)) [
        | some e ↦ (some e, db_create a.db_name ∷ dropped)
        | none ↦ create_tables a.db_name (tables a) (db_create a.db_name ∷ dropped)
      ]
