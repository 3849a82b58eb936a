-- ===== src/Dao/Clickhouse.antt =====
-- dao/clickhouse/clickhouse.go. `unmarshal` is json.Unmarshal into a configType, `connect` whether
-- clickhouse.Open returned a connection, with its error, and `ping` the error of Ping. The statements
-- are run by an oracle that says which of them fail, from the statements before.
pub mod Reading
pub mod Writing
pub mod Tables
pub mod Contract
use front_basicrum_go.Base.{
  ℕ, Bytes, List, [], ◌∷◌, ◌++◌, Bool, true, false, ◌||◌, Option, none, some, codes, is_empty,
  contains, length, ltb, if◌then◌else◌,
}
use front_basicrum_go.Base.Decimal.{ℤ, pos, negsuc, is_positive, mul_int64, itoa}
use front_basicrum_go.Types.{SubscriptionWithHostname}
use front_basicrum_go.Service.Subscriptions.{Answer, answer, failure, Cache}
use front_basicrum_go.Dao.{
  Failure, adp_version, default_max_results, default_database, base_owner_hosts_table_name,
  not_initialized, check_version,
}
use front_basicrum_go.Dao.Addresses.{Value, address, addresses, wrong, read_addresses}
use front_basicrum_go.Dao.Rows.{
  Rows, Queried, queried, query_error, Scanned, scanned, scan_error, collect_events,
}

pub record Config : Type 0 where
  pub database : Bytes
  pub addresses : Value
  pub username : Bytes
  pub password : Bytes
  pub timeout : ℤ
  pub read_timeout : ℤ
  pub keep_alive_period : ℤ
  pub use_json_number : Bool
  pub num_retries : ℤ
  pub initial_cap : ℤ
  pub max_open : ℤ
  pub discover_hosts : Bool
  pub host_decay_duration : ℤ
  pub table_prefix : Bytes

-- The fields of clickhouse.Options that are set; a time.Duration is its nanoseconds.
pub record Options : Type 0 where
  pub addr : List Bytes
  pub username : Bytes
  pub password : Bytes
  pub dial_timeout : ℤ
  pub read_timeout : ℤ
  pub conn_max_lifetime : ℤ
  pub max_open_conns : ℤ

pub record Adapter : Type 0 where
  pub conn : Bool
  pub db_name : Bytes
  pub max_results : ℤ
  pub version : ℤ
  pub prefix : Bytes

-- The result of json.Unmarshal.
pub data Parsed : Type 0 where
  config : Config → Parsed
  invalid : Bytes → Parsed

abbrev pub adapter_name : Bytes
adapter_name = codes "clickhouse"

abbrev pub default_host : Bytes
default_host = codes "localhost:9000"

-- `time.Duration(n) * time.Second`
abbrev pub seconds : ℤ → ℤ
seconds n = mul_int64 n (pos 1000000000)

unfoldable pub options : List Bytes → Config → Options
options addr c = record {
  addr = addr;
  username = c.username;
  password = c.password;
  dial_timeout = seconds c.timeout;
  read_timeout = seconds c.read_timeout;
  conn_max_lifetime = seconds c.keep_alive_period;
  max_open_conns = c.max_open;
}

module _ (connect : Options → Bool × Option Bytes) (ping : Options → Option Bytes) where
  -- Open behind the addresses.
  unfoldable pub connect_with : List Bytes → Config → Adapter → Option Bytes × Adapter
  connect_with addr c a =
      let opts = options addr c in
      let (conn, e) = connect opts in
      let a' : Adapter = record a {
        conn = conn;
        db_name = if is_empty c.database then default_database else c.database;
        max_results = if is_positive a.max_results then a.max_results else pos default_max_results;
      } in
      elim e [ some x ↦ (some x, a') | none ↦ (ping opts, record a' { version = negsuc 0 }) ]

  unfoldable pub open_config : Config → Adapter → Option Bytes × Adapter
  open_config c a = elim (read_addresses adapter_name default_host c.addresses) [
    | wrong e ↦ (some e, a)
    | address h ↦ connect_with (h ∷ []) c a
    | addresses hs ↦ connect_with hs c a
  ]

  unfoldable pub open_adapter : (Bytes → Parsed) → Bytes → Adapter → Option Bytes × Adapter
  open_adapter unmarshal json_config a =
      if a.conn
      then (some (codes "adapter clickhouse is already connected"), a)
      else if ltb (length json_config) 2
      then (some (codes "adapter clickhousedb missing config"), a)
      else elim (unmarshal json_config) [
        | invalid e ↦ (some (codes "adapter clickhouse failed to parse config: " ++ e), a)
        | config c ↦ open_config c a
      ]

-- `error` is what Close of the connection returns.
unfoldable pub close_adapter : Option Bytes → Adapter → Option Bytes × Adapter
close_adapter error a =
    if a.conn then (error, record a { conn = false; version = negsuc 0 }) else (none, a)

unfoldable pub is_missing_table : Failure → Bool
is_missing_table e = contains e.text (codes "Table")

unfoldable pub is_missing_db : Adapter → Failure → Bool
is_missing_db a e = contains e.text (codes " Database " ++ (a.db_name ++ codes " does not exist"))

-- The rows of the query for the version hold a text; `atoi` is strconv.Atoi with the value that it
-- returns on an error.
unfoldable pub get_db_version : (Bytes → ℤ) → Queried Bytes → Adapter → (ℤ × Option Bytes) × Adapter
get_db_version atoi result a =
    if is_positive a.version then ((a.version, none), a) else elim result [
      | query_error e ↦ (
        (
          negsuc 0,
          some (
              if is_missing_db a e || is_missing_table e || e.no_rows
              then not_initialized
              else e.text),
        ),
        a,
      )
      | queried r ↦ elim r.rows [
        | [] ↦ ((negsuc 0, some not_initialized), a)
        | row ∷ rows ↦ elim row [
          | scan_error e ↦ ((negsuc 0, some (codes "get subscription failed: " ++ e)), a)
          | scanned s ↦ ((atoi s, none), record a { version = atoi s })
        ]
      ]
    ]

-- CheckDbVersion
unfoldable pub check_db_version : (Bytes → ℤ) → Queried Bytes → Adapter → Option Bytes × Adapter
check_db_version atoi result a =
    let ((v, e), a') = get_db_version atoi result a in (check_version v e, a')

-- GetSubscription: the answer to the query by id; `none` is the nil item.
unfoldable pub get_subscription :
    Queried SubscriptionWithHostname → Answer (Option SubscriptionWithHostname)
get_subscription (query_error e) = failure (codes "get subscription failed: " ++ e.text)
get_subscription (queried r) = elim r.rows [
  | [] ↦ answer none
  | row ∷ rows ↦ elim row [
    | scan_error e ↦ failure (codes "get subscription failed: " ++ e)
    | scanned item ↦ answer (some item)
  ]
]

-- The statements of CreateDb, named by what they do.
pub data Statement : Type 0 where
  drop_database : Bytes → Statement
  create_database : Bytes → Statement
  use_database : Bytes → Statement
  create_table : Bytes → Statement
  create_view : Bytes → Statement
  insert_version : Bytes → ℕ → Statement

-- The statements in order. The tables are made in the database in use, but the version is put into the
-- database `rum`.
unfoldable pub statements : Bool → Adapter → List Statement
statements reset a =
    (if reset then drop_database a.db_name ∷ [] else [])
    ++ create_database a.db_name
      ∷ use_database a.db_name
      ∷ create_table (codes "kvmeta")
      ∷ create_table (a.prefix ++ codes "webperf_rum_hostnames")
      ∷ create_table (codes "latency")
      ∷ create_table (a.prefix ++ codes "webperf_rum_own_hostnames")
      ∷ create_table (a.prefix ++ codes "webperf_rum_grant_hostnames")
      ∷ create_view (a.prefix ++ codes "webperf_rum_view_hostnames")
      ∷ insert_version (codes "rum.kvmeta") adp_version
      ∷ []

-- The statements are run up to the first that fails; the latest stands first in the list of those run.
unfoldable pub run_statements :
    (List Statement → Option Bytes)
    → List Statement
    → List Statement
    → Option Bytes × List Statement
run_statements answers [] done = (none, done)
run_statements answers (s ∷ rest) done =
    let more = run_statements answers rest (s ∷ done) in
    elim (answers (s ∷ done)) [ some e ↦ (some e, s ∷ done) | none ↦ more ]

-- CreateDb
unfoldable pub create_db :
    (List Statement → Option Bytes) → Bool → Adapter → Option Bytes × List Statement
create_db answers reset a = run_statements answers (statements reset a) []

-- The table that the queries and the inserts of owner hostnames name.
unfoldable pub owner_table : Adapter → Bytes
owner_table a = codes "rum." ++ (a.prefix ++ base_owner_hosts_table_name)

-- GetEvents; an event is a row as Scan reads it.
unfoldable pub get_events : {A : Type 0} → Queried A → List A × Option Bytes
get_events (query_error e) = ([], some (codes "get subscription failed: " ++ e.text))
get_events (queried r) = collect_events r.rows r.error
