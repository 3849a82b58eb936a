-- ===== src/Dao/Mysql.antt =====
-- dao/mysql/mysql.go: the adapter and opening it. `config` is json.Unmarshal on top of ms.NewConfig,
-- with the DSN that FormatDSN makes of it.
pub mod Writing
pub mod Transactions
pub mod Reading
pub mod Contract
use front_basicrum_go.Base.{
  ℕ, Bytes, List, [], ◌∷◌, ◌++◌, Bool, true, false, ◌||◌, ◌==◌, not, Option, none, some, codes,
  is_empty, contains, length, ltb, eqb, has_prefix, drop, if◌then◌else◌,
}
use front_basicrum_go.Base.Decimal.{ℤ, pos, negsuc, is_positive, mul_int64, itoa}
use front_basicrum_go.Types.{SubscriptionWithHostname}
use front_basicrum_go.Service.Subscriptions.{Answer, answer, failure, Cache}
use front_basicrum_go.Dao.{
  Failure, adp_version, default_max_results, default_database, not_initialized, check_version,
}
use front_basicrum_go.Dao.Rows.{Rows, Queried, queried, query_error, collect_events}

-- `dsn_of_config` is what FormatDSN makes of the MySQL fields, of which `db_name` is one.
pub record Config : Type 0 where
  pub dsn_of_config : Bytes
  pub db_name : Bytes
  pub dsn : Bytes
  pub max_open_conns : ℤ
  pub max_idle_conns : ℤ
  pub conn_max_lifetime : ℤ
  pub sql_timeout : ℤ

pub data Parsed : Type 0 where
  config : Config → Parsed
  invalid : Bytes → Parsed

pub record Adapter : Type 0 where
  pub db : Bool
  pub dsn : Bytes
  pub db_name : Bytes
  pub max_results : ℤ
  pub version : ℤ
  pub sql_timeout : ℤ
  pub tx_timeout : ℤ
  pub prefix : Bytes

abbrev pub default_dsn : Bytes
default_dsn = codes "root:@tcp(localhost:3306)/rum?parseTime=true"

unfoldable pub is_missing_table : Option Failure → Bool
is_missing_table none = false
is_missing_table (some e) = elim e.number [ none ↦ false | some n ↦ n == 1146 ]

unfoldable pub is_missing_db : Option Failure → Bool
is_missing_db none = false
is_missing_db (some e) = elim e.number [ none ↦ false | some n ↦ n == 1049 ]

-- `strings.TrimPrefix`
unfoldable pub trim_prefix : Bytes → Bytes → Bytes
trim_prefix p s = if has_prefix p s then drop (length p) s else s

-- The adapter once its data source is known, or the text of an error; `a` is the adapter as it is left.
pub record Source : Type 0 where
  pub adapter : Adapter
  pub error : Option Bytes

-- The source that Open takes: the fields of the configuration, unless they are the defaults, and then
-- the DSN. `parse_path` is url.Parse followed by Path, or its error.
module _ (default_cfg : Bytes) (parse_path : Bytes → Option Bytes) (parse_error : Bytes) where
  from_dsn : Bytes → Adapter → Source
  from_dsn dsn a = elim (parse_path (codes "mysql://" ++ dsn)) [
    | none ↦ record { adapter = record a { dsn = dsn }; error = some parse_error }
    | some path ↦ record {
      adapter = record a { dsn = dsn; db_name = trim_prefix (codes "/") path };
      error = none;
    }
  ]

  unfoldable pub choose_source : Config → Adapter → Source
  unfolding from_dsn
  choose_source c a =
      if not (eqb c.dsn_of_config default_cfg)
      then record {
        adapter = record a { db_name = c.db_name; dsn = c.dsn_of_config };
        error =
            if is_empty c.dsn
            then none
            else some (codes "mysql config: conflicting config and DSN are provided");
      }
      else if is_empty c.dsn
      then from_dsn default_dsn a
      else from_dsn (trim_prefix (codes "mysql://") c.dsn) a

-- The pool settings that are passed to the driver; `none` is left alone.
pub record Pool : Type 0 where
  pub max_open_conns : Option ℤ
  pub max_idle_conns : Option ℤ
  pub conn_max_lifetime : Option ℤ

abbrev positive : ℤ → Option ℤ
positive n = if is_positive n then some n else none

-- `one_and_half` is the conversion of float64(n) * 1.5 to an int64.
module _ (one_and_half : ℤ → ℤ) where
  -- The last part of Open, where the connection answered.
  unfoldable pub settings : Config → Adapter → Adapter × Pool
  settings c a = (
    if is_positive c.sql_timeout
        then record a {
          sql_timeout = mul_int64 c.sql_timeout (pos 1000000000);
          tx_timeout = mul_int64 (one_and_half c.sql_timeout) (pos 1000000000);
        }
        else a,
    record {
      max_open_conns = positive c.max_open_conns;
      max_idle_conns = positive c.max_idle_conns;
      conn_max_lifetime =
          if is_positive c.conn_max_lifetime
          then some (mul_int64 c.conn_max_lifetime (pos 1000000000))
          else none;
    },
  )

  -- Open behind the source: `connect` is the error of sqlx.Open, whose connection is then nil, and
  -- `ping` that of Ping.
  unfoldable pub connect_with :
      (Bytes → Option Bytes) → (Bytes → Option Failure) → Config → Adapter → Option Bytes × Adapter
  connect_with connect ping c a =
      let a' : Adapter = record a {
        db_name = if is_empty a.db_name then default_database else a.db_name;
        max_results = if is_positive a.max_results then a.max_results else pos default_max_results;
      } in
      elim (connect a.dsn) [
        | some e ↦ (some e, record a' { db = false })
        | none ↦ elim (ping a.dsn) [
          | none ↦ (none, (settings c (record a' { db = true })).0)
          | some e ↦
              if is_missing_db (some e)
              then (none, (settings c (record a' { db = true })).0)
              else (some e.text, record a' { db = true })
        ]
      ]

-- Open; the arguments are those of choose_source and connect_with.
module _ (default_cfg : Bytes) (parse_path : Bytes → Option Bytes) (parse_error : Bytes)
    (one_and_half : ℤ → ℤ) (connect : Bytes → Option Bytes) (ping : Bytes → Option Failure) where
  unfoldable pub open_adapter : (Bytes → Parsed) → Bytes → Adapter → Option Bytes × Adapter
  open_adapter unmarshal json_config a =
      if a.db
      then (some (codes "mysql adapter is already connected"), a)
      else if ltb (length json_config) 2
      then (some (codes "adapter mysql missing config"), a)
      else elim (unmarshal json_config) [
        | invalid e ↦ (some (codes "mysql adapter failed to parse config: " ++ e), a)
        | config c ↦
            let source = choose_source default_cfg parse_path parse_error c a in
            elim source.error [
              | some e ↦ (some e, source.adapter)
              | none ↦ connect_with one_and_half connect ping c source.adapter
            ]
      ]

-- Close, where the error of the connection is `error`.
unfoldable pub close_adapter : Option Bytes → Adapter → Option Bytes × Adapter
close_adapter error a =
    if a.db then (error, record a { db = false; version = negsuc 0 }) else (none, a)

-- GetDbVersion: the answer to the query for the version is the number or an error.
pub data Version : Type 0 where
  version : ℤ → Version
  no_version : Failure → Version

unfoldable pub get_db_version : Version → Adapter → (ℤ × Option Bytes) × Adapter
get_db_version result a = if is_positive a.version then ((a.version, none), a) else elim result [
  | version v ↦ ((v, none), record a { version = v })
  | no_version e ↦ (
    (
      negsuc 0,
      some (
          if is_missing_db (some e) || is_missing_table (some e) || e.no_rows
          then not_initialized
          else e.text),
    ),
    a,
  )
]

-- CheckDbVersion
unfoldable pub check_db_version : Version → Adapter → Option Bytes × Adapter
check_db_version result a = let ((v, e), a') = get_db_version result a in (check_version v e, a')

-- The error of database/sql for a Scan before the first Next.
abbrev pub scan_before_next : Bytes
scan_before_next = codes "sql: Scan called without calling Next"

-- GetSubscription scans the rows and never calls Next.
unfoldable pub get_subscription :
    Queried SubscriptionWithHostname → Answer (Option SubscriptionWithHostname)
get_subscription (query_error e) = failure (codes "get subscription failed: " ++ e.text)
get_subscription (queried r) = failure (codes "get subscription failed: " ++ scan_before_next)

-- GetEvents; an event is a row as Scan reads it.
unfoldable pub get_events : {A : Type 0} → Queried A → List A × Option Bytes
get_events (query_error e) = ([], some e.text)
get_events (queried r) = collect_events r.rows r.error
