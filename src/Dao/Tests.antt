-- ===== src/Dao/Tests.antt =====
-- The adapters on concrete tables and answers.
use front_basicrum_go.Base.{
  Bytes, List, [], ◌∷◌, Bool, true, false, ◌&&◌, ◌⊎◌, Option, none, some, ◌≡◌, ◌≢◌, refl, arith,
  codes, eqb, eqb_iff, if◌then◌else◌,
}
use front_basicrum_go.Base.Assoc.{lookup}
use front_basicrum_go.Base.Outcome.{Outcome, returns}
use front_basicrum_go.Base.Decimal.{pos}
use front_basicrum_go.Types.{Event, HostnameEvent, OwnerHostname, SubscriptionWithHostname}
use front_basicrum_go.Beacon.Convert.{RumEvent}
use front_basicrum_go.Service.Subscriptions.{answer, failure, Cache, caching}
use front_basicrum_go.Service.Process.{new, process_event}
use front_basicrum_go.Dao.Rows.{found, all_with_id, with_id, HasDistinctIds, get_subscriptions}
use front_basicrum_go.Dao.Addresses.{missing}
use front_basicrum_go.Dao.Clickhouse as Clickhouse
use front_basicrum_go.Dao.Clickhouse.Reading.{get_subscription-get_subscriptions}
use front_basicrum_go.Dao.Mysql as Mysql
use front_basicrum_go.Dao.Mysql.Writing as Writing
use front_basicrum_go.Dao.Mysql.Reading.{query, process_event-dropped}
use front_basicrum_go.Dao.Mysql.Transactions.{
  is_none, is_open, IsClosed, fails_shadowed, writes-IsClosed, create_db-is_open,
}
use front_basicrum_go.Dao.Migration.{Entry, Error, Files, no_faults}
use front_basicrum_go.Dao.Migration.Copying.{rendered}
use front_basicrum_go.Dao.Migration.Locking as Locking
use front_basicrum_go.Dao.Migration.Locking.{
  is_locked, is_applied, migrate-is_locked, migrate-rendered,
}
use front_basicrum_go.Dao.Migration.Running.{Call, migrate_all, migrate_up, migrate}
use front_basicrum_go.Dao.Rethinkdb as Rethinkdb
use front_basicrum_go.Dao.Rethinkdb.Sharing.{has_id, last_row, get_subscriptions-last_row}
use front_basicrum_go.Dao.Redis as Redis
use front_basicrum_go.Dao.Redis.Keys.{IsRedis, inserting, write_all, get_subscription-none}
use front_basicrum_go.Dao.Redis.Options as Options
use front_basicrum_go.Dao.Redis.Options.{make_options_lem}

abbrev item : Bytes → SubscriptionWithHostname
item id = record { subscription = record { id = id; expires_at = 9 }; hostname = codes "shop" }

abbrev table : List SubscriptionWithHostname
table = item (codes "a") ∷ item (codes "b") ∷ []

table-HasDistinctIds : HasDistinctIds table
unfolding with_id eqb codes
table-HasDistinctIds = (refl, (refl, tt))

get_subscription-get_subscriptions_example :
    Clickhouse.get_subscription (found (all_with_id (codes "b") table))
    ≡ answer (lookup (codes "b") (get_subscriptions (found table)).0)
get_subscription-get_subscriptions_example =
    get_subscription-get_subscriptions table (codes "b") table-HasDistinctIds

abbrev clickhouse : Clickhouse.Adapter
clickhouse = record {
  conn = true;
  db_name = codes "rum";
  max_results = pos 1;
  version = pos 1;
  prefix = codes "x_";
}

abbrev all_done : List Clickhouse.Statement
all_done = (Clickhouse.create_db (λ done. none) true clickhouse).1

abbrev mysql : Mysql.Adapter
mysql = record {
  db = true;
  dsn = codes "root@/rum";
  db_name = codes "rum";
  max_results = pos 1;
  version = pos 1;
  sql_timeout = pos 0;
  tx_timeout = pos 0;
  prefix = [];
}

-- The second call of a transaction fails.
abbrev answers : Writing.Answers
answers (Writing.exec q args ∷ calls) = some (codes "gone")
answers calls = none

writes-IsClosed_example :
    ((event : RumEvent) → IsClosed answers (Writing.save answers mysql event []))
    × ((event : HostnameEvent) → IsClosed answers (Writing.save_host answers mysql event []))
    × ((owner : OwnerHostname)
        → IsClosed answers (Writing.insert_owner_hostname answers mysql owner []))
    × ((hostname username : Bytes)
        → IsClosed answers (Writing.delete_owner_hostname answers mysql hostname username []))
unfolding is_open
writes-IsClosed_example = writes-IsClosed answers mysql [] refl

abbrev without_db : Bytes → Bytes
without_db dsn = codes "root@/"

create_db-is_open_example :
    let opened = Writing.open_db (without_db mysql.dsn) ∷ Writing.close_db ∷ [] in
    is_open answers (Writing.create_db answers without_db false mysql []).0.1 ≡ (
      is_none (answers opened)
      && is_none (answers (Writing.begin_tx ∷ opened))
      && fails_shadowed answers (Writing.statements false mysql) (Writing.begin_tx ∷ opened))
unfolding is_open
create_db-is_open_example = create_db-is_open answers without_db false mysql [] refl

abbrev rum : RumEvent
rum = record {
  created_at = codes "noon";
  hostname = codes "shop";
  subscription_id = codes "a";
  country = [];
  geo_city_name = [];
  device_type = [];
  latency = [];
  status_code = [];
  up = [];
  cdir = [];
  ans = [];
}

abbrev make : Event → Outcome RumEvent
make e = returns rum

abbrev visit : Event
visit = record { request_parameters = []; headers = []; user_agent = []; remote_addr = [] }

abbrev empty : Cache
empty = []

process_event-dropped_example :
    process_event make
      (query make (λ id. found (all_with_id id table)) 5)
      5
      (some visit)
      (new (caching empty))
    ≡ returns (new (caching empty))
unfolding new lookup
process_event-dropped_example =
    process_event-dropped make (λ id. found (all_with_id id table)) 5 visit rum empty
      (new (caching empty)) refl refl refl

get_subscriptions-last_row_example :
    (m : Cache) × (Rethinkdb.get_subscriptions (Rethinkdb.many table none) ≡ answer m)
    × ((id : Bytes)
        → lookup id m
          ≡ (if has_id id table then some (last_row table Rethinkdb.zero_item) else none))
get_subscriptions-last_row_example = get_subscriptions-last_row table

-- A Redis that knows its keys only.
unfoldable holds : Bytes → List Bytes → Bool
holds k [] = false
holds k (j ∷ w) = if eqb j k then true else holds k w

unfoldable remove : Bytes → List Bytes → List Bytes
remove k [] = []
remove k (j ∷ w) = let rest = remove k w in if eqb j k then rest else j ∷ rest

holds-remove :
    (key : Bytes) (w : List Bytes) (k : Bytes) → holds k w ≡ false → holds k (remove key w) ≡ false
unfolding holds remove
holds-remove key [] k h = refl
holds-remove key (j ∷ w) k h = ground (arith, holds-remove key w k)

abbrev keys_only : Redis.Client (List Bytes)
keys_only = record {
  hset = λ key fields w. (none, key ∷ w);
  del = λ key w. (none, remove key w);
  incr = λ key w. key ∷ w;
  get_int64 = λ key w. pos 7;
  scan = λ pattern w. (if holds pattern w then pattern ∷ [] else [], none);
  hget_all = λ key w. ([], none);
  hscan = λ key w. ([], none);
  flush_db = λ w. [];
}

holds-cons :
    (key : Bytes) (w : List Bytes) (k : Bytes)
    → k ≢ key
    → holds k w ≡ false
    → holds k (key ∷ w) ≡ false
unfolding holds
holds-cons key w k n h = ground (arith, eqb_iff key k)

keys_only-IsRedis : IsRedis keys_only holds
keys_only-IsRedis = record {
  hset_keys = λ key fields w k. holds-cons key w k;
  del_keys = λ key w k. holds-remove key w k;
  incr_keys = λ key w k. holds-cons key w k;
  scan_keys = λ w h. ground arith;
}

abbrev redis : Redis.Adapter
redis = record { conn = true; max_results = pos 1; version = pos 1; prefix = [] }

abbrev owner : OwnerHostname
owner = record {
  username = codes "me";
  hostname = codes "shop";
  subscription = record { id = codes "a"; expires_at = 9 };
}

abbrev kept : List Bytes
kept = write_all keys_only (λ t. []) redis (inserting owner ∷ []) []

get_subscription-none_example :
    ((e : Bytes) × (Redis.get_subscription keys_only (λ t. 9) redis (codes "a") kept ≡ failure e))
    ⊎ (Redis.get_subscription keys_only (λ t. 9) redis (codes "a") kept ≡ answer none)
unfolding holds
get_subscription-none_example =
    get_subscription-none keys_only (λ t. []) redis holds keys_only-IsRedis refl
      (inserting owner ∷ []) [] (λ t. 9) (codes "a") refl

abbrev plain_config : Options.Config
plain_config = record {
  uri = [];
  network = [];
  addresses = missing;
  client_name = [];
  protocol = pos 3;
  username = [];
  password = [];
  db = pos 4;
  max_retries = pos 0;
  min_retry_backoff = pos 0;
  max_retry_backoff = pos 0;
  dial_timeout = pos 1;
  read_timeout = pos 0;
  write_timeout = pos 0;
  context_timeout_enabled = false;
  pool_fifo = false;
  pool_size = pos 0;
  pool_timeout = pos 0;
  min_idle_conns = pos 0;
  max_idle_conns = pos 0;
  max_active_conns = pos 0;
  conn_max_idle_time = pos 0;
  conn_max_lifetime = pos 0;
  disable_indentity = false;
  connect_cluster = false;
  use_tls = false;
  tls_cert_file = [];
  tls_private_key = [];
  insecure_skip_verify = false;
}

abbrev no_pair : Bytes → Bytes → Option Bytes
no_pair cert_file private_key = none

abbrev no_url : Bool → Bytes → Options.Made Options.UrlOptions
no_url cluster uri = Options.failed (codes "no URL")

abbrev local_options : Options.UniversalOptions
local_options = Options.options_of (codes "localhost:6379" ∷ []) none plain_config

abbrev template : List Bytes
template = codes "DROP TABLE " ∷ codes "hostnames" ∷ []

abbrev drop_file : Entry
drop_file = record {
  path = codes "1.down.sql";
  error = none;
  is_dir = false;
  is_regular = true;
  content = codes "DROP TABLE {prefix}hostnames";
}

-- The migration itself fails.
abbrev migration_fails : List Call → Option Bytes
migration_fails (migrate_all ∷ calls) = some (codes "no table")
migration_fails calls = none

migrate-is_locked_example :
    (e : Option Error) × (calls : List Call) × (migrate migration_fails none no_faults
        (codes "x_")
        (drop_file ∷ [])
      ≡ some (e, calls))
    × (is_locked migration_fails calls ≡ false)
    × (Locking.is_none e ≡ is_applied migration_fails calls)
migrate-is_locked_example =
    migrate-is_locked migration_fails none no_faults (codes "x_") (drop_file ∷ [])

migrate-rendered_example :
    (files : Files) × (migrate migration_fails none no_faults (codes "x_") (drop_file ∷ [])
      ≡ some (migrate_up migration_fails (codes "x_") files []))
    × ((path : Bytes) → lookup path files ≡ rendered (codes "x_") path (drop_file ∷ []) none)
migrate-rendered_example =
    migrate-rendered migration_fails (codes "x_") (drop_file ∷ []) (refl, refl, tt)
