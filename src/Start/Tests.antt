-- ===== src/Start/Tests.antt =====
-- The start-up with one adapter, on a database that is ready or not initialized.
use front_basicrum_go.Base.{
  Bytes, List, [], ◌∷◌, Bool, true, false, Option, none, some, ◌≡◌, refl, codes, eqb, if◌then◌else◌,
}
use front_basicrum_go.Base.Assoc.{lookup}
use front_basicrum_go.Base.Outcome.{returns}
use front_basicrum_go.Base.Decimal.{
  itoa_int, itoa, lt_int, is_positive, parse_digits, parse_uint, pos, negsuc, atoi,
}
use front_basicrum_go.Types.{SubscriptionWithHostname}
use front_basicrum_go.Backup.Compression.{new_compression_writer_factory}
use front_basicrum_go.Backup.Disk.{Root}
use front_basicrum_go.Backup.Service.{null_backup, new_backup}
use front_basicrum_go.Service.Subscriptions.{Answer, answer, Cache, Query, caching, load}
use front_basicrum_go.Service.Subscriptions.Laws.{IsCoherent}
use front_basicrum_go.Service.Process.{new}
use front_basicrum_go.Service.Hosts.{IsValid}
use front_basicrum_go.Server.Factory as Factory
use front_basicrum_go.Dao.{max_results_of, check_version, not_initialized}
use front_basicrum_go.Dao.Rows.{
  found, get_subscriptions, answer_of, collect_rows, all_with_id, with_id, HasDistinctIds,
}
use front_basicrum_go.Dao.Clickhouse.{get_subscription}
use front_basicrum_go.Dao.Addresses.{missing, read_addresses}
use front_basicrum_go.Dao.Clickhouse as Clickhouse
use front_basicrum_go.Dao.Clickhouse.Contract as ClickhouseContract
use front_basicrum_go.Store.Contract.{IsAdapter, single-HasAdapters}
use front_basicrum_go.Start.Ready.{prepare_database-ready}
use front_basicrum_go.Start.Database.{handle_open_error-check_version}
use front_basicrum_go.Store.{
  adapter_config, Adapter, Parsed, config, Store, choose_adapter, valid_worker_id, open_chosen,
  open_adapter, is_open, open_store, get_adapter_version, get_db_version, upgrade_db,
}
use front_basicrum_go.Start.{
  Flags, default_flags, Config, exits, ignoring, handle_open_error, goes_on, prepare_database,
  make_subscription_service, load_subscriptions, Started, build_parts, start,
}
use front_basicrum_go.Start.Handover.{start-IsCoherent}

-- The state says whether the connection is open.
abbrev adapter_with : Option Bytes → Option Bytes → Adapter Bool
adapter_with check created = record {
  name = codes "clickhouse";
  version = pos 1;
  is_open = λ w. w;
  set_max_results = λ n w. (none, w);
  open_database = λ raw w. (none, true);
  close = λ w. (none, false);
  check_db_version = λ w. check;
  get_db_version = λ w. pos 2;
  create_db = λ reset w. (created, w);
  upgrade_db = λ w. (none, w);
}

abbrev closed : Adapter Bool → Store Bool
closed a = record { available = (a.name, a) ∷ []; adp = none; database = false }

abbrev opened : Adapter Bool → Store Bool
opened a = record (closed a) { adp = some a; database = true }

abbrev ready : Adapter Bool
ready = adapter_with none none

abbrev broken : Adapter Bool
broken = adapter_with (some not_initialized) (some (codes "disk full"))

abbrev parse : Bytes → Parsed
parse json =
    config (record { uid_key = []; max_results = pos 0; use_adapter = []; adapters = none })

ready_kept :
    prepare_database parse default_flags [] (closed ready) ≡ returns (goes_on (opened ready))
unfolding prepare_database open_store open_adapter choose_adapter open_chosen valid_worker_id
ready_kept = refl

abbrev upgrading : Flags
upgrading = record { reset = false; upgrade = true; no_init = true }

abbrev wrong_version : Bytes
wrong_version = codes "Invalid database version 2. Expected 1"

abbrev settings : Config
settings = record {
  store = [];
  backup = record {
    enabled = false;
    directory = [];
    interval_seconds = 5;
    compression_type = [];
    compression_level = [];
  };
  subscription_enabled = true;
  server = codes "{}";
}

abbrev table : List SubscriptionWithHostname
table =
    record { subscription = record { id = codes "a"; expires_at = 9 }; hostname = codes "shop" }
    ∷ []

abbrev all_subscriptions : Store Bool → Answer Cache
all_subscriptions s = answer_of (get_subscriptions (found table))

abbrev parse_servers : Bytes → Factory.Parsed
parse_servers json = Factory.config (record {
  port = [];
  ssl = false;
  ssl_type = [];
  ssl_file_cert_file = [];
  ssl_file_key_file = [];
  domain = [];
  token = [];
})

abbrev no_error : Option Bytes
no_error = none

abbrev never : Bytes → Bool
never d = false

abbrev no_files : Bytes → Root
no_files d = []

abbrev join : Bytes → Bytes → Bytes
join d e = d

abbrev env : Bytes → Bytes
env name = []

abbrev http : Factory.Server
http = Factory.new [] (Factory.with_http Factory.default_http_port ∷ [])

abbrev running : Started Bool
running = record {
  store = opened ready;
  backup = null_backup;
  service = new (caching (load (all_subscriptions (opened ready)) []).1);
  servers = http ∷ [];
}

started :
    start parse no_error never no_files join all_subscriptions parse_servers env default_flags
      settings
      (closed ready)
    ≡ returns (goes_on running)
unfolding start build_parts prepare_database open_store open_adapter choose_adapter open_chosen
    valid_worker_id load_subscriptions make_subscription_service load answer_of get_subscriptions
    collect_rows new_backup Factory.build Factory.build_config Factory.default_value codes
    new_compression_writer_factory
started = refl

abbrev query : Query
query id = get_subscription (found (all_with_id id table))

table-HasDistinctIds : HasDistinctIds table
unfolding with_id
table-HasDistinctIds = (refl, tt)

start-IsCoherent_example :
    (cache : Cache) × (running.service.subscriptions ≡ caching cache)
    × ((id : Bytes) → query id ≡ answer (lookup id cache))
    × IsCoherent query cache
    × IsValid running.service
start-IsCoherent_example =
    start-IsCoherent parse no_error never no_files join all_subscriptions parse_servers env
      default_flags settings (closed ready) running table query table-HasDistinctIds (λ id. refl)
      refl refl started

abbrev clickhouse_config : Clickhouse.Config
clickhouse_config = record {
  database = [];
  addresses = missing;
  username = [];
  password = [];
  timeout = pos 1;
  read_timeout = pos 1;
  keep_alive_period = pos 1;
  use_json_number = false;
  num_retries = pos 0;
  initial_cap = pos 0;
  max_open = pos 1;
  discover_hosts = false;
  host_decay_duration = pos 0;
  table_prefix = [];
}

abbrev clickhouse : Adapter ClickhouseContract.World
clickhouse =
    ClickhouseContract.store_adapter (λ json. Clickhouse.config clickhouse_config)
      (λ opts. (true, none)) (λ opts. none) none atoi (λ done. found (codes "1" ∷ []))
      (λ done. none)

store_adapter-IsAdapter_example : IsAdapter clickhouse
store_adapter-IsAdapter_example =
    ClickhouseContract.store_adapter-IsAdapter (λ json. Clickhouse.config clickhouse_config)
      (λ opts. (true, none)) (λ opts. none) none atoi (λ done. found (codes "1" ∷ []))
      (λ done. none) (λ opts e. refl)

abbrev disconnected : Clickhouse.Adapter
disconnected = record {
  conn = false;
  db_name = [];
  max_results = pos 0;
  version = pos 0;
  prefix = [];
}

abbrev one_store : Store ClickhouseContract.World
one_store = record {
  available = (clickhouse.name, clickhouse) ∷ [];
  adp = none;
  database = (disconnected, []);
}

abbrev parse_named : Bytes → Parsed
parse_named json = config (record {
  uid_key = [];
  max_results = pos 7;
  use_adapter = codes "clickhouse";
  adapters = some ((codes "clickhouse", codes "{}") ∷ []);
})

abbrev connected : Store ClickhouseContract.World
connected = record one_store {
  adp = some clickhouse;
  database = (
    record {
      conn = true;
      db_name = codes "rum";
      max_results = pos 7;
      version = negsuc 0;
      prefix = [];
    },
    [],
  );
}

connected_kept :
    prepare_database parse_named default_flags [] one_store ≡ returns (goes_on connected)
unfolding prepare_database open_store open_adapter choose_adapter open_chosen valid_worker_id
    adapter_config lookup codes eqb ClickhouseContract.store_adapter Clickhouse.open_adapter
    Clickhouse.open_config Clickhouse.connect_with read_addresses Clickhouse.check_db_version
    Clickhouse.get_db_version check_version max_results_of is_positive atoi parse_digits parse_uint
connected_kept = refl

prepare_database-ready_example :
    (is_open connected ≡ true) × (get_db_version connected ≡ get_adapter_version connected)
prepare_database-ready_example =
    prepare_database-ready parse_named [] one_store connected
      (single-HasAdapters clickhouse one_store
        (ClickhouseContract.store_adapter-IsAdapter (λ json. Clickhouse.config clickhouse_config)
          (λ opts. (true, none)) (λ opts. none) none atoi (λ done. found (codes "1" ∷ []))
          (λ done. none) (λ opts e. refl))
        refl refl)
      connected_kept

-- The database has version 2, and the adapter version 1.
handle_open_error-check_version_example :
    handle_open_error parse upgrading []
      (codes "Invalid database version 2. Expected 1")
      (opened ready)
    ≡ (if lt_int
          (get_adapter_version (opened ready))
          (if is_open (opened ready) then get_db_version (opened ready) else pos 0)
        then returns exits
        else ignoring parse (upgrade_db parse [] (opened ready)))
unfolding check_version codes itoa_int itoa
handle_open_error-check_version_example =
    handle_open_error-check_version parse [] upgrading (pos 2)
      (codes "Invalid database version 2. Expected 1") (opened ready) refl
