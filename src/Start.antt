-- ===== src/Start.antt =====
-- main.go: the start-up and the shutdown. The parts that main puts together are those of Store,
-- Backup.Service, Service and Server. Arguments stand for the parsers of the configuration, the file
-- system and the embedded regular expressions of the user agents.
pub mod Database
pub mod Handover
pub mod Ready
pub mod Running
mod Tests
use front_basicrum_go.Base.{
  ℕ, Bytes, List, [], ◌∷◌, ◌++◌, Bool, true, false, Option, none, some, codes, contains, has_prefix,
  if◌then◌else◌,
}
use front_basicrum_go.Base.Outcome.{Outcome, returns, panics, ◌>>=◌}
use front_basicrum_go.Base.Decimal.{ℤ, pos, lt_int}
use front_basicrum_go.Backup.Compression.{new_compression_writer_factory}
use front_basicrum_go.Backup.Disk.{Root}
use front_basicrum_go.Backup.Service.{Backup, Made, made, cannot_create, new_backup}
use front_basicrum_go.Service.Subscriptions.{Answer, Cache, Subscriptions, disabled, caching, load}
use front_basicrum_go.Service.Process.{Service, new}
use front_basicrum_go.Server.Factory.{Server, Built, servers, error, build}
use front_basicrum_go.Server.Factory as Factory
use front_basicrum_go.Store.{
  Store, is_open, open_store, get_adapter_version, get_db_version, init_db, upgrade_db,
}
use front_basicrum_go.Store as Stores

pub record Flags : Type 0 where
  pub reset : Bool
  pub upgrade : Bool
  pub no_init : Bool

-- The defaults of the flags.
abbrev pub default_flags : Flags
default_flags = record { reset = false; upgrade = false; no_init = true }

pub record BackupConfig : Type 0 where
  pub enabled : Bool
  pub directory : Bytes
  pub interval_seconds : ℕ
  pub compression_type : Bytes
  pub compression_level : Bytes

-- configType; `store` and `server` are raw texts.
pub record Config : Type 0 where
  pub store : Bytes
  pub backup : BackupConfig
  pub subscription_enabled : Bool
  pub server : Bytes

-- `exits` is os.Exit(1), which runs no deferred call.
pub data Phase (A : Type 0) : Type 0 where
  goes_on : A → Phase A
  exits : Phase A

module _ {W : Type 0} (parse : Bytes → Stores.Parsed) where
  -- A call of InitDb or UpgradeDb: its error is logged, and the start-up goes on.
  unfoldable pub ignoring : Outcome (Option Bytes × Store W) → Outcome (Phase (Store W))
  ignoring panics = panics
  ignoring (returns (e, s)) = returns (goes_on s)

  -- What main does with the error of store.Store.Open.
  unfoldable pub handle_open_error : Flags → Bytes → Bytes → Store W → Outcome (Phase (Store W))
  handle_open_error flags raw e s =
      let database_version = if is_open s then get_db_version s else pos 0 in
      if contains e (codes "Database not initialized")
      then (if flags.no_init then returns exits else ignoring (init_db parse raw true s))
      else if contains e (codes "Invalid database version")
      then (if flags.reset
          then ignoring (init_db parse raw true s)
          else if flags.upgrade
          then (if lt_int (get_adapter_version s) database_version
              then returns exits
              else ignoring (upgrade_db parse raw s))
          else returns exits)
      else returns exits

  handle_opened : Flags → Bytes → Option Bytes × Store W → Outcome (Phase (Store W))
  handle_opened flags raw (some e, s) = handle_open_error flags raw e s
  handle_opened flags raw (none, s) =
      if flags.reset then ignoring (init_db parse raw true s) else returns (goes_on s)

  -- From the opening of the store to the database that the program works on.
  unfoldable pub prepare_database : Flags → Bytes → Store W → Outcome (Phase (Store W))
  unfolding handle_opened
  prepare_database flags raw s = do
    opened ← open_store parse (pos 1) raw s
    handle_opened flags raw opened

-- makeSubscriptionService
unfoldable pub make_subscription_service : Bool → Subscriptions
make_subscription_service enabled = if enabled then caching [] else disabled

-- Load of either service.
unfoldable pub load_subscriptions : Answer Cache → Subscriptions → Option Bytes × Subscriptions
load_subscriptions a disabled = (none, disabled)
load_subscriptions a (caching cache) = let (e, cache') = load a cache in (e, caching cache')

-- What runs once main has started it.
pub record Started (W : Type 0) : Type 0 where
  pub store : Store W
  pub backup : Backup
  pub service : Service
  pub servers : List Server

-- `regexes` is the error of uaparser.NewFromBytes, `get_subscriptions` what the database answers to Load.
module _ {W : Type 0} (parse : Bytes → Stores.Parsed) (regexes : Option Bytes)
    (mkdir_fails : Bytes → Bool) (on_disk : Bytes → Root) (join : Bytes → Bytes → Bytes)
    (get_subscriptions : Store W → Answer Cache) (parse_servers : Bytes → Factory.Parsed)
    (env : Bytes → Bytes) where
  make_backup : Config → Made Backup
  make_backup c = new_backup mkdir_fails on_disk join c.backup.enabled c.backup.directory (
      new_compression_writer_factory c.backup.enabled c.backup.compression_type
        c.backup.compression_level)

  with_servers : Store W → Backup → Subscriptions → Built → Phase (Started W)
  with_servers s b subs (error e) = exits
  with_servers s b subs (servers list) =
      goes_on (record { store = s; backup = b; service = new subs; servers = list })

  with_subscriptions : Config → Store W → Backup → Option Bytes × Subscriptions → Phase (Started W)
  with_subscriptions c s b (some e, subs) = exits
  with_subscriptions c s b (none, subs) = with_servers s b subs (build parse_servers env c.server)

  with_backup : Config → Store W → Made Backup → Phase (Started W)
  with_backup c s (cannot_create directory) = exits
  with_backup c s (made b) =
      with_subscriptions c s b (
        load_subscriptions (get_subscriptions s) (make_subscription_service c.subscription_enabled))

  -- The parts that main builds on the database.
  unfoldable pub build_parts : Config → Store W → Phase (Started W)
  unfolding make_backup with_servers with_subscriptions with_backup
  build_parts c s = elim regexes [ some e ↦ exits | none ↦ with_backup c s (make_backup c) ]

  with_database : Config → Phase (Store W) → Phase (Started W)
  with_database c exits = exits
  with_database c (goes_on s) = build_parts c s

  -- main, from the configuration to the running parts.
  unfoldable pub start : Flags → Config → Store W → Outcome (Phase (Started W))
  unfolding with_database
  start flags c s = do
    prepared ← prepare_database parse flags c.store s
    returns (with_database c prepared)

-- Wait of the errgroup of stopServers, with the results of its goroutines as they come in.
unfoldable pub stop_servers : List (Option Bytes) → Option Bytes
stop_servers [] = none
stop_servers (none ∷ results) = stop_servers results
stop_servers (some e ∷ results) = some e

-- toAbsolutePath; `clean_join` is filepath.Clean of filepath.Join.
unfoldable pub to_absolute_path : (Bytes → Bytes → Bytes) → Bytes → Bytes → Bytes
to_absolute_path clean_join base path =
    if has_prefix (codes "/") path then path else clean_join base path
