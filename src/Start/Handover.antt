-- ===== src/Start/Handover.antt =====
-- What main hands over to the goroutines that it starts.
use front_basicrum_go.Base.{Bytes, List, [], Bool, true, Option, none, ◌≡◌, sym, arith}
use mathlib.Core.Path.{subst}
use front_basicrum_go.Base.Assoc.{lookup}
use front_basicrum_go.Base.Outcome.{returns}
use front_basicrum_go.Types.{SubscriptionWithHostname}
use front_basicrum_go.Backup.Compression.{new_compression_writer_factory}
use front_basicrum_go.Backup.Disk.{Root}
use front_basicrum_go.Backup.Service.{made, new_backup}
use front_basicrum_go.Service.Subscriptions.{Answer, answer, Cache, Query, caching, load}
use front_basicrum_go.Service.Subscriptions.Laws.{IsCoherent}
use front_basicrum_go.Service.Process.{new}
use front_basicrum_go.Service.Hosts.{IsValid, new-IsValid}
use front_basicrum_go.Server.Factory.{servers, error, build}
use front_basicrum_go.Server.Factory as Factory
use front_basicrum_go.Dao.Rows.{found, get_subscriptions, answer_of, all_with_id, HasDistinctIds}
use front_basicrum_go.Dao.Clickhouse.{get_subscription}
use front_basicrum_go.Dao.Clickhouse.Reading.{load-IsCoherent, load-lookup}
use front_basicrum_go.Store.{Store}
use front_basicrum_go.Store as Stores
use front_basicrum_go.Start.{
  Flags, Config, goes_on, prepare_database, make_subscription_service, load_subscriptions, Started,
  make_backup, with_servers, with_subscriptions, with_backup, build_parts, with_database, start,
}

module _ {W : Type 0} (parse : Bytes → Stores.Parsed) (regexes : Option Bytes)
    (mkdir_fails : Bytes → Bool) (on_disk : Bytes → Root) (join : Bytes → Bytes → Bytes)
    (all_subscriptions : Store W → Answer Cache) (parse_servers : Bytes → Factory.Parsed)
    (env : Bytes → Bytes) (flags : Flags) (c : Config) (s : Store W) (r : Started W) where
  -- A start-up that goes on had the database, the regular expressions, the directories of the backup, the
  -- subscriptions and the servers with no error, and hands over just these, with a service that has seen
  -- no event.
  pub start-parts :
      start parse regexes mkdir_fails on_disk join all_subscriptions parse_servers env flags c s
        ≡ returns (goes_on r)
      → (prepare_database parse flags c.store s ≡ returns (goes_on r.store))
        × (regexes ≡ none)
        × (new_backup mkdir_fails on_disk join c.backup.enabled c.backup.directory (
              new_compression_writer_factory c.backup.enabled c.backup.compression_type
                c.backup.compression_level)
            ≡ made r.backup)
        × (load_subscriptions
              (all_subscriptions r.store)
              (make_subscription_service c.subscription_enabled)
            ≡ (none, r.service.subscriptions))
        × (r.service ≡ new r.service.subscriptions)
        × (build parse_servers env c.server ≡ servers r.servers)
  unfolding start with_database build_parts make_backup with_backup with_subscriptions with_servers
      new
  start-parts h =
      (ground arith, ground arith, ground arith, ground arith, ground arith, ground arith)

  -- Where subscriptions are enabled and ClickHouse answers Load and every later query by id from one
  -- table with distinct ids, a start-up that goes on hands over a service whose table of hosts is valid
  -- and whose cache has for every id just what the database answers, and so is coherent with it.
  pub start-IsCoherent :
      (table : List SubscriptionWithHostname) (query : Query)
      → HasDistinctIds table
      → ((id : Bytes) → query id ≡ get_subscription (found (all_with_id id table)))
      → all_subscriptions r.store ≡ answer_of (get_subscriptions (found table))
      → c.subscription_enabled ≡ true
      → start parse regexes mkdir_fails on_disk join all_subscriptions parse_servers env flags c s
        ≡ returns (goes_on r)
      → (cache : Cache) × (r.service.subscriptions ≡ caching cache)
        × ((id : Bytes) → query id ≡ answer (lookup id cache))
        × IsCoherent query cache
        × IsValid r.service
  unfolding load_subscriptions make_subscription_service
  start-IsCoherent table query d q a enabled h =
      let (_, _, _, loaded, fresh, _) = start-parts h in
      let (_, coherent) = load-IsCoherent table query [] d q in
      let complete = load-lookup table query [] d q in
      (
        (load (answer_of (get_subscriptions (found table))) []).1,
        ground (arith, loaded, a),
        complete,
        coherent,
        subst IsValid (sym fresh) (new-IsValid r.service.subscriptions),
      )
