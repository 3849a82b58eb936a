-- ===== src/Lib.antt =====
-- Front Basic RUM: a server that takes beacons of web pages by HTTP, turns them into rum events, stores
-- them in a database, and keeps a log of the requests on disk.
--
-- How the parts work together. A handler of server/handlers.go makes an event of a POST and gives it to
-- the service (service/service.go) and to the backup (backup). The service runs alone in its goroutine:
-- it takes events from a channel, converts each with beacon/beacon.go and geoip, asks the subscription
-- service where the event belongs, and saves it in the database or in one of the backups; a timer writes
-- the hosts that were seen. The backup groups its events by host, appends them to hour files, and
-- archives a day into one file with a table of its hours.
--
-- Which file models what.
--   Base        shared helpers: texts as lists of bytes, maps as association lists, strconv, the
--               calendar of package time, and Outcome, a call that returns or panics
--   Values      url.Values of net/url: Get, Has, Set, Add
--   Types       types/event.go, types/owner_hostname.go, beacon/hostname_event.go
--   Geoip       geoip/composite.go (composite) and geoip/maxmind/maxmind.go (maxmind);
--               Geoip.Cloudflare is geoip/cloudflare/cloudflare.go
--   Beacon      beacon/beacon.go: Beacon and FromEvent (from_event); Beacon.Convert has
--               ConvertToRumEvent and RumEventFactory.Create, Beacon.Fields calculateDelta,
--               getDeviceType, getScreenSize and getEventType; Beacon.Decompress and Beacon.Number are
--               beacon/decompress.go; Beacon.Laws is about what a rum event holds
--   Backup      Backup.Clock has the names made from a time, Backup.Disk the disk and its calls,
--               Backup.Lines makeBackupList and saveBackupList of backup/backup.go, Backup.Archive
--               backup/archive.go, Backup.Compression backup/compression.go and its factories,
--               Backup.Service backup/service.go, backup/single.go, backup/null.go and
--               backup/factory.go
--   Service     Service.Process is service/service.go: the record Service has the table of hosts, the
--               subscription service and the list of calls made so far, and run is the loop Run;
--               Service.Subscriptions is service/subscription.go with service/subscription/caching
--               and service/subscription/disabled; Service.Hosts is about the table of hosts and
--               Service.Routing about where an event goes
--   Server      Server.Http has the request and the writer, Server.Events the event of a request,
--               Server.Handlers server/handlers.go and server/router.go; Server.Catching and
--               Server.Access are about what the handlers do; Server.Factory is server/factory.go
--               and server/server.go, and Server.Factory.Ports is about the servers it builds
--   Store       store/store.go: the registered adapters and the one in use; an adapter is a record
--               of operations on a state of the database. Store.Contract is what the store relies on in
--               an adapter, and Contract of Dao.Mysql, Dao.Clickhouse and Dao.Rethinkdb fill it
--   Dao         the adapters: Dao.Mysql is dao/mysql/mysql.go, Dao.Clickhouse
--               dao/clickhouse/clickhouse.go, Dao.Rethinkdb dao/rethinkdb/rethinkdb.go and Dao.Redis
--               dao/redis/redis.go. In each, open_adapter (or connect_with) and close_adapter are Open
--               and Close, and its Writing and Reading have the writes and what the readers give.
--               Dao.Addresses and Dao.Rows are what several of them do in the same way. Dao.Migration
--               is dao/migration_dao.go up to the copied templates, Dao.Migration.Running its
--               migrateUp and Migrate
--   Start       main.go: prepare_database is what main does to the database, build_parts what it
--               builds on it, and start both; Start.Database and Start.Handover are about the
--               two, and Start.Ready about start-up with an adapter that keeps Store.Contract.
--               Start.Running is what runs then: the state System (State) has the events that the handlers
--               accepted, the heap of the events that the goroutines share, the goroutines that wait, the
--               service and the servers, and Step is one step of any goroutine or of main, up to its
--               end; its children are about the order of the steps (Schedule), the events that wait
--               and that were taken (Counting), the lines of the log (Lines), the status of the process
--               (Results), the events that are lost (Stopping) and the events that end it (Crashing).
--               Server.Lifecycle is Serve and Shutdown of server/server.go
--   Testhelper  testhelper/copy.go (Testhelper.Copy), testhelper/equal.go and
--               testhelper/reader_factory.go (Testhelper.Equal), on trees of files
--   It          it/beacon_sender.go and it/http_sender.go: It.Resending and It.Archived are about the
--               lines of a log that are sent again
--   Letsencrypt cmd/testletsencrypt/main.go
--
-- Conventions. A Go string is its list of bytes, a map an association list in the order in which Go
-- walks it, a nil error is `none`, and a time its seconds since 1970. A call of the database, of the
-- operating system or of a library is an argument of the definition that makes it: `parse_url` is
-- url.Parse followed by Hostname, `decode36` base36.Decode, `marshal` json.Marshal, Codec the gzip and
-- zstd packages, Faults the system calls that fail. What is sent to a database is a list of calls, the
-- latest first, and an oracle says from that list whether the latest call fails. The batcher of
-- eapache/go-resiliency is the list of the batches that it hands to the work function. Logging is left
-- out. A nil pointer that the code uses panics. A step of Start.Running is atomic; two goroutines that use
-- one map at the same time, one of them to change it, are a step that ends the process, as the Go runtime
-- does when it notices. The local time zone is the record Zone of Types, a clock and its inverse.
--
-- Fuel. The loop of DecompressBucketLog has as fuel the length of the text and one more, which
-- Beacon.Decompress.Total shows to be enough: each round moves the index. The loop of copyFile has the
-- length of the source and one more, which Dao.Migration.Copying shows to be enough. All other loops are
-- recursion on a list or a number; the decimal printer takes a digit for each unit of the number,
-- and the loop of cmd/testletsencrypt a round for each of its three tries.
--
-- Not modelled: the reading of the configuration file, the timeouts of contexts (a call that runs into one
-- returns an error), what a race on a map does that the Go runtime does not notice, what the batcher does with what it was
-- given when main ends, the statistics of the connections, the mocks, the queries of
-- it/integration_dao.go, and the tests.
pub mod Base
pub mod Values
pub mod Types
pub mod Geoip
pub mod Beacon
pub mod Backup
pub mod Service
pub mod Server
pub mod Store
pub mod Dao
pub mod Start
pub mod Testhelper
pub mod It
pub mod Letsencrypt
