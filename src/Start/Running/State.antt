-- ===== src/Start/Running/State.antt =====
-- The state of the program once main has started it, and what each step makes of it.
use front_basicrum_go.Base.{
  ℕ, Bytes, List, [], ◌∷◌, ◌++◌, Bool, true, false, Option, none, some, ◌≡◌, length, if◌then◌else◌,
}
use front_basicrum_go.Values.{Values}
use front_basicrum_go.Types.{Event}
use front_basicrum_go.Backup.Service.{mark}
use front_basicrum_go.Service.Subscriptions.{Subscriptions}
use front_basicrum_go.Service.Process.{
  Call, save, save_host, save_expired, save_unknown, insert_owner_hostname, delete_owner_hostname,
  Service, new, process_hosts,
}
use front_basicrum_go.Server.Lifecycle.{Endpoint, new_endpoint, serve, shutdown, shutdown_error}
use front_basicrum_go.Start.Running.Pointers.{modify}

-- The logs of FileBackup.
pub data Log : Type 0 where
  archive_log expired_log unknown_log : Log

-- A goroutine of SaveAsync of SingleFileBackup that has not run yet.
pub record Saving : Type 0 where
  pub log : Log
  pub event : ℕ

-- What ends the process: a panic of processEvent before it calls the database, a panic of the work
-- function of a batcher, a panic in a call of the database that Service.Run makes (as on a connection
-- that is nil because InitDb failed), and the fatal error of the Go runtime when a map is changed
-- while another goroutine uses it.
pub data Cause : Type 0 where
  bad_event bad_batch bad_connection shared_map : Cause

-- `exited` has the status that main ends with.
pub data Stage : Type 0 where
  serving : Stage
  stopping : Stage
  exited : ℕ → Stage
  crashed : Cause → Stage

pub record System : Type 0 where
  pub accepted : List Event
  pub heap : List Event
  -- the goroutines of service.SaveAsync that wait on the channel
  pub sending : List ℕ
  -- the events that Service.Run has taken, the latest last
  pub taken : List ℕ
  pub saving : List Saving
  -- what the batchers were given, the latest last
  pub given : List Saving
  pub service : Service
  pub calls : List Call
  pub servers : List Endpoint
  -- what the goroutines of stopServers returned, the latest last
  pub results : List (Option Bytes)
  pub flushed : Bool
  pub stage : Stage

abbrev pub IsAlive : Stage → Type 0
IsAlive serving = Unit
IsAlive stopping = Unit
IsAlive _ = ⊥

-- The calls of the backup start a goroutine; those of the database are made in place.
unfoldable pub spawned : ℕ → List Call → List Saving
spawned i [] = []
spawned i (save_expired e ∷ calls) = record { log = expired_log; event = i } ∷ spawned i calls
spawned i (save_unknown e ∷ calls) = record { log = unknown_log; event = i } ∷ spawned i calls
spawned i (save r ∷ calls) = spawned i calls
spawned i (save_host h ∷ calls) = spawned i calls
spawned i (insert_owner_hostname o ∷ calls) = spawned i calls
spawned i (delete_owner_hostname h u ∷ calls) = spawned i calls

-- Where the backup is a NullBackup no goroutine is started.
unfoldable pub kept : Bool → List Saving → List Saving
kept enabled savings = if enabled then savings else []

-- The end of the catcher: the event is on the heap, and two goroutines have it.
unfoldable pub accept : Bool → Event → System → System
unfolding kept
accept enabled e s = record s {
  accepted = s.accepted ++ e ∷ [];
  heap = s.heap ++ e ∷ [];
  sending = s.sending ++ length s.heap ∷ [];
  saving = s.saving ++ kept enabled (record { log = archive_log; event = length s.heap } ∷ []);
}

-- A case of the select of Run: what processEvent leaves of the service and the calls it made.
unfoldable pub received : Bool → ℕ → List ℕ → Service → System → System
unfolding kept spawned
received enabled i sending service s = record s {
  sending = sending;
  taken = s.taken ++ i ∷ [];
  service = record service { calls = [] };
  calls = service.calls ++ s.calls;
  saving = s.saving ++ kept enabled (spawned i service.calls);
}

unfoldable pub ticked : System → System
ticked s = record s {
  service = record (process_hosts s.service) { calls = [] };
  calls = (process_hosts s.service).calls ++ s.calls;
}

-- SaveAsync of SingleFileBackup: it changes the event, and gives it to the batcher.
unfoldable pub archive : (Values → Bytes) → Saving → List Saving → System → System
archive to_json w saving s = record s {
  heap = modify w.event (mark to_json) s.heap;
  saving = saving;
  given = s.given ++ w ∷ [];
}

unfoldable pub serve_one : Bool → ℕ → System → System
serve_one fails k s = record s { servers = modify k (serve fails) s.servers }

-- A goroutine of stopServers for a server.
unfoldable pub shut_one : Option Bytes → ℕ → Endpoint → System → System
shut_one error k v s = record s {
  servers = modify k (shutdown error) s.servers;
  results = s.results ++ shutdown_error error v ∷ [];
}

-- The goroutine of stopServers that calls Flush; it returns nil.
unfoldable pub flush_backup : System → System
flush_backup s = record s { flushed = true; results = s.results ++ none ∷ [] }

-- All servers are through with Shutdown.
abbrev pub AreStopped : List Endpoint → Type 0
AreStopped [] = Unit
AreStopped (v ∷ vs) = ((r : Option Bytes) × (v.stopped ≡ some r)) × AreStopped vs

-- The status of the process behind stopServers: os.Exit(1), or the end of main.
unfoldable pub exit_status : Option Bytes → ℕ
exit_status none = 0
exit_status (some e) = 1

-- The system as main leaves it to the goroutines: the servers are built and none has started.
unfoldable pub initial : Subscriptions → List Endpoint → System
initial subscriptions servers = record {
  accepted = [];
  heap = [];
  sending = [];
  taken = [];
  saving = [];
  given = [];
  service = new subscriptions;
  calls = [];
  servers = servers;
  results = [];
  flushed = false;
  stage = serving;
}

-- All servers are new.
abbrev pub AreNew : List Endpoint → Type 0
AreNew [] = Unit
AreNew (v ∷ vs) = (v ≡ new_endpoint) × AreNew vs
