-- ===== src/Start/Running.antt =====
-- The program once main has started it: the handlers, the goroutines that service.SaveAsync and
-- backup.SaveAsync start, the goroutine of Service.Run, and main itself, which waits for a signal and
-- then stops the servers. A step of any of them may come next. An event is a pointer that the
-- goroutines share: `heap` has the events by address, as the backup leaves them, and `accepted` the
-- events as the handlers made them.
mod Pointers
mod State
mod Tests
pub mod Results
pub mod Marking
pub mod Agreement
pub mod Schedule
pub mod Counting
pub mod Stopping
pub mod Lines
mod Breaking
mod Surviving
pub mod Crashing
use front_basicrum_go.Base.{
  ℕ, zero, suc, Bytes, List, [], ◌∷◌, ◌++◌, Bool, true, false, Option, none, some, ◌≡◌, length,
  get_elem?, if◌then◌else◌,
}
use mathlib.Core.List.{Memᴰ}
use front_basicrum_go.Base.Assoc.{lookup}
use front_basicrum_go.Base.Outcome.{Outcome, returns, panics, ◌>>=◌}
use front_basicrum_go.Values.{Values}
use front_basicrum_go.Types.{Event}
use front_basicrum_go.Beacon.Convert.{RumEvent}
use front_basicrum_go.Backup.Service.{mark}
use front_basicrum_go.Backup.Lines.{make_key_hostname}
use front_basicrum_go.Service.Subscriptions.{Query, Subscriptions, Cache, caching}
use front_basicrum_go.Service.Process.{
  Call, save, save_host, save_expired, save_unknown, insert_owner_hostname, delete_owner_hostname,
  Service, new, process_event, process_hosts,
}
use front_basicrum_go.Server.Http.{Request, Writer}
use front_basicrum_go.Server.Handlers.{save_async, backup_async, catcher}
use front_basicrum_go.Server.Lifecycle.{Endpoint, new_endpoint, serve, shutdown, shutdown_error}
use front_basicrum_go.Start.{stop_servers}
unfoldable pub use Pointers.*
unfoldable pub use State.*

module _ (create : Event → Outcome RumEvent) (parse_url : Bytes → Option Bytes) where
  -- The other ways in which the process can end from a state. A call of the database may panic wherever
  -- Service.Run makes one; a map is shared when a goroutine of SaveAsync is to change it, and another
  -- of them, a batcher or the service has the same event. A batch that is done is not told from one
  -- that the batcher still works on.
  pub data Dies (s : System) : Cause → Type 0 where
    batch_panics :
        (before after : List Saving) (w : Saving) (e : Event)
        → s.given ≡ before ++ w ∷ after
        → get_elem? s.heap w.event ≡ some e
        → make_key_hostname parse_url e.request_parameters ≡ panics
        → Dies s bad_batch
    get_subscription_panics :
        (before after : List ℕ) (i : ℕ) (e : Event) (r : RumEvent) (cache : Cache)
        → s.sending ≡ before ++ i ∷ after
        → get_elem? s.heap i ≡ some e
        → create e ≡ returns r
        → s.service.subscriptions ≡ caching cache
        → lookup r.subscription_id cache ≡ none
        → Dies s bad_connection
    save_panics :
        (query : Query) (now : ℕ) (before after : List ℕ) (i : ℕ) (service : Service) (r : RumEvent)
        (calls : List Call)
        → s.sending ≡ before ++ i ∷ after
        → process_event create query now (get_elem? s.heap i) s.service ≡ returns service
        → service.calls ≡ save r ∷ calls
        → Dies s bad_connection
    save_host_panics :
        (host : Bytes × Bytes) (hosts : List (Bytes × Bytes))
        → s.service.hosts ≡ host ∷ hosts
        → Dies s bad_connection
    saving_twice :
        (before after : List Saving) (w v : Saving)
        → s.saving ≡ before ++ w ∷ after
        → Memᴰ v (before ++ after)
        → v.event ≡ w.event
        → Dies s shared_map
    saving_given :
        (before after : List Saving) (w v : Saving)
        → s.saving ≡ before ++ w ∷ after
        → Memᴰ v s.given
        → v.event ≡ w.event
        → Dies s shared_map
    saving_taken :
        (before after : List Saving) (w : Saving)
        → s.saving ≡ before ++ w ∷ after
        → Memᴰ w.event s.sending
        → Dies s shared_map

module _ (create : Event → Outcome RumEvent) (parse_url : Bytes → Option Bytes)
    (to_json : Values → Bytes) (enabled : Bool) where
  pub data Step (s : System) : System → Type 0 where
    serves :
        (fails : Bool) (k : ℕ) (v : Endpoint)
        → IsAlive s.stage
        → get_elem? s.servers k ≡ some v
        → v.started ≡ false
        → Step s (serve_one fails k s)
    catches :
        (k : ℕ) (v : Endpoint) (now : Bytes) (events : Option Bytes) (r : Request) (w : Writer)
        (e : Event)
        → IsAlive s.stage
        → get_elem? s.servers k ≡ some v
        → v.listening ≡ true
        → (catcher now events r w).effects ≡ save_async e ∷ backup_async e ∷ []
        → Step s (accept enabled e s)
    takes :
        (query : Query) (now : ℕ) (before after : List ℕ) (i : ℕ) (service : Service)
        → IsAlive s.stage
        → s.sending ≡ before ++ i ∷ after
        → process_event create query now (get_elem? s.heap i) s.service ≡ returns service
        → Step s (received enabled i (before ++ after) service s)
    crashes :
        (query : Query) (now : ℕ) (before after : List ℕ) (i : ℕ)
        → IsAlive s.stage
        → s.sending ≡ before ++ i ∷ after
        → process_event create query now (get_elem? s.heap i) s.service ≡ panics
        → Step s (record s { stage = crashed bad_event })
    dies :
        (cause : Cause)
        → IsAlive s.stage
        → Dies create parse_url s cause
        → Step s (record s { stage = crashed cause })
    ticks : IsAlive s.stage → Step s (ticked s)
    archives :
        (before after : List Saving) (w : Saving)
        → IsAlive s.stage
        → s.saving ≡ before ++ w ∷ after
        → Step s (archive to_json w (before ++ after) s)
    signals : s.stage ≡ serving → Step s (record s { stage = stopping })
    shuts :
        (error : Option Bytes) (k : ℕ) (v : Endpoint)
        → s.stage ≡ stopping
        → get_elem? s.servers k ≡ some v
        → v.stopped ≡ none
        → Step s (shut_one error k v s)
    flushes : s.stage ≡ stopping → s.flushed ≡ false → Step s (flush_backup s)
    exits :
        s.stage ≡ stopping
        → s.flushed ≡ true
        → AreStopped s.servers
        → Step s (record s { stage = exited (exit_status (stop_servers s.results)) })

  pub data Reach (s : System) : System → Type 0 where
    here : Reach s s
    next : {t u : System} → Reach s t → Step t u → Reach s u
