-- ===== src/Service/Process.antt =====
-- service/service.go. The run of the service is a sequence of inputs: events from the channel and
-- ticks of the host timer. With each input comes what the database would answer. `calls` lists what the
-- service asked of the database and of the backup, the latest first.
use front_basicrum_go.Base.{ℕ, Bytes, List, [], ◌∷◌, Option, none, some}
use front_basicrum_go.Base.Assoc.{insert}
use front_basicrum_go.Base.Outcome.{Outcome, returns, ◌>>=◌}
use front_basicrum_go.Types.{
  Event, HostnameEvent, new_hostname_event, OwnerHostname, new_owner_hostname, Zone,
  new_subscription,
}
use front_basicrum_go.Beacon.Convert.{RumEvent}
use front_basicrum_go.Service.Subscriptions.{
  found_lookup, not_found_lookup, expired_lookup, Reply, Query, Subscriptions, get_subscription,
}

pub data Call : Type 0 where
  save : RumEvent → Call
  save_host : HostnameEvent → Call
  save_expired : Event → Call
  save_unknown : Event → Call
  insert_owner_hostname : OwnerHostname → Call
  delete_owner_hostname : Bytes → Bytes → Call

pub record Service : Type 0 where
  pub hosts : List (Bytes × Bytes)
  pub subscriptions : Subscriptions
  pub calls : List Call

-- `service.New`, with an empty table of hosts
unfoldable pub new : Subscriptions → Service
new subscriptions = record { hosts = []; subscriptions = subscriptions; calls = [] }

-- An error of `Save` is only logged.
unfoldable pub process_rum_event : RumEvent → Service → Service
process_rum_event r s = record s {
  hosts = insert r.hostname r.created_at s.hosts;
  calls = save r ∷ s.calls;
}

unfoldable pub dispatch : Reply → Event → RumEvent → Service → Service
dispatch reply event r s = elim reply.error [
  | some e ↦ s
  | none ↦ elim reply.lookup_result [
    | found_lookup ↦ process_rum_event r s
    | expired_lookup ↦ record s { calls = save_expired event ∷ s.calls }
    | not_found_lookup ↦ record s { calls = save_unknown event ∷ s.calls }
  ]
]

unfoldable pub process_rum : Query → ℕ → Event → RumEvent → Service → Service
unfolding dispatch
process_rum query now event r s =
    let (reply, subs) = get_subscription query now r.subscription_id r.hostname s.subscriptions in
    dispatch reply event r (record s { subscriptions = subs })

-- `create` is the method of IRumEventFactory.
module _ (create : Event → Outcome RumEvent) where
  -- `none` is the nil event.
  unfoldable pub process_event : Query → ℕ → Option Event → Service → Outcome Service
  process_event query now none s = returns s
  process_event query now (some event) s = do
    r ← create event
    returns (process_rum query now event r s)

-- The loop of processHosts, in the order in which the map is walked; an error is only logged.
unfoldable pub save_hosts : List (Bytes × Bytes) → List Call → List Call
save_hosts [] calls = calls
save_hosts ((hostname, created_at) ∷ rest) calls =
    save_hosts rest (save_host (new_hostname_event hostname created_at) ∷ calls)

unfoldable pub process_hosts : Service → Service
process_hosts s = record s { hosts = []; calls = save_hosts s.hosts s.calls }

pub data Input : Type 0 where
  event : Query → ℕ → Option Event → Input
  tick : Input

module _ (create : Event → Outcome RumEvent) where
  unfoldable pub step : Input → Service → Outcome Service
  step (event query now e) s = process_event create query now e s
  step tick s = returns (process_hosts s)

  -- The loop of Run over the inputs as `select` takes them; a panic ends it.
  unfoldable pub run : List Input → Service → Outcome Service
  run [] s = returns s
  run (i ∷ is) s = do s' ← step i s; run is s'

-- RegisterHostname and DeleteHostname; `zone` is the local time zone, `uuid` what uuid.NewString returns.
unfoldable pub register_hostname : Zone → Bytes → ℕ → Bytes → Bytes → Service → Service
register_hostname zone uuid now hostname username s = record s {
  calls =
      insert_owner_hostname (new_owner_hostname username hostname (new_subscription zone uuid now))
      ∷ s.calls;
}

unfoldable pub delete_hostname : Bytes → Bytes → Service → Service
delete_hostname hostname username s = record s {
  calls = delete_owner_hostname hostname username ∷ s.calls;
}
