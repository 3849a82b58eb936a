-- ===== src/Dao/Mysql/Reading.antt =====
-- What the errors of the readers do to start-up and to the service.
use front_basicrum_go.Base.{ℕ, Bytes, none, some, ◌≡◌, refl, arith, ◌∙◌, ap, sym}
use front_basicrum_go.Base.Assoc.{lookup}
use front_basicrum_go.Base.Outcome.{Outcome, returns, ◌>>=◌}
use front_basicrum_go.Types.{Event, SubscriptionWithHostname}
use front_basicrum_go.Beacon.Convert.{RumEvent}
use front_basicrum_go.Service.Subscriptions.{
  not_found_lookup, failure, Cache, Query, Reply, caching, get_cached,
}
use front_basicrum_go.Service.Process.{Service, dispatch, process_rum, process_event}
use front_basicrum_go.Service.Routing.{process_rum_caching}
use front_basicrum_go.Dao.Rows.{Queried, queried, query_error}
use front_basicrum_go.Dao.Mysql.{get_subscription}

get_subscription_fails :
    (r : Queried SubscriptionWithHostname) → (e : Bytes) × (get_subscription r ≡ failure e)
unfolding get_subscription
get_subscription_fails (query_error e) = (_, refl)
get_subscription_fails (queried r) = (_, refl)

module _ (make : Event → Outcome RumEvent) (rows : Bytes → Queried SubscriptionWithHostname)
    (now : ℕ) where
  abbrev pub query : Query
  query id = get_subscription (rows id)

  missed :
      (id hostname : Bytes) (cache : Cache) (x : Bytes)
      → lookup id cache ≡ none
      → get_subscription (rows id) ≡ failure x
      → get_cached query now id hostname cache
        ≡ (record { lookup_result = not_found_lookup; error = some x }, cache)
  unfolding get_cached
  missed id hostname cache x l q = ground arith

  dropped :
      (e : Event) (r : RumEvent) (cache : Cache) (s : Service) (x : Bytes)
      → make e ≡ returns r
      → s.subscriptions ≡ caching cache
      → lookup r.subscription_id cache ≡ none
      → get_subscription (rows r.subscription_id) ≡ failure x
      → process_event make query now (some e) s ≡ returns s
  unfolding process_event dispatch
  dropped e r cache s x m c l q =
      ap (λ o. o >>= λ r'. returns (process_rum query now e r' s)) m
      ∙ ap returns (
          process_rum_caching make query now e r cache s c
          ∙ ap (λ (p : Reply × Cache). dispatch p.0 e r (record s { subscriptions = caching p.1 }))
              (missed r.subscription_id r.hostname cache x l q)
          ∙ ap (λ subs. record s { subscriptions = subs }) (sym c))

  -- With the caching service on MySQL, whatever the database answers, processEvent drops an event that
  -- can be converted and whose subscription is not in the cache: it returns with the service
  -- unchanged, and has called neither the database to save the event nor the backup for the log of
  -- expired or the log of unknown events.
  pub process_event-dropped :
      (e : Event) (r : RumEvent) (cache : Cache) (s : Service)
      → make e ≡ returns r
      → s.subscriptions ≡ caching cache
      → lookup r.subscription_id cache ≡ none
      → process_event make query now (some e) s ≡ returns s
  process_event-dropped e r cache s m c l =
      let (x, q) = get_subscription_fails (rows r.subscription_id) in dropped e r cache s x m c l q
