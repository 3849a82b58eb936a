-- ===== src/Service/Routing.antt =====
-- Where processEvent sends an event, and what happens to the service on a beacon with a broken URL.
use front_basicrum_go.Base.{
  ℕ, Bytes, List, [], ◌∷◌, ◌++◌, Option, none, some, ◌≡◌, ◌∙◌, sym, ap, arith, codes, inl, inr,
}
use front_basicrum_go.Base.Assoc.{lookup}
use front_basicrum_go.Base.Outcome.{
  Outcome, returns, panics, Outcome-cases, returns-injective, ◌>>=◌,
}
use front_basicrum_go.Values.{get}
use front_basicrum_go.Types.{Event}
use front_basicrum_go.Geoip as Geo
use front_basicrum_go.Beacon.Convert.{RumEvent, create}
use front_basicrum_go.Beacon.Laws.{create-panics, create_fields}
use front_basicrum_go.Service.Subscriptions.{
  found_lookup, not_found_lookup, expired_lookup, answer, Cache, Reply, Query, caching, get_cached,
  get_subscription,
}
use front_basicrum_go.Service.Subscriptions.Laws.{ask, IsCoherent, get_cached-ask}
use front_basicrum_go.Service.Process.{
  Call, save, save_expired, save_unknown, Service, dispatch, process_rum_event, process_rum,
  process_event, Input, event, step, run,
}

-- The calls for an event with a reply of the subscription service: one at most.
unfoldable pub routed : Reply → Event → RumEvent → List Call → List Call
routed reply e r calls = elim reply.error [
  | some x ↦ calls
  | none ↦ elim reply.lookup_result [
    | found_lookup ↦ save r ∷ calls
    | expired_lookup ↦ save_expired e ∷ calls
    | not_found_lookup ↦ save_unknown e ∷ calls
  ]
]

dispatch_calls :
    (reply : Reply) (e : Event) (r : RumEvent) (s : Service)
    → ((dispatch reply e r s).calls ≡ routed reply e r s.calls)
      × ((dispatch reply e r s).subscriptions ≡ s.subscriptions)
unfolding dispatch process_rum_event routed
dispatch_calls reply e r s = (ground arith, ground arith)

module _ (make : Event → Outcome RumEvent) (query : Query) (now : ℕ) where
  pub process_rum_caching :
      (e : Event) (r : RumEvent) (cache : Cache) (s : Service)
      → s.subscriptions ≡ caching cache
      → process_rum query now e r s
        ≡ dispatch (get_cached query now r.subscription_id r.hostname cache).0 e r (record s {
          subscriptions = caching (get_cached query now r.subscription_id r.hostname cache).1;
        })
  unfolding process_rum get_subscription
  process_rum_caching e r cache s c =
      ap
        (λ subs.
          let (reply, subs') = get_subscription query now r.subscription_id r.hostname subs in
          dispatch reply e r (record s { subscriptions = subs' }))
        c

  processed :
      (e : Event) (r : RumEvent) (s t : Service)
      → make e ≡ returns r
      → process_event make query now (some e) s ≡ returns t
      → process_rum query now e r s ≡ t
  unfolding process_event
  processed e r s t m p = returns-injective (ground arith)

  -- With a coherent cache an event that is processed with no panic is sent where the database alone
  -- would send it, by one call at most, and the cache stays coherent.
  pub process_event-routed :
      (e : Event) (r : RumEvent) (cache : Cache) (s t : Service)
      → make e ≡ returns r
      → s.subscriptions ≡ caching cache
      → IsCoherent query cache
      → process_event make query now (some e) s ≡ returns t
      → (t.calls ≡ routed (ask query now r.subscription_id r.hostname) e r s.calls)
        × (cache' : Cache) × (t.subscriptions ≡ caching cache')
        × IsCoherent query cache'
  process_event-routed e r cache s t m c h p =
      let (reply, cache') = get_cached query now r.subscription_id r.hostname cache in
      let (same, coherent) = get_cached-ask query now r.subscription_id r.hostname cache h in
      let next : Service = record s { subscriptions = caching cache' } in
      let q = sym (process_rum_caching e r cache s c) ∙ processed e r s t m p in
      let (calls, subs) = dispatch_calls reply e r next in
      (
        ap (λ (x : Service). x.calls) (sym q) ∙ calls ∙ ap (λ x. routed x e r s.calls) same,
        cache',
        ap (λ (x : Service). x.subscriptions) (sym q) ∙ subs,
        coherent,
      )

-- An id that neither the cache nor the database has.
missing :
    (query : Query) (now : ℕ) (e : Event) (id : Bytes) (r : RumEvent) (cache : Cache) (s : Service)
    → s.subscriptions ≡ caching cache
    → id ≡ []
    → lookup [] cache ≡ none
    → query [] ≡ answer none
    → dispatch
        (get_cached query now id r.hostname cache).0
        e
        r
        (record s { subscriptions = caching (get_cached query now id r.hostname cache).1 })
      ≡ record s { calls = save_unknown e ∷ s.calls }
unfolding dispatch get_cached
missing query now e id r cache s c i m q = rw i (ground arith)

module _ (parse_url : Bytes → Option Bytes) (geo : Option Geo.Service) where
  -- Behind inputs with which the run does not panic, an event whose parameter `u` is no URL ends it
  -- with a panic, whatever waits behind the event.
  pub run-panics :
      (before behind : List Input) (query : Query) (now : ℕ) (e : Event) (s t : Service)
      → run (create parse_url geo) before s ≡ returns t
      → parse_url (get e.request_parameters (codes "u")) ≡ none
      → run (create parse_url geo) (before ++ event query now (some e) ∷ behind) s ≡ panics
  unfolding run step process_event
  run-panics [] behind query now e s t p bad = ground (arith, (create-panics parse_url geo e).1 bad)
  run-panics (i ∷ before) behind query now e s t p bad =
      elim (Outcome-cases (step (create parse_url geo) i s)) [
        | inl (u, c) ↦
            ap (λ m. m >>= run (create parse_url geo) (before ++ event query now (some e) ∷ behind))
              c
            ∙ run-panics before behind query now e u t
                (ap (λ m. m >>= run (create parse_url geo) before) (sym c) ∙ p) bad
        | inr c ↦
            ap (λ m. m >>= run (create parse_url geo) (before ++ event query now (some e) ∷ behind))
              c
      ]

  stored :
      (query : Query) (now : ℕ) (e : Event) (r : RumEvent) (s : Service)
      → create parse_url geo e ≡ returns r
      → process_event (create parse_url geo) query now (some e) s
        ≡ returns (process_rum query now e r s)
  unfolding process_event
  stored query now e r s p = ground arith

  -- With the caching service and no subscription under the empty id, neither in the cache nor in the
  -- database, every event with a URL goes to the backup of unknown events and none is stored: the rum
  -- event never carries the subscription of the request.
  pub process_event-unknown :
      (query : Query) (now : ℕ) (e : Event) (cache : Cache) (s : Service) (host : Bytes)
      → s.subscriptions ≡ caching cache
      → lookup [] cache ≡ none
      → query [] ≡ answer none
      → parse_url (get e.request_parameters (codes "u")) ≡ some host
      → process_event (create parse_url geo) query now (some e) s
        ≡ returns (record s { calls = save_unknown e ∷ s.calls })
  process_event-unknown query now e cache s host c m q u =
      elim (Outcome-cases (create parse_url geo e)) [
        | inr bad ↦ cc (u, (create-panics parse_url geo e).0 bad)
        | inl (r, p) ↦
            let (no_id, time, name) = create_fields parse_url geo e r p in
            stored query now e r s p
            ∙ ap returns (
                process_rum_caching (create parse_url geo) query now e r cache s c
                ∙ missing query now e r.subscription_id r cache s c no_id m q)
      ]
