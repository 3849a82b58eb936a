-- ===== src/Start/Running/Agreement.antt =====
-- Two services that differ only in the events that they hand to the backup.
use front_basicrum_go.Base.{
  ℕ, Bytes, List, [], ◌∷◌, ◌++◌, some, ◌≡◌, ◌∙◌, refl, sym, ap, arith, ◌⊎◌, inl, inr,
}
use mathlib.Core.Path.{ap₂, subst}
use front_basicrum_go.Base.Outcome.{Outcome, returns, panics, Outcome-cases}
use front_basicrum_go.Types.{Event, new_hostname_event}
use front_basicrum_go.Beacon.Convert.{RumEvent}
use front_basicrum_go.Service.Subscriptions.{Query, Reply, Subscriptions, get_subscription}
use front_basicrum_go.Service.Process.{
  Call, save, save_host, save_expired, save_unknown, insert_owner_hostname, delete_owner_hostname,
  Service, process_event, process_rum, process_rum_event, dispatch, process_hosts, save_hosts,
}

-- The calls of the database, without those of the backup.
unfoldable pub stored : List Call → List Call
stored [] = []
stored (save r ∷ calls) = save r ∷ stored calls
stored (save_host h ∷ calls) = save_host h ∷ stored calls
stored (save_expired e ∷ calls) = stored calls
stored (save_unknown e ∷ calls) = stored calls
stored (insert_owner_hostname o ∷ calls) = insert_owner_hostname o ∷ stored calls
stored (delete_owner_hostname h u ∷ calls) = delete_owner_hostname h u ∷ stored calls

stored-append : (xs ys : List Call) → stored (xs ++ ys) ≡ stored xs ++ stored ys
unfolding stored
stored-append [] ys = refl
stored-append (save r ∷ xs) ys = ap (λ c. save r ∷ c) (stored-append xs ys)
stored-append (save_host h ∷ xs) ys = ap (λ c. save_host h ∷ c) (stored-append xs ys)
stored-append (save_expired e ∷ xs) ys = stored-append xs ys
stored-append (save_unknown e ∷ xs) ys = stored-append xs ys
stored-append (insert_owner_hostname o ∷ xs) ys =
    ap (λ c. insert_owner_hostname o ∷ c) (stored-append xs ys)
stored-append (delete_owner_hostname h u ∷ xs) ys =
    ap (λ c. delete_owner_hostname h u ∷ c) (stored-append xs ys)

-- A service whose calls are handed on at once agrees with one that keeps them: the hosts, the
-- subscriptions and the calls of the database are the same.
pub record Agree (s : Service) (calls : List Call) (t : Service) : Type 0 where
  pub handed_on : s.calls ≡ []
  pub hosts : s.hosts ≡ t.hosts
  pub subscriptions : s.subscriptions ≡ t.subscriptions
  pub same_calls : stored calls ≡ stored t.calls

dispatch-Agree :
    (reply : Reply) (e f : Event) (r : RumEvent) (calls : List Call) (s t : Service)
    → Agree s calls t
    → Agree
        (record (dispatch reply e r s) { calls = [] })
        ((dispatch reply e r s).calls ++ calls)
        (dispatch reply f r t)
unfolding dispatch process_rum_event stored
dispatch-Agree reply e f r calls s t a = record {
  handed_on = refl;
  hosts = ground arith;
  subscriptions = ground arith;
  same_calls = ground arith;
}

save_hosts-append :
    (m : List (Bytes × Bytes)) (xs ys : List Call) → save_hosts m (xs ++ ys) ≡ save_hosts m xs ++ ys
unfolding save_hosts
save_hosts-append [] xs ys = refl
save_hosts-append ((hostname, created_at) ∷ rest) xs ys =
    save_hosts-append rest (save_host (new_hostname_event hostname created_at) ∷ xs) ys

stored-save_hosts :
    (m : List (Bytes × Bytes)) (calls : List Call)
    → stored (save_hosts m calls) ≡ save_hosts m (stored calls)
unfolding stored save_hosts
stored-save_hosts [] calls = refl
stored-save_hosts ((hostname, created_at) ∷ rest) calls =
    stored-save_hosts rest (save_host (new_hostname_event hostname created_at) ∷ calls)

pub process_hosts-Agree :
    (calls : List Call) (s t : Service)
    → Agree s calls t
    → Agree
        (record (process_hosts s) { calls = [] })
        ((process_hosts s).calls ++ calls)
        (process_hosts t)
unfolding process_hosts
process_hosts-Agree calls s t a = record {
  handed_on = refl;
  hosts = refl;
  subscriptions = a.subscriptions;
  same_calls =
      ap stored (sym (save_hosts-append s.hosts s.calls calls))
      ∙ stored-save_hosts s.hosts (s.calls ++ calls)
      ∙ ap₂ save_hosts a.hosts (ap (λ c. stored (c ++ calls)) a.handed_on ∙ a.same_calls)
      ∙ sym (stored-save_hosts t.hosts t.calls);
}

process_rum_with :
    (query : Query) (now : ℕ) (e : Event) (r : RumEvent) (subs : Subscriptions) (s : Service)
    → subs ≡ s.subscriptions
    → dispatch (get_subscription query now r.subscription_id r.hostname subs).0 e r (record s {
      subscriptions = (get_subscription query now r.subscription_id r.hostname subs).1;
    })
      ≡ process_rum query now e r s
unfolding process_rum
process_rum_with query now e r subs s same =
    ap
      (λ x.
        let (reply, subs') = get_subscription query now r.subscription_id r.hostname x in
        dispatch reply e r (record s { subscriptions = subs' }))
      same

process_rum-Agree :
    (query : Query) (now : ℕ) (e f : Event) (r : RumEvent) (calls : List Call) (s t : Service)
    → Agree s calls t
    → Agree
        (record (process_rum query now e r s) { calls = [] })
        ((process_rum query now e r s).calls ++ calls)
        (process_rum query now f r t)
unfolding process_rum
process_rum-Agree query now e f r calls s t a =
    let (reply, subs) = get_subscription query now r.subscription_id r.hostname s.subscriptions in
    subst
      (λ x.
        Agree (record (process_rum query now e r s) { calls = [] })
          ((process_rum query now e r s).calls ++ calls) x)
      (process_rum_with query now f r s.subscriptions t a.subscriptions)
      (dispatch-Agree reply e f r calls (record s { subscriptions = subs })
        (record t { subscriptions = subs })
        (record {
          handed_on = a.handed_on;
          hosts = a.hosts;
          subscriptions = refl;
          same_calls = a.same_calls;
        }))

-- A nil event changes nothing.
pub Agree-same :
    (calls : List Call) (s t : Service)
    → Agree s calls t
    → Agree (record s { calls = [] }) (s.calls ++ calls) t
Agree-same calls s t a = record {
  handed_on = refl;
  hosts = a.hosts;
  subscriptions = a.subscriptions;
  same_calls = ap (λ c. stored (c ++ calls)) a.handed_on ∙ a.same_calls;
}

module _ (create : Event → Outcome RumEvent) (query : Query) (now : ℕ) where
  -- An event that gives the same rum event as another is processed like it, or panics like it.
  pub process_event-Agree :
      (h e : Event) (calls : List Call) (s t : Service)
      → create h ≡ create e
      → Agree s calls t
      → ((process_event create query now (some h) s ≡ panics)
          × (process_event create query now (some e) t ≡ panics))
        ⊎ ((s' : Service) × (t' : Service) × (process_event create query now (some h) s
              ≡ returns s')
            × (process_event create query now (some e) t ≡ returns t')
            × Agree (record s' { calls = [] }) (s'.calls ++ calls) t')
  unfolding process_event
  process_event-Agree h e calls s t same a = elim (Outcome-cases (create e)) [
    | inr bad ↦ inl (rw same (rw bad refl), rw bad refl)
    | inl (r, good) ↦ inr (
      process_rum query now h r s,
      process_rum query now e r t,
      rw same (rw good refl),
      rw good refl,
      process_rum-Agree query now h e r calls s t a,
    )
  ]
