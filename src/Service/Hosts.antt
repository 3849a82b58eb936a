-- ===== src/Service/Hosts.antt =====
-- The table of hosts against the calls that the service has made: which hosts have been seen since they
-- were last written to the database, and when.
use front_basicrum_go.Base.{
  ℕ, Bytes, List, [], ◌∷◌, Option, none, some, ◌≡◌, ◌∙◌, sym, ap, refl, arith, eqb, eqb_iff,
  eqb_refl, if◌then◌else◌, inl, inr,
}
use mathlib.Core.Path.{subst}
use front_basicrum_go.Base.Assoc.{
  lookup, lookup-insert, lookup-nil, lookup-cons, lookup-Fresh, Distinct, insert-Distinct,
}
use front_basicrum_go.Base.Outcome.{Outcome, returns, Outcome-cases, returns-injective}
use front_basicrum_go.Types.{Event, new_hostname_event}
use front_basicrum_go.Beacon.Convert.{RumEvent}
use front_basicrum_go.Service.Subscriptions.{
  Lookup, found_lookup, not_found_lookup, expired_lookup, Query, Subscriptions, get_subscription,
}
use front_basicrum_go.Service.Process.{
  Call, save, save_host, save_expired, save_unknown, insert_owner_hostname, delete_owner_hostname,
  Service, new, dispatch, process_rum_event, process_rum, process_event, save_hosts, process_hosts,
  Input, event, tick, step, run,
}

-- The time of the latest event of a host that was stored and not yet written as a host.
unfoldable pub pending : Bytes → List Call → Option Bytes
pending h [] = none
pending h (save r ∷ cs) = if eqb r.hostname h then some r.created_at else pending h cs
pending h (save_host e ∷ cs) = if eqb e.hostname h then none else pending h cs
pending h (save_expired e ∷ cs) = pending h cs
pending h (save_unknown e ∷ cs) = pending h cs
pending h (insert_owner_hostname o ∷ cs) = pending h cs
pending h (delete_owner_hostname x y ∷ cs) = pending h cs

-- Each host was written with the time of its latest event.
abbrev pub IsFaithful : List Call → Type 0
IsFaithful [] = Unit
IsFaithful (save r ∷ cs) = IsFaithful cs
IsFaithful (save_host e ∷ cs) = (pending e.hostname cs ≡ some e.updated_at) × IsFaithful cs
IsFaithful (save_expired e ∷ cs) = IsFaithful cs
IsFaithful (save_unknown e ∷ cs) = IsFaithful cs
IsFaithful (insert_owner_hostname o ∷ cs) = IsFaithful cs
IsFaithful (delete_owner_hostname x y ∷ cs) = IsFaithful cs

pub record IsValid (s : Service) : Type 0 where
  pub distinct : Distinct s.hosts
  pub table : (h : Bytes) → lookup h s.hosts ≡ pending h s.calls
  pub faithful : IsFaithful s.calls

pub new-IsValid : (subs : Subscriptions) → IsValid (new subs)
unfolding new pending
new-IsValid subs = record { distinct = tt; table = λ h. lookup-nil h; faithful = tt }

process_rum_event-IsValid :
    (r : RumEvent) (s : Service) → IsValid s → IsValid (process_rum_event r s)
unfolding process_rum_event pending
process_rum_event-IsValid r s v = record {
  distinct = insert-Distinct r.hostname r.created_at s.hosts v.distinct;
  table = λ h. ground (arith, lookup-insert r.hostname h r.created_at s.hosts, v.table h);
  faithful = v.faithful;
}

written : Option Bytes → Option Bytes → Option Bytes
written none before = before
written (some t) before = none

-- Every host that is written is no longer pending, and no other changes.
pending-save_hosts :
    (h : Bytes) (hosts : List (Bytes × Bytes)) (cs : List Call)
    → pending h (save_hosts hosts cs) ≡ written (lookup h hosts) (pending h cs)
unfolding pending save_hosts new_hostname_event written
pending-save_hosts h [] cs = rw (lookup-nil h)
pending-save_hosts h ((k, t) ∷ hosts) cs = ground (
  arith,
  pending-save_hosts h hosts (save_host (new_hostname_event k t) ∷ cs),
  lookup-cons k h t hosts,
)

save_hosts-IsFaithful :
    (hosts : List (Bytes × Bytes)) (cs : List Call)
    → Distinct hosts
    → ((h t : Bytes) → lookup h hosts ≡ some t → pending h cs ≡ some t)
    → IsFaithful cs
    → IsFaithful (save_hosts hosts cs)
unfolding save_hosts new_hostname_event
save_hosts-IsFaithful [] cs d p f = f
save_hosts-IsFaithful ((k, t) ∷ hosts) cs (fresh, d) p f =
    save_hosts-IsFaithful hosts (save_host (new_hostname_event k t) ∷ cs) d
      (λ h u e.
        unfold pending in
        ground (arith, lookup-cons k h t hosts, eqb_iff k h, lookup-Fresh k hosts fresh, p h u))
      (p k t (rw (lookup-cons k k t hosts, eqb_refl k)), f)

process_hosts-IsValid : (s : Service) → IsValid s → IsValid (process_hosts s)
unfolding process_hosts written
process_hosts-IsValid s v = record {
  distinct = tt;
  table = λ h.
      ground (arith, lookup-nil {V = Bytes} h, pending-save_hosts h s.hosts s.calls, v.table h);
  faithful =
      save_hosts-IsFaithful s.hosts s.calls v.distinct (λ h t e. sym (v.table h) ∙ e) v.faithful;
}

same_hosts-IsValid :
    (s t : Service)
    → s.hosts ≡ t.hosts
    → ((h : Bytes) → pending h t.calls ≡ pending h s.calls)
    → (IsFaithful s.calls → IsFaithful t.calls)
    → IsValid s
    → IsValid t
same_hosts-IsValid s t e p f v = record {
  distinct = subst Distinct e v.distinct;
  table = λ h. ap (lookup h) (sym e) ∙ v.table h ∙ sym (p h);
  faithful = f v.faithful;
}

dispatch-IsValid :
    (l : Lookup) (o : Option Bytes) (e : Event) (r : RumEvent) (s : Service)
    → IsValid s
    → IsValid (dispatch (record { lookup_result = l; error = o }) e r s)
unfolding dispatch pending
dispatch-IsValid l (some x) e r s v = v
dispatch-IsValid found_lookup none e r s v = process_rum_event-IsValid r s v
dispatch-IsValid expired_lookup none e r s v = same_hosts-IsValid s _ refl (λ h. refl) (λ f. f) v
dispatch-IsValid not_found_lookup none e r s v = same_hosts-IsValid s _ refl (λ h. refl) (λ f. f) v

process_rum-IsValid :
    (query : Query) (now : ℕ) (e : Event) (r : RumEvent) (s : Service)
    → IsValid s
    → IsValid (process_rum query now e r s)
unfolding process_rum
process_rum-IsValid query now e r s v =
    let (reply, subs) = get_subscription query now r.subscription_id r.hostname s.subscriptions in
    dispatch-IsValid reply.lookup_result reply.error e r (record s { subscriptions = subs })
      (same_hosts-IsValid s _ refl (λ h. refl) (λ f. f) v)

module _ (create : Event → Outcome RumEvent) where
  event-IsValid :
      (query : Query) (now : ℕ) (e : Option Event) (s t : Service)
      → process_event create query now e s ≡ returns t
      → IsValid s
      → IsValid t
  unfolding process_event
  event-IsValid query now none s t p v = subst IsValid (returns-injective p) v
  event-IsValid query now (some e) s t p v = elim (Outcome-cases (create e)) [
    | inl (r, c) ↦
        let q : process_rum query now e r s ≡ t = returns-injective (ground arith) in
        subst IsValid q (process_rum-IsValid query now e r s v)
    | inr c ↦ let no_result : ⊥ = ground arith in absurd no_result
  ]

  step-IsValid : (i : Input) (s t : Service) → step create i s ≡ returns t → IsValid s → IsValid t
  unfolding step
  step-IsValid (event query now e) s t p v = event-IsValid query now e s t p v
  step-IsValid tick s t p v = subst IsValid (returns-injective p) (process_hosts-IsValid s v)

  -- Whatever events and ticks come and whatever the database answers, a run that does not panic
  -- keeps this: the table of hosts has distinct hosts, holds each host with the time of its latest
  -- event that was stored since the host was last written, and each host was written with the time
  -- of its latest event.
  pub run-IsValid :
      (inputs : List Input) (s t : Service)
      → run create inputs s ≡ returns t
      → IsValid s
      → IsValid t
  unfolding run
  run-IsValid [] s t p v = subst IsValid (returns-injective p) v
  run-IsValid (i ∷ inputs) s t p v = elim (Outcome-cases (step create i s)) [
    | inl (u, c) ↦ run-IsValid inputs u t (ground arith) (step-IsValid i s u c v)
    | inr c ↦ let no_result : ⊥ = ground arith in absurd no_result
  ]

  -- A tick behind any run of a new service that does not panic writes every host that was seen:
  -- afterwards none is pending.
  pub process_hosts-pending :
      (inputs : List Input) (subs : Subscriptions) (s : Service)
      → run create inputs (new subs) ≡ returns s
      → (h : Bytes) → pending h (process_hosts s).calls ≡ none
  process_hosts-pending inputs subs s p h =
      let v = process_hosts-IsValid s (run-IsValid inputs (new subs) s p (new-IsValid subs)) in
      sym (v.table h) ∙ (unfold process_hosts in lookup-nil h)
