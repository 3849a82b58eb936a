-- ===== src/Start/Running/Counting.antt =====
-- No event is lost or taken twice while the goroutines run.
use front_basicrum_go.Base.{
  ℕ, ◌+◌, ◌≤◌, Bytes, List, [], ◌∷◌, ◌++◌, Bool, true, false, Option, none, some, ◌≡◌, refl, sym,
  ap, arith, inl, inr, length, length-append, get_elem?, ltb, count, count-append, if◌then◌else◌,
}
use mathlib.Core.Path.{subst}
use front_basicrum_go.Base.Outcome.{Outcome, returns, Outcome-cases, returns-injective}
use front_basicrum_go.Values.{Values}
use front_basicrum_go.Types.{Event}
use front_basicrum_go.Beacon.Convert.{RumEvent}
use front_basicrum_go.Backup.Service.{mark}
use front_basicrum_go.Service.Subscriptions.{Query, Reply, Subscriptions, get_subscription}
use front_basicrum_go.Service.Process.{
  Call, Service, new, process_event, process_rum, process_rum_event, dispatch,
}
use front_basicrum_go.Server.Lifecycle.{Endpoint}
use front_basicrum_go.Start.Running.{
  archive_log, expired_log, unknown_log, Saving, System, spawned, kept, initial, serves, catches,
  takes, ticks, archives, Reach, here, next, accept, received, ticked, archive, serve_one, shut_one,
  flush_backup, length-modify,
}

-- The events for the log of all requests, and those for the two other logs.
unfoldable pub for_archive : List Saving → List ℕ
for_archive [] = []
for_archive (w ∷ ws) = elim w.log [
  | archive_log ↦ w.event ∷ for_archive ws
  | expired_log ↦ for_archive ws
  | unknown_log ↦ for_archive ws
]

unfoldable pub for_others : List Saving → List ℕ
for_others [] = []
for_others (w ∷ ws) = elim w.log [
  | archive_log ↦ for_others ws
  | expired_log ↦ w.event ∷ for_others ws
  | unknown_log ↦ w.event ∷ for_others ws
]

count-for_archive :
    (i : ℕ) (xs ys : List Saving)
    → count i (for_archive (xs ++ ys)) ≡ count i (for_archive xs) + count i (for_archive ys)
unfolding for_archive
count-for_archive i [] ys = omega arith
count-for_archive i (w ∷ xs) ys = ground (arith, count-for_archive i xs ys)

count-for_others :
    (i : ℕ) (xs ys : List Saving)
    → count i (for_others (xs ++ ys)) ≡ count i (for_others xs) + count i (for_others ys)
unfolding for_others
count-for_others i [] ys = omega arith
count-for_others i (w ∷ xs) ys = ground (arith, count-for_others i xs ys)

-- What is measured of the goroutines that start, with a backup and without.
measure-kept :
    (measure : List Saving → ℕ) (enabled : Bool) (ws : List Saving)
    → measure (kept enabled ws) ≡ (if enabled then measure ws else measure [])
unfolding kept
measure-kept measure true ws = refl
measure-kept measure false ws = refl

-- 1 for an address below `n`, and 0 for any other.
abbrev pub one : ℕ → ℕ → ℕ
one i n = if ltb i n then 1 else 0

module _ (enabled : Bool) where
  -- Each accepted event, and no other, is once among those that wait and those that were taken, and
  -- with a backup once among those for the log of all requests; it is for another log only once taken,
  -- and once at most.
  pub record IsCounted (s : System) : Type 0 where
    pub lengths : length s.heap ≡ length s.accepted
    pub handed_on : s.service.calls ≡ []
    pub once : (i : ℕ) → count i s.sending + count i s.taken ≡ one i (length s.accepted)
    pub logged :
        (i : ℕ)
        → count i (for_archive s.saving) + count i (for_archive s.given)
          ≡ (if enabled then one i (length s.accepted) else 0)
    pub others :
        (i : ℕ) → count i (for_others s.saving) + count i (for_others s.given) ≤ count i s.taken

  accept-IsCounted : (e : Event) (s : System) → IsCounted s → IsCounted (accept enabled e s)
  unfolding accept kept for_archive for_others
  accept-IsCounted e s c =
      let n = length s.heap in
      let w : Saving = record { log = archive_log; event = n } in
      record {
        lengths =
            omega
              (arith, length-append s.heap (e ∷ []), length-append s.accepted (e ∷ []), c.lengths);
        handed_on = c.handed_on;
        once = λ i. ground (
          arith,
          c.once i,
          c.lengths,
          length-append s.accepted (e ∷ []),
          count-append i s.sending (n ∷ []),
        );
        logged = λ i. ground (
          arith,
          c.logged i,
          c.lengths,
          length-append s.accepted (e ∷ []),
          count-for_archive i s.saving (kept enabled (w ∷ [])),
        );
        others =
            λ i. ground (arith, c.others i, count-for_others i s.saving (kept enabled (w ∷ [])));
      }

  -- A call of the service is one for another log at most.
  spawned-dispatch :
      (reply : Reply) (i : ℕ) (e : Event) (r : RumEvent) (s : Service) (j : ℕ)
      → s.calls ≡ []
      → (count j (for_archive (spawned i (dispatch reply e r s).calls)) ≡ 0)
        × (count j (for_others (spawned i (dispatch reply e r s).calls)) ≤ count j (i ∷ []))
  unfolding dispatch process_rum_event spawned for_archive for_others
  spawned-dispatch reply i e r s j h = ground arith

  module _ (create : Event → Outcome RumEvent) (query : Query) (now i j : ℕ) where
    abbrev IsSparing : List Call → Type 0
    IsSparing calls =
        (count j (for_archive (spawned i calls)) ≡ 0)
        × (count j (for_others (spawned i calls)) ≤ count j (i ∷ []))

    spawned-process_rum :
        (e : Event) (r : RumEvent) (s : Service)
        → s.calls ≡ []
        → IsSparing (process_rum query now e r s).calls
    unfolding process_rum
    spawned-process_rum e r s h =
        let (reply, subs) =
          get_subscription query now r.subscription_id r.hostname s.subscriptions in
        spawned-dispatch reply i e r (record s { subscriptions = subs }) j h

    spawned-process_event :
        (e : Option Event) (s t : Service)
        → s.calls ≡ []
        → process_event create query now e s ≡ returns t
        → IsSparing t.calls
    unfolding process_event spawned for_archive for_others
    spawned-process_event none s t h p =
        subst (λ (x : Service). IsSparing x.calls) (returns-injective p)
          (subst IsSparing (sym h) (refl, ground arith))
    spawned-process_event (some e) s t h p = elim (Outcome-cases (create e)) [
      | inr bad ↦ cc
      | inl (r, good) ↦
          subst (λ (x : Service). IsSparing x.calls) (returns-injective (rw good at p))
            (spawned-process_rum e r s h)
    ]

  received-IsCounted :
      (create : Event → Outcome RumEvent) (query : Query) (now : ℕ) (before after : List ℕ) (i : ℕ)
      (service : Service) (s : System)
      → s.sending ≡ before ++ i ∷ after
      → process_event create query now (get_elem? s.heap i) s.service ≡ returns service
      → IsCounted s
      → IsCounted (received enabled i (before ++ after) service s)
  unfolding received kept for_archive for_others
  received-IsCounted create query now before after i service s waits done c = record {
    lengths = c.lengths;
    handed_on = refl;
    once = λ j. ground (
      arith,
      c.once j,
      ap (count j) waits,
      count-append j before (i ∷ after),
      count-append j before after,
      count-append j s.taken (i ∷ []),
    );
    logged = λ j. ground (
      arith,
      c.logged j,
      spawned-process_event create query now i j (get_elem? s.heap i) s.service service c.handed_on
          done,
      count-for_archive j s.saving (kept enabled (spawned i service.calls)),
      measure-kept (λ x. count j (for_archive x)) enabled (spawned i service.calls),
    );
    others = λ j. ground (
      arith,
      c.others j,
      spawned-process_event create query now i j (get_elem? s.heap i) s.service service c.handed_on
          done,
      count-for_others j s.saving (kept enabled (spawned i service.calls)),
      measure-kept (λ x. count j (for_others x)) enabled (spawned i service.calls),
      count-append j s.taken (i ∷ []),
    );
  }

  archive-IsCounted :
      (to_json : Values → Bytes) (before after : List Saving) (w : Saving) (s : System)
      → s.saving ≡ before ++ w ∷ after
      → IsCounted s
      → IsCounted (archive to_json w (before ++ after) s)
  unfolding archive
  archive-IsCounted to_json before after w s waits c = record {
    lengths = omega (arith, length-modify w.event (mark to_json) s.heap, c.lengths);
    handed_on = c.handed_on;
    once = c.once;
    logged = λ j. ground (
      arith,
      c.logged j,
      ap (λ x. count j (for_archive x)) waits,
      count-for_archive j before (w ∷ after),
      count-for_archive j (w ∷ []) after,
      count-for_archive j before after,
      count-for_archive j s.given (w ∷ []),
    );
    others = λ j. ground (
      arith,
      c.others j,
      ap (λ x. count j (for_others x)) waits,
      count-for_others j before (w ∷ after),
      count-for_others j (w ∷ []) after,
      count-for_others j before after,
      count-for_others j s.given (w ∷ []),
    );
  }

module _ (create : Event → Outcome RumEvent) (parse_url : Bytes → Option Bytes)
    (to_json : Values → Bytes) (enabled : Bool) (subscriptions : Subscriptions)
    (servers : List Endpoint) where
  -- In every reachable state each accepted event, and no other, is once among those that wait on the
  -- channel and those that Service.Run has taken; with a backup it is once among those that wait for the
  -- log of all requests and those that this log was given, and without one never; and it is for another
  -- log only once it is taken, and once at most.
  pub Reach-IsCounted :
      {s : System}
      → Reach create parse_url to_json enabled (initial subscriptions servers) s
      → IsCounted enabled s
  unfolding initial new for_archive for_others ticked serve_one shut_one flush_backup
  Reach-IsCounted here = record {
    lengths = refl;
    handed_on = refl;
    once = λ i. ground arith;
    logged = λ i. ground arith;
    others = λ i. ground arith;
  }
  Reach-IsCounted (next {t} r (serves fails k v alive at fresh)) =
      let c = Reach-IsCounted r in
      record {
        lengths = c.lengths;
        handed_on = c.handed_on;
        once = c.once;
        logged = c.logged;
        others = c.others;
      }
  Reach-IsCounted (next {t} r (catches k v now events q w e alive at listens made)) =
      accept-IsCounted enabled e t (Reach-IsCounted r)
  Reach-IsCounted (next {t} r (takes query now before after i service alive waits done)) =
      received-IsCounted enabled create query now before after i service t waits done
        (Reach-IsCounted r)
  Reach-IsCounted (next {t} r (archives before after w alive waits)) =
      archive-IsCounted enabled to_json before after w t waits (Reach-IsCounted r)
  Reach-IsCounted (next {t} r (ticks alive)) =
      let c = Reach-IsCounted r in
      record {
        lengths = c.lengths;
        handed_on = refl;
        once = c.once;
        logged = c.logged;
        others = c.others;
      }
  Reach-IsCounted (next {t} r _) =
      let c = Reach-IsCounted r in
      record {
        lengths = c.lengths;
        handed_on = c.handed_on;
        once = c.once;
        logged = c.logged;
        others = c.others;
      }
