-- ===== src/Start/Running/Schedule.antt =====
-- Whatever the order in which the goroutines run, the service does what a run over the accepted events
-- does, in the order in which it took them.
pub mod Following
use front_basicrum_go.Base.{
  ℕ, Bytes, List, [], ◌∷◌, ◌++◌, Bool, Option, none, some, ◌≡◌, ◌≢◌, ◌∙◌, refl, sym, ap, arith,
  get_elem?, ◌⊎◌, inl, inr,
}
use mathlib.Core.Path.{subst}
use front_basicrum_go.Base.Outcome.{
  Outcome, returns, panics, Outcome-cases, returns-injective, ◌>>=◌,
}
use front_basicrum_go.Values.{Values}
use front_basicrum_go.Types.{Event}
use front_basicrum_go.Geoip
use front_basicrum_go.Beacon.Convert.{RumEvent, create}
use front_basicrum_go.Beacon.Laws.{create-add}
use front_basicrum_go.Backup.Service.{mark}
use front_basicrum_go.Service.Subscriptions.{Query, Subscriptions}
use front_basicrum_go.Service.Process.{
  Call, Service, new, process_event, process_hosts, Input, event, tick, step, run,
}
use front_basicrum_go.Server.Lifecycle.{Endpoint}
use front_basicrum_go.Start.Running.{
  IsAlive, System, Stage, serving, stopping, exited, crashed, Cause, bad_event, Dies, batch_panics,
  get_subscription_panics, save_panics, save_host_panics, saving_twice, saving_given, saving_taken,
  initial, Step, serves, catches, takes, crashes, dies, ticks, archives, signals, shuts, flushes,
  exits, Reach, here, next, accept, received, ticked, archive, serve_one, shut_one, flush_backup,
}
use front_basicrum_go.Start.Running.Marking.{
  AreMarked, AreMarked-accept, AreMarked-modify, AreMarked-get_elem?, Marked-create,
}
use front_basicrum_go.Start.Running.Agreement.{
  stored, Agree, Agree-same, process_hosts-Agree, process_event-Agree,
}

-- The system beside a run: it has crashed at an event where the run panics, and in any other state the
-- hosts, the subscriptions and the calls of the database are those of the run.
abbrev pub Follows : Stage → Service → List Call → Outcome Service → Type 0
Follows stage s calls (returns t) = (stage ≢ crashed bad_event) × Agree s calls t
Follows stage s calls panics = stage ≡ crashed bad_event

module _ (make : Event → Outcome RumEvent) (parse_url : Bytes → Option Bytes)
    (to_json : Values → Bytes) (enabled : Bool) (subscriptions : Subscriptions)
    (servers : List Endpoint) where
  -- What Service.Run took on the way to a state: the events as they were accepted, and the ticks.
  unfoldable pub inputs_of :
      {s : System}
      → Reach make parse_url to_json enabled (initial subscriptions servers) s
      → List Input
  inputs_of here = []
  inputs_of (next {t} r (takes query now before after i service alive waits done)) =
      inputs_of r ++ event query now (get_elem? t.accepted i) ∷ []
  inputs_of (next {t} r (crashes query now before after i alive waits done)) =
      inputs_of r ++ event query now (get_elem? t.accepted i) ∷ []
  inputs_of (next r (ticks alive)) = inputs_of r ++ tick ∷ []
  inputs_of (next r (dies cause alive how)) = inputs_of r
  inputs_of (next r (serves fails k v alive at fresh)) = inputs_of r
  inputs_of (next r (catches k v now events q w e alive at listens made)) = inputs_of r
  inputs_of (next r (archives before after w alive waits)) = inputs_of r
  inputs_of (next r (signals at)) = inputs_of r
  inputs_of (next r (shuts error k v at there fresh)) = inputs_of r
  inputs_of (next r (flushes at fresh)) = inputs_of r
  inputs_of (next r (exits at done stopped)) = inputs_of r

  run-append :
      (is : List Input) (i : Input) (s : Service)
      → run make (is ++ i ∷ []) s ≡ (run make is s >>= step make i)
  unfolding run
  run-append [] i s = elim (Outcome-cases (step make i s)) [
    | inl (t, e) ↦ rw e refl
    | inr e ↦ rw e refl
  ]
  run-append (j ∷ is) i s = elim (Outcome-cases (step make j s)) [
    | inl (t, e) ↦ rw e (run-append is i t)
    | inr e ↦ rw e refl
  ]

  not-crashed : (stage : Stage) → IsAlive stage → stage ≢ crashed bad_event
  not-crashed serving alive = λ h. cc
  not-crashed stopping alive = λ h. cc
  not-crashed (exited n) alive = elim alive [ ]
  not-crashed (crashed c) alive = elim alive [ ]

  Follows-stage :
      (old later : Stage) (s : Service) (calls : List Call) (m : Outcome Service)
      → IsAlive old
      → later ≢ crashed bad_event
      → Follows old s calls m
      → Follows later s calls m
  Follows-stage old later s calls (returns t) alive fine (_, a) = (fine, a)
  Follows-stage old later s calls panics alive fine h = absurd (not-crashed old alive h)

  -- A process that dies in another way than at an event has another cause.
  Dies-cause : {s : System} {c : Cause} → Dies make parse_url s c → crashed c ≢ crashed bad_event
  Dies-cause (batch_panics before after w e there at bad) = λ h. cc
  Dies-cause (get_subscription_panics before after i e r cache waits at made c l) = λ h. cc
  Dies-cause (save_panics query now before after i service r calls waits done c) = λ h. cc
  Dies-cause (save_host_panics host hosts there) = λ h. cc
  Dies-cause (saving_twice before after w v waits m same) = λ h. cc
  Dies-cause (saving_given before after w v waits m same) = λ h. cc
  Dies-cause (saving_taken before after w waits m) = λ h. cc

  Follows-tick :
      (stage : Stage) (s : Service) (calls : List Call) (m : Outcome Service)
      → IsAlive stage
      → Follows stage s calls m
      → Follows stage
          (record (process_hosts s) { calls = [] })
          ((process_hosts s).calls ++ calls)
          (m >>= step make tick)
  unfolding step
  Follows-tick stage s calls (returns t) alive (fine, a) = (fine, process_hosts-Agree calls s t a)
  Follows-tick stage s calls panics alive h = h

  module _ (same : (e : Event) → make (mark to_json e) ≡ make e) (query : Query) (now : ℕ) where
    -- The event of an address, on the heap and as it was accepted, to a service and to the run.
    taken_with :
        (stage : Stage) (i : ℕ) (accepted heap : List Event) (calls : List Call) (s t : Service)
        → AreMarked to_json accepted heap
        → IsAlive stage
        → Agree s calls t
        → ((process_event make query now (get_elem? heap i) s ≡ panics)
            × (process_event make query now (get_elem? accepted i) t ≡ panics))
          ⊎ ((s' : Service) × (t' : Service) × (process_event make query now (get_elem? heap i) s
                ≡ returns s')
              × (process_event make query now (get_elem? accepted i) t ≡ returns t')
              × Agree (record s' { calls = [] }) (s'.calls ++ calls) t')
    unfolding process_event
    taken_with stage i accepted heap calls s t m alive a =
        elim (AreMarked-get_elem? to_json i accepted heap m) [
          | inl (p, q) ↦ rw (p, q) (inr (s, t, refl, refl, Agree-same calls s t a))
          | inr (e, h, p, q, marked) ↦
              rw (p, q)
                (process_event-Agree make query now h e calls s t
                  (Marked-create to_json make same marked) a)
        ]

    Follows-takes :
        (stage : Stage) (i : ℕ) (accepted heap : List Event) (calls : List Call) (s s' : Service)
        (m : Outcome Service)
        → AreMarked to_json accepted heap
        → IsAlive stage
        → process_event make query now (get_elem? heap i) s ≡ returns s'
        → Follows stage s calls m
        → Follows stage
            (record s' { calls = [] })
            (s'.calls ++ calls)
            (m >>= step make (event query now (get_elem? accepted i)))
    unfolding step
    Follows-takes stage i accepted heap calls s s' panics m alive p h = h
    Follows-takes stage i accepted heap calls s s' (returns t) m alive p (fine, a) =
        elim (taken_with stage i accepted heap calls s t m alive a) [
          | inl (bad, _) ↦ cc
          | inr (u, t', q, run', b) ↦ rw run' (
            fine,
            subst (λ x. Agree (record x { calls = [] }) (x.calls ++ calls) t')
                (returns-injective (sym q ∙ p)) b,
          )
        ]

    Follows-crashes :
        (stage : Stage) (i : ℕ) (accepted heap : List Event) (calls : List Call) (s : Service)
        (m : Outcome Service)
        → AreMarked to_json accepted heap
        → IsAlive stage
        → process_event make query now (get_elem? heap i) s ≡ panics
        → Follows stage s calls m
        → Follows
            (crashed bad_event)
            s
            calls
            (m >>= step make (event query now (get_elem? accepted i)))
    unfolding step
    Follows-crashes stage i accepted heap calls s panics m alive p h = refl
    Follows-crashes stage i accepted heap calls s (returns t) m alive p (fine, a) =
        elim (taken_with stage i accepted heap calls s t m alive a) [
          | inl (_, bad) ↦ rw bad refl
          | inr (u, t', q, run', b) ↦ cc
        ]
