-- ===== src/Start/Running/Schedule/Following.antt =====
-- The service does what a run over the accepted events does, in every reachable state.
use front_basicrum_go.Base.{Bytes, List, [], ◌∷◌, ◌++◌, Bool, Option, ◌≡◌, refl, sym, get_elem?}
use mathlib.Core.Path.{subst}
use front_basicrum_go.Base.Outcome.{Outcome, ◌>>=◌}
use front_basicrum_go.Values.{Values}
use front_basicrum_go.Types.{Event}
use front_basicrum_go.Geoip
use front_basicrum_go.Beacon.Convert.{RumEvent, create}
use front_basicrum_go.Beacon.Laws.{create-add}
use front_basicrum_go.Backup.Service.{mark}
use front_basicrum_go.Service.Subscriptions.{Subscriptions}
use front_basicrum_go.Service.Process.{
  Call, Service, new, process_hosts, Input, event, tick, step, run,
}
use front_basicrum_go.Server.Lifecycle.{Endpoint}
use front_basicrum_go.Start.Running.{
  IsAlive, System, Stage, stopping, exited, crashed, bad_event, initial, serves, catches, takes,
  crashes, dies, ticks, archives, signals, shuts, flushes, exits, Reach, here, next, accept,
  received, ticked, archive, serve_one, shut_one, flush_backup,
}
use front_basicrum_go.Start.Running.Marking.{AreMarked, AreMarked-accept, AreMarked-modify}
use front_basicrum_go.Start.Running.Agreement.{stored}
use front_basicrum_go.Start.Running.Schedule.{
  inputs_of, Follows, run-append, Follows-stage, Follows-tick, Dies-cause, Follows-takes,
  Follows-crashes,
}

module _ (make : Event → Outcome RumEvent) (parse_url : Bytes → Option Bytes)
    (to_json : Values → Bytes) (enabled : Bool) (subscriptions : Subscriptions)
    (servers : List Endpoint) where
  module _ (same : (e : Event) → make (mark to_json e) ≡ make e) where
    Follows-append :
        (stage : Stage) (s : Service) (calls : List Call) (is : List Input) (i : Input)
        → Follows stage s calls (run make is (new subscriptions) >>= step make i)
        → Follows stage s calls (run make (is ++ i ∷ []) (new subscriptions))
    Follows-append stage s calls is i h =
        subst (Follows stage s calls)
          (sym (
            run-append make parse_url to_json enabled subscriptions servers is i
              (new subscriptions)))
          h

    -- Where no mark shows in the rum event of an event, every reachable state follows the run.
    pub run-Follows :
        {s : System} (r : Reach make parse_url to_json enabled (initial subscriptions servers) s)
        → AreMarked to_json s.accepted s.heap
          × Follows s.stage s.service s.calls (
              run make
                (inputs_of make parse_url to_json enabled subscriptions servers r)
                (new subscriptions))
    unfolding inputs_of initial new run accept received ticked archive serve_one shut_one
        flush_backup stored
    run-Follows here = (
      tt,
      (λ h. cc, record { handed_on = refl; hosts = refl; subscriptions = refl; same_calls = refl }),
    )
    run-Follows (next {t} r (takes query now before after i service alive waits done)) =
        let (m, f) = run-Follows r in
        (
          m,
          Follows-append t.stage (record service { calls = [] }) (service.calls ++ t.calls)
              (inputs_of make parse_url to_json enabled subscriptions servers r)
              (event query now (get_elem? t.accepted i))
              (Follows-takes make parse_url to_json enabled subscriptions servers same query now
                t.stage i t.accepted t.heap t.calls t.service service
                (run make (inputs_of make parse_url to_json enabled subscriptions servers r)
                  (new subscriptions))
                m alive done f),
        )
    run-Follows (next {t} r (crashes query now before after i alive waits done)) =
        let (m, f) = run-Follows r in
        (
          m,
          Follows-append (crashed bad_event) t.service t.calls
              (inputs_of make parse_url to_json enabled subscriptions servers r)
              (event query now (get_elem? t.accepted i))
              (Follows-crashes make parse_url to_json enabled subscriptions servers same query now
                t.stage i t.accepted t.heap t.calls t.service
                (run make (inputs_of make parse_url to_json enabled subscriptions servers r)
                  (new subscriptions))
                m alive done f),
        )
    run-Follows (next {t} r (ticks alive)) =
        let (m, f) = run-Follows r in
        (
          m,
          Follows-append t.stage (record (process_hosts t.service) { calls = [] })
              ((process_hosts t.service).calls ++ t.calls)
              (inputs_of make parse_url to_json enabled subscriptions servers r) tick
              (Follows-tick make parse_url to_json enabled subscriptions servers t.stage t.service
                t.calls
                (run make (inputs_of make parse_url to_json enabled subscriptions servers r)
                  (new subscriptions))
                alive f),
        )
    run-Follows (next {t} r (dies cause alive how)) =
        let (m, f) = run-Follows r in
        (
          m,
          Follows-stage make parse_url to_json enabled subscriptions servers t.stage (crashed cause)
              t.service t.calls
              (run make (inputs_of make parse_url to_json enabled subscriptions servers r)
                (new subscriptions))
              alive (Dies-cause make parse_url to_json enabled subscriptions servers how) f,
        )
    run-Follows (next r (serves fails k v alive at fresh)) = run-Follows r
    run-Follows (next {t} r (catches k v now events q w e alive at listens made)) =
        let (m, f) = run-Follows r in (AreMarked-accept to_json t.accepted t.heap e m, f)
    run-Follows (next {t} r (archives before after w alive waits)) =
        let (m, f) = run-Follows r in (AreMarked-modify to_json w.event t.accepted t.heap m, f)
    run-Follows (next {t} r (signals at)) =
        let (m, f) = run-Follows r in
        (
          m,
          Follows-stage make parse_url to_json enabled subscriptions servers t.stage stopping
              t.service t.calls
              (run make (inputs_of make parse_url to_json enabled subscriptions servers r)
                (new subscriptions))
              (subst IsAlive (sym at) tt) (λ h. cc) f,
        )
    run-Follows (next r (shuts error k v at there fresh)) = run-Follows r
    run-Follows (next r (flushes at fresh)) = run-Follows r
    run-Follows (next {t} r (exits at done stopped)) =
        let (m, f) = run-Follows r in
        (
          m,
          Follows-stage make parse_url to_json enabled subscriptions servers t.stage (exited _)
              t.service t.calls
              (run make (inputs_of make parse_url to_json enabled subscriptions servers r)
                (new subscriptions))
              (subst IsAlive (sym at) tt) (λ h. cc) f,
        )

module _ (parse_url : Bytes → Option Bytes) (geo : Option Geoip.Service) (to_json : Values → Bytes)
    (enabled : Bool) (subscriptions : Subscriptions) (servers : List Endpoint) where
  pub mark-create : (e : Event) → create parse_url geo (mark to_json e) ≡ create parse_url geo e
  unfolding mark
  mark-create e = create-add parse_url geo e (to_json e.request_parameters)
