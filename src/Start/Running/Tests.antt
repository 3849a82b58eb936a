-- ===== src/Start/Running/Tests.antt =====
-- A program with one server: a beacon is taken, logged, stored, and the program is stopped.
use front_basicrum_go.Base.{
  ℕ, Bytes, List, [], ◌∷◌, ◌++◌, true, false, Option, none, some, ◌≡◌, ◌↔◌, ◌⊎◌, refl, codes, eqb,
  get_elem?, All, ◌≤◌, count,
}
use mathlib.Core.List.{Memᴰ}
use front_basicrum_go.Base.Assoc.{lookup, insert}
use front_basicrum_go.Base.Outcome.{returns}
use front_basicrum_go.Values.{Values, has, set, get}
use front_basicrum_go.Types.{Event, new_event}
use front_basicrum_go.Geoip as Geo
use front_basicrum_go.Beacon.Convert.{RumEvent, create}
use front_basicrum_go.Beacon.Laws.{with_headers}
use front_basicrum_go.Backup.Service.{mark}
use front_basicrum_go.Service.Subscriptions.{Query, answer, disabled}
use front_basicrum_go.Service.Process.{new, process_event, process_rum_event}
use front_basicrum_go.Server.Http.{Request, fresh, invalid}
use front_basicrum_go.Server.Events.{
  forwarded_for, get_ip, apply_event_form_defaults, new_event_from_request,
}
use front_basicrum_go.Server.Handlers.{catcher, method_post}
use front_basicrum_go.Server.Catching.{catcher-stored}
use front_basicrum_go.Server.Lifecycle.{new_endpoint, serve, shutdown, shutdown_error}
use front_basicrum_go.Start.Running.{
  Saving, archive_log, System, stopping, exited, crashed, bad_event, bad_batch, shared_map,
  saving_taken, dies, IsAlive, AreStopped, exit_status, initial, Step, serves, catches, takes,
  archives, signals, shuts, flushes, exits, Reach, here, next, serve_one, accept, archive, received,
  shut_one, flush_backup, modify,
}
use front_basicrum_go.Start.{stop_servers}
use front_basicrum_go.Start.Running.Counting.{IsCounted, Reach-IsCounted}
use front_basicrum_go.Start.Running.Lines.{SameLine, archive-SameLine}
use front_basicrum_go.Start.Running.Results.{IsDown}
use front_basicrum_go.Start.Running.Results.Status.{exit-status}
use front_basicrum_go.Start.Running.Breaking.{HasBroken}
use front_basicrum_go.Start.Running.Crashing.{IsBad, Reach-crashed}

abbrev parse_url : Bytes → Option Bytes
parse_url [] = none
parse_url (c ∷ s) = some (c ∷ s)

abbrev no_geo : Option Geo.Service
no_geo = none

abbrev database : Query
database id = answer none

abbrev to_json : Values → Bytes
to_json v = []

abbrev form : Values
form = (codes "u", codes "shop" ∷ []) ∷ []

abbrev beacon : Request
beacon = record {
  method = method_post;
  header = (forwarded_for, b'1' ∷ b',' ∷ b'2' ∷ []) ∷ [];
  remote_addr = b'9' ∷ [];
  user_agent = [];
  form = some form;
  decoded = invalid [];
}

abbrev caught : Event
caught = new_event (apply_event_form_defaults (codes "noon") form) beacon.header [] (get_ip beacon)

abbrev none_started : System
none_started = initial disabled (new_endpoint ∷ [])

abbrev up : System
up = serve_one false 0 none_started

abbrev one_event : System
one_event = accept true caught up

abbrev first_saving : Saving
first_saving = record { log = archive_log; event = 0 }

abbrev one_logged : System
one_logged = archive to_json first_saving [] one_event

abbrev Way : System → Type 0
Way s = Reach (create parse_url no_geo) parse_url to_json true none_started s

way_up : Way up
unfolding initial
way_up = next here (serves false 0 new_endpoint tt refl refl)

way_one_event : Way one_event
unfolding initial serve_one modify serve catcher eqb codes new_event_from_request
way_one_event =
    next way_up (
      catches 0 (serve false new_endpoint) (codes "noon") none beacon fresh caught tt refl refl
        refl)

way_one_logged : Way one_logged
unfolding initial serve_one accept
way_one_logged = next way_one_event (archives [] [] first_saving tt refl)

abbrev Stored : RumEvent → Type 0
Stored rum =
    process_event (create parse_url no_geo) database 5 (some (with_headers caught []))
      (new disabled)
    ≡ returns (process_rum_event rum (new disabled))

beacon-Stored : (rum : RumEvent) × Stored rum
unfolding new_event_from_request new new_event apply_event_form_defaults has get set insert lookup
    eqb codes
beacon-Stored =
    let (rum, _, p, _, _, _) =
      catcher-stored parse_url no_geo (codes "noon") [] database 5 beacon form (codes "shop") caught
        (new disabled) refl refl refl refl in
    (rum, p)

abbrev one_stored : System
one_stored = received true 0 [] (process_rum_event beacon-Stored.0 (new disabled)) one_logged

take_one : Step (create parse_url no_geo) parse_url to_json true one_logged one_stored
unfolding initial serve_one accept archive modify mark
take_one =
    takes database 5 [] [] 0 (process_rum_event beacon-Stored.0 (new disabled)) tt refl
      beacon-Stored.1

way_one_stored : Way one_stored
way_one_stored = next way_one_logged take_one

Reach-IsCounted_example : IsCounted true one_stored
Reach-IsCounted_example =
    Reach-IsCounted (create parse_url no_geo) parse_url to_json true disabled (new_endpoint ∷ [])
      way_one_stored

-- Behind the signal the server fails to shut down, and main ends with status 1.
abbrev stopped : System
stopped =
    record (shut_one (some (codes "deadline")) 0 (serve false new_endpoint)
      (record up { stage = stopping })) { stage = stopping }

abbrev ended : System
ended = record (flush_backup stopped) { stage = exited 1 }

way_ended : Way ended
unfolding initial serve_one modify serve shut_one flush_backup shutdown shutdown_error exit_status
    stop_servers
way_ended =
    next
      (next
        (next (next way_up (signals refl))
          (shuts (some (codes "deadline")) 0 (serve false new_endpoint) refl refl refl))
        (flushes refl refl))
      (exits refl refl ((some (codes "deadline"), refl), tt))

exit-status_example :
    AreStopped ended.servers
    × (◌≡◌ {A = ℕ} 1 0 ↔ All IsDown ended.servers)
    × (◌≡◌ {A = ℕ} 1 0 ⊎ ◌≡◌ {A = ℕ} 1 1)
exit-status_example =
    exit-status (create parse_url no_geo) parse_url to_json true disabled (new_endpoint ∷ [])
      (refl, tt) ended 1 way_ended refl

archive-SameLine_example :
    (f : Event) × (get_elem? one_stored.heap 0 ≡ some f)
    × SameLine to_json parse_url (λ m. []) f (mark to_json caught)
unfolding initial serve_one accept
archive-SameLine_example =
    archive-SameLine to_json parse_url (λ m. []) (create parse_url no_geo) true one_event one_stored
      first_saving [] caught refl (next here take_one)

-- A request with no parameter `u`.
abbrev no_url : Request
no_url = record beacon { form = some [] }

abbrev broken : Event
broken = new_event (apply_event_form_defaults (codes "noon") []) no_url.header [] (get_ip no_url)

abbrev one_broken : System
one_broken = accept true broken up

way_one_broken : Way one_broken
unfolding initial serve_one modify serve catcher eqb codes new_event_from_request
way_one_broken =
    next way_up (
      catches 0 (serve false new_endpoint) (codes "noon") none no_url fresh broken tt refl refl
        refl)

abbrev broken_saving : Saving
broken_saving = record { log = archive_log; event = 0 }

-- The log was given the event.
abbrev broken_given : System
broken_given = archive to_json broken_saving [] one_broken

way_broken_given : Way broken_given
unfolding initial serve_one accept
way_broken_given = next way_one_broken (archives [] [] broken_saving tt refl)

abbrev Broken : ℕ → Type 0
Broken i = HasBroken parse_url broken_given.accepted i

Reach-crashed_example :
    ((i : ℕ) → 1 ≤ count i broken_given.taken → ¬ Broken i)
    × (IsBad parse_url no_geo to_json true disabled (new_endpoint ∷ []) broken_given.stage
        → (i : ℕ) × Broken i)
    × ((before after : List ℕ) (i : ℕ)
        → IsAlive broken_given.stage
        → broken_given.sending ≡ before ++ i ∷ after
        → Broken i
        → Step
            (create parse_url no_geo)
            parse_url
            to_json
            true
            broken_given
            (record broken_given { stage = crashed bad_event }))
    × ((before after : List Saving) (w : Saving)
        → IsAlive broken_given.stage
        → broken_given.given ≡ before ++ w ∷ after
        → Broken w.event
        → Step
            (create parse_url no_geo)
            parse_url
            to_json
            true
            broken_given
            (record broken_given { stage = crashed bad_batch }))
Reach-crashed_example =
    Reach-crashed parse_url no_geo to_json true disabled (new_endpoint ∷ []) way_broken_given

zero-Broken : Broken 0
unfolding archive accept initial serve_one new_event get set apply_event_form_defaults lookup insert
    has eqb codes
zero-Broken = (broken, refl, refl)

crash_event :
    Step
      (create parse_url no_geo)
      parse_url
      to_json
      true
      broken_given
      (record broken_given { stage = crashed bad_event })
unfolding archive accept initial serve_one
crash_event =
    (Reach-crashed parse_url no_geo to_json true disabled (new_endpoint ∷ []) way_broken_given).2 []
      [] 0 tt refl zero-Broken

crash_batch :
    Step
      (create parse_url no_geo)
      parse_url
      to_json
      true
      broken_given
      (record broken_given { stage = crashed bad_batch })
unfolding archive accept initial serve_one
crash_batch =
    (Reach-crashed parse_url no_geo to_json true disabled (new_endpoint ∷ []) way_broken_given).3 []
      [] broken_saving tt refl zero-Broken

-- The service takes the event while the goroutine of the log is to change it.
shared_one :
    Step
      (create parse_url no_geo)
      parse_url
      to_json
      true
      one_broken
      (record one_broken { stage = crashed shared_map })
unfolding accept initial serve_one
shared_one = dies shared_map tt (saving_taken [] [] broken_saving refl (Memᴰ.head refl))
