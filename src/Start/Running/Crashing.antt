-- ===== src/Start/Running/Crashing.antt =====
-- What an event whose parameter `u` is no URL does to the process.
use mathlib.Core.Path.{subst}
use front_basicrum_go.Base.{
  ℕ, ◌≤◌, count, Bytes, List, ◌∷◌, ◌++◌, Bool, Option, none, ◌≡◌, sym, get_elem?,
}
use front_basicrum_go.Values.{Values}
use front_basicrum_go.Geoip
use front_basicrum_go.Beacon.Convert.{create}
use front_basicrum_go.Service.Subscriptions.{Query, Subscriptions, answer}
use front_basicrum_go.Server.Lifecycle.{Endpoint}
use front_basicrum_go.Start.Running.{
  System, Stage, serving, stopping, exited, crashed, Cause, bad_event, bad_batch, Saving, Dies,
  batch_panics, get_subscription_panics, save_panics, save_host_panics, saving_twice, saving_given,
  saving_taken, IsAlive, initial, Step, serves, catches, takes, crashes, dies, ticks, archives,
  signals, shuts, flushes, exits, Reach, here, next, accept, received, ticked, archive, serve_one,
  shut_one, flush_backup,
}
use front_basicrum_go.Start.Running.Marking.{AreMarked}
use front_basicrum_go.Start.Running.Breaking.{
  HasBroken, process_event-panics, panics-process_event, broken_of_heap, marked, panics_on_heap,
  make_key_hostname-panics,
}
use front_basicrum_go.Start.Running.Surviving.{Reach-IsSurvived}

module _ (parse_url : Bytes → Option Bytes) (geo : Option Geoip.Service) (to_json : Values → Bytes)
    (enabled : Bool) (subscriptions : Subscriptions) (servers : List Endpoint) where
  -- The causes that an event with a broken URL is behind.
  abbrev pub IsBad : Stage → Type 0
  IsBad (crashed bad_event) = Unit
  IsBad (crashed bad_batch) = Unit
  IsBad _ = ⊥

  IsAlive-IsBad : (stage : Stage) → IsAlive stage → IsBad stage → ⊥
  IsAlive-IsBad serving alive h = h
  IsAlive-IsBad stopping alive h = h
  IsAlive-IsBad (exited n) alive h = h
  IsAlive-IsBad (crashed c) alive h = alive

  Dies-IsBad :
      {t : System} {c : Cause}
      → AreMarked to_json t.accepted t.heap
      → Dies (create parse_url geo) parse_url t c
      → IsBad (crashed c)
      → (i : ℕ) × HasBroken parse_url t.accepted i
  Dies-IsBad {t} m (batch_panics before after w e given there bad) h = (
    w.event,
    broken_of_heap parse_url geo to_json enabled subscriptions servers t.accepted t.heap w.event e m
        there
        ((make_key_hostname-panics parse_url geo to_json enabled subscriptions servers e).1 bad),
  )
  Dies-IsBad m (get_subscription_panics before after i e r cache waits at made c l) h = absurd h
  Dies-IsBad m (save_panics query now before after i service r calls waits done c) h = absurd h
  Dies-IsBad m (save_host_panics host hosts there) h = absurd h
  Dies-IsBad m (saving_twice before after w v waits e same) h = absurd h
  Dies-IsBad m (saving_given before after w v waits e same) h = absurd h
  Dies-IsBad m (saving_taken before after w waits e) h = absurd h

  crash-Step :
      {t u : System}
      → AreMarked to_json t.accepted t.heap
      → Step (create parse_url geo) parse_url to_json enabled t u
      → IsBad u.stage
      → (i : ℕ) × HasBroken parse_url u.accepted i
  unfolding accept received ticked archive serve_one shut_one flush_backup
  crash-Step {t} m (crashes query now before after i alive waits bad) h =
      let (e, there, panic) =
        process_event-panics (create parse_url geo) query now (get_elem? t.heap i) t.service bad in
      (
        i,
        broken_of_heap parse_url geo to_json enabled subscriptions servers t.accepted t.heap i e m
            there panic,
      )
  crash-Step {t} m (dies cause alive how) h = Dies-IsBad m how h
  crash-Step {t} m (serves fails k v alive at fresh) h = absurd (IsAlive-IsBad t.stage alive h)
  crash-Step {t} m (catches k v now events q w e alive at listens made) h =
      absurd (IsAlive-IsBad t.stage alive h)
  crash-Step {t} m (takes query now before after i service alive waits done) h =
      absurd (IsAlive-IsBad t.stage alive h)
  crash-Step {t} m (ticks alive) h = absurd (IsAlive-IsBad t.stage alive h)
  crash-Step {t} m (archives before after w alive waits) h = absurd (IsAlive-IsBad t.stage alive h)
  crash-Step m (signals at) h = absurd h
  crash-Step {t} m (shuts error k v at there fresh) h =
      absurd (IsAlive-IsBad t.stage (subst IsAlive (sym at) tt) h)
  crash-Step {t} m (flushes at fresh) h =
      absurd (IsAlive-IsBad t.stage (subst IsAlive (sym at) tt) h)
  crash-Step m (exits at done stopped) h = absurd h

  broken_of_crash :
      {s : System}
      → Reach (create parse_url geo) parse_url to_json enabled (initial subscriptions servers) s
      → IsBad s.stage
      → (i : ℕ) × HasBroken parse_url s.accepted i
  unfolding initial
  broken_of_crash here h = absurd h
  broken_of_crash (next r st) h =
      crash-Step (marked parse_url geo to_json enabled subscriptions servers r) st h

  -- In every reachable state: no event that the service has taken has a parameter `u` that is no URL;
  -- when processEvent or the work function of a batcher has ended the process with its panic, such an
  -- event was accepted; and as long as the program runs, the next step can be that panic of
  -- processEvent for each such event that waits on the channel, and that panic of a batcher for each
  -- such event that a log was given.
  pub Reach-crashed :
      {s : System}
      → Reach (create parse_url geo) parse_url to_json enabled (initial subscriptions servers) s
      → ((i : ℕ) → 1 ≤ count i s.taken → ¬ HasBroken parse_url s.accepted i)
        × (IsBad s.stage → (i : ℕ) × HasBroken parse_url s.accepted i)
        × ((before after : List ℕ) (i : ℕ)
            → IsAlive s.stage
            → s.sending ≡ before ++ i ∷ after
            → HasBroken parse_url s.accepted i
            → Step
                (create parse_url geo)
                parse_url
                to_json
                enabled
                s
                (record s { stage = crashed bad_event }))
        × ((before after : List Saving) (w : Saving)
            → IsAlive s.stage
            → s.given ≡ before ++ w ∷ after
            → HasBroken parse_url s.accepted w.event
            → Step
                (create parse_url geo)
                parse_url
                to_json
                enabled
                s
                (record s { stage = crashed bad_batch }))
  Reach-crashed {s} r = (
    Reach-IsSurvived parse_url geo to_json enabled subscriptions servers r,
    broken_of_crash r,
    λ before after i alive waits broken.
        let (h, there, bad) =
          panics_on_heap parse_url geo to_json enabled subscriptions servers s.accepted s.heap i
            (marked parse_url geo to_json enabled subscriptions servers r) broken in
        crashes no_database 0 before after i alive waits (
          panics-process_event (create parse_url geo) no_database 0 (get_elem? s.heap i) h s.service
            there bad),
    λ before after w alive given broken.
        let (h, there, bad) =
          panics_on_heap parse_url geo to_json enabled subscriptions servers s.accepted s.heap
            w.event (marked parse_url geo to_json enabled subscriptions servers r) broken in
        dies bad_batch alive (
          batch_panics before after w h given there (
            (make_key_hostname-panics parse_url geo to_json enabled subscriptions servers h).0
              bad)),
  )
    where
      no_database : Query
      no_database id = answer none
