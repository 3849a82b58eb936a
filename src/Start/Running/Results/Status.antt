-- ===== src/Start/Running/Results/Status.antt =====
-- The status that main ends with.
use front_basicrum_go.Base.{
  ℕ, Bytes, List, [], ◌∷◌, Bool, true, false, ◌&&◌, Option, none, some, ◌≡◌, ◌≢◌, ◌∙◌, ◌↔◌, refl,
  sym, ap, arith, All, ◌⊎◌, inl, inr,
}
use mathlib.Core.Path.{subst}
use front_basicrum_go.Base.Outcome.{Outcome}
use front_basicrum_go.Values.{Values}
use front_basicrum_go.Types.{Event}
use front_basicrum_go.Beacon.Convert.{RumEvent}
use front_basicrum_go.Service.Subscriptions.{Subscriptions}
use front_basicrum_go.Server.Lifecycle.{Endpoint, shutdown_error}
use front_basicrum_go.Start.{stop_servers}
use front_basicrum_go.Start.Running.{
  System, Stage, serving, stopping, exited, crashed, IsAlive, AreStopped, AreNew, exit_status,
  initial, serves, catches, takes, crashes, dies, ticks, archives, signals, shuts, flushes, exits,
  Reach, here, next, accept, received, ticked, archive, serve_one, shut_one, flush_backup,
}
use front_basicrum_go.Start.Running.Results.{
  is_nil, is_clean, are_clean, stop_servers-append, are_clean-shutdown, are_clean-serve, IsDown,
  IsSound, shutdown-IsSound, serve-IsSound, IsFresh, serve-IsFresh,
}

-- The shutdown has begun only once the signal came; the errors of the group are those of the servers;
-- and main has ended only behind all of its goroutines, with the status of the first error.
pub record IsOrderly (s : System) : Type 0 where
  pub sound : All IsSound s.servers
  pub errors : is_nil (stop_servers s.results) ≡ are_clean s.servers
  pub quiet : s.stage ≡ serving → (s.results ≡ []) × (s.flushed ≡ false) × All IsFresh s.servers
  pub ended :
      (n : ℕ)
      → s.stage ≡ exited n
      → (n ≡ exit_status (stop_servers s.results)) × AreStopped s.servers

AreNew-IsSound :
    (vs : List Endpoint) → AreNew vs → All IsSound vs × (are_clean vs ≡ true) × All IsFresh vs
unfolding are_clean is_clean
AreNew-IsSound [] h = (tt, refl, tt)
AreNew-IsSound (v ∷ vs) (h, hs) =
    let (a, b, c) = AreNew-IsSound vs hs in
    ((λ q. ground arith, a), ground arith, (ground arith, c))

module _ (create : Event → Outcome RumEvent) (parse_url : Bytes → Option Bytes)
    (to_json : Values → Bytes) (enabled : Bool) (subscriptions : Subscriptions)
    (servers : List Endpoint) (new : AreNew servers) where
  not-exited : (stage : Stage) (n : ℕ) → IsAlive stage → stage ≢ exited n
  not-exited serving n alive = λ h. cc
  not-exited stopping n alive = λ h. cc
  not-exited (exited m) n alive = elim alive [ ]
  not-exited (crashed c) n alive = elim alive [ ]

  -- A step that leaves the stage, the servers and the results alone.
  IsOrderly-same :
      (s t : System)
      → IsAlive s.stage
      → t.stage ≡ s.stage
      → t.servers ≡ s.servers
      → t.results ≡ s.results
      → t.flushed ≡ s.flushed
      → IsOrderly s
      → IsOrderly t
  IsOrderly-same s t alive g v r f o = record {
    sound = subst (All IsSound) (sym v) o.sound;
    errors = ground (arith, o.errors);
    quiet =
        λ h. let (a, b, c) = o.quiet (sym g ∙ h) in (r ∙ a, f ∙ b, subst (All IsFresh) (sym v) c);
    ended = λ n h. absurd (not-exited s.stage n alive (sym g ∙ h));
  }

  pub Reach-IsOrderly :
      {s : System}
      → Reach create parse_url to_json enabled (initial subscriptions servers) s
      → IsOrderly s
  unfolding initial accept received ticked archive serve_one shut_one flush_backup is_nil
      stop_servers
  Reach-IsOrderly here =
      let (a, b, c) = AreNew-IsSound servers new in
      record { sound = a; errors = sym b; quiet = λ h. (refl, refl, c); ended = λ n h. cc }
  Reach-IsOrderly (next {t} {u} r (serves fails k v alive at fresh)) =
      let o = Reach-IsOrderly r in
      record {
        sound = serve-IsSound fails k v t.servers at fresh o.sound;
        errors = o.errors ∙ sym (are_clean-serve fails k t.servers);
        quiet = λ h. let (a, b, c) = o.quiet h in (a, b, serve-IsFresh fails k t.servers c);
        ended = λ n h. absurd (not-exited t.stage n alive h);
      }
  Reach-IsOrderly (next {t} {u} r (catches k v now events q w e alive at listens made)) =
      IsOrderly-same t u alive refl refl refl refl (Reach-IsOrderly r)
  Reach-IsOrderly (next {t} {u} r (takes query now before after i service alive waits done)) =
      IsOrderly-same t u alive refl refl refl refl (Reach-IsOrderly r)
  Reach-IsOrderly (next {t} {u} r (archives before after w alive waits)) =
      IsOrderly-same t u alive refl refl refl refl (Reach-IsOrderly r)
  Reach-IsOrderly (next {t} {u} r (ticks alive)) =
      IsOrderly-same t u alive refl refl refl refl (Reach-IsOrderly r)
  Reach-IsOrderly (next {t} r (crashes query now before after i alive waits done)) =
      let o = Reach-IsOrderly r in
      record { sound = o.sound; errors = o.errors; quiet = λ h. cc; ended = λ n h. cc }
  Reach-IsOrderly (next {t} r (dies cause alive how)) =
      let o = Reach-IsOrderly r in
      record { sound = o.sound; errors = o.errors; quiet = λ h. cc; ended = λ n h. cc }
  Reach-IsOrderly (next {t} r (signals at)) =
      let o = Reach-IsOrderly r in
      record { sound = o.sound; errors = o.errors; quiet = λ h. cc; ended = λ n h. cc }
  Reach-IsOrderly (next {t} r (shuts error k v at there fresh)) =
      let o = Reach-IsOrderly r in
      record {
        sound = shutdown-IsSound error k t.servers o.sound;
        errors =
            stop_servers-append t.results (shutdown_error error v)
            ∙ ap (λ b. b && is_nil (shutdown_error error v)) o.errors
            ∙ sym (are_clean-shutdown error k v t.servers there fresh);
        quiet = λ h. cc;
        ended = λ n h. cc;
      }
  Reach-IsOrderly (next {t} r (flushes at fresh)) =
      let o = Reach-IsOrderly r in
      record {
        sound = o.sound;
        errors = stop_servers-append t.results none ∙ ground (arith, o.errors);
        quiet = λ h. cc;
        ended = λ n h. cc;
      }
  Reach-IsOrderly (next {t} r (exits at done stopped)) =
      let o = Reach-IsOrderly r in
      record {
        sound = o.sound;
        errors = o.errors;
        quiet = λ h. cc;
        ended = λ n h. (ground arith, stopped);
      }

  are_clean-IsDown :
      (vs : List Endpoint) → AreStopped vs → All IsSound vs → are_clean vs ≡ true → All IsDown vs
  unfolding are_clean is_clean is_nil
  are_clean-IsDown [] a h c = tt
  are_clean-IsDown (v ∷ vs) ((none, q), a) (h, hs) c =
      ((q, (h q).0, (h q).1), are_clean-IsDown vs a hs (ground arith))
  are_clean-IsDown (v ∷ vs) ((some e, q), a) (h, hs) c = absurd (ground arith)

  IsDown-are_clean : (vs : List Endpoint) → All IsDown vs → are_clean vs ≡ true
  unfolding are_clean is_clean is_nil
  IsDown-are_clean [] h = refl
  IsDown-are_clean (v ∷ vs) (h, hs) = ground (arith, IsDown-are_clean vs hs)

  exit_status-is_nil : (e : Option Bytes) → (exit_status e ≡ 0) ↔ (is_nil e ≡ true)
  unfolding exit_status is_nil
  exit_status-is_nil none = (λ h. refl, λ h. refl)
  exit_status-is_nil (some e) = (λ h. ground arith, λ h. ground arith)

  exit_status_bound : (n : ℕ) (e : Option Bytes) → n ≡ exit_status e → (n ≡ 0) ⊎ (n ≡ 1)
  unfolding exit_status
  exit_status_bound n none h = inl h
  exit_status_bound n (some e) h = inr h

  -- When main has ended, every server was shut down, and the status is 0 exactly when for every server
  -- Shutdown returned no error; such a server was started and takes no request any more. In any other
  -- case the status is 1.
  pub exit-status :
      (s : System) (n : ℕ)
      → Reach create parse_url to_json enabled (initial subscriptions servers) s
      → s.stage ≡ exited n
      → AreStopped s.servers × ((n ≡ 0) ↔ All IsDown s.servers) × ((n ≡ 0) ⊎ (n ≡ 1))
  exit-status s n r at =
      let o = Reach-IsOrderly r in
      let (status, stopped) = o.ended n at in
      let (there, back) = exit_status-is_nil (stop_servers s.results) in
      (
        stopped,
        (
          λ h. are_clean-IsDown s.servers stopped o.sound (sym o.errors ∙ there (sym status ∙ h)),
          λ h. status ∙ back (o.errors ∙ IsDown-are_clean s.servers h),
        ),
        exit_status_bound n (stop_servers s.results) status,
      )
