-- ===== src/Start/Running/Results.antt =====
-- What the goroutines of stopServers return, and what that says of the servers.
pub mod Status
use front_basicrum_go.Base.{
  ℕ, zero, suc, Bytes, List, [], ◌∷◌, ◌++◌, Bool, true, false, ◌&&◌, Option, none, some, ◌≡◌, ◌≢◌,
  ◌∙◌, ◌↔◌, refl, sym, ap, arith, get_elem?, All, ◌⊎◌, inl, inr,
}
use mathlib.Core.Path.{subst}
use front_basicrum_go.Base.Outcome.{Outcome}
use front_basicrum_go.Values.{Values}
use front_basicrum_go.Types.{Event}
use front_basicrum_go.Beacon.Convert.{RumEvent}
use front_basicrum_go.Service.Subscriptions.{Subscriptions}
use front_basicrum_go.Server.Lifecycle.{Endpoint, new_endpoint, serve, shutdown, shutdown_error}
use front_basicrum_go.Start.{stop_servers}
use front_basicrum_go.Start.Running.{
  System, Stage, serving, stopping, exited, crashed, IsAlive, AreStopped, AreNew, exit_status,
  initial, Step, serves, catches, takes, crashes, ticks, archives, signals, shuts, flushes, exits,
  Reach, here, next, accept, received, ticked, archive, serve_one, shut_one, flush_backup, modify,
}

pub is_nil : Option Bytes → Bool
is_nil none = true
is_nil (some e) = false

-- No error came from Shutdown of the server so far.
is_clean : Option (Option Bytes) → Bool
is_clean none = true
is_clean (some e) = is_nil e

pub are_clean : List Endpoint → Bool
are_clean [] = true
are_clean (v ∷ vs) = is_clean v.stopped && are_clean vs

stop_servers-append :
    (results : List (Option Bytes)) (e : Option Bytes)
    → is_nil (stop_servers (results ++ e ∷ [])) ≡ is_nil (stop_servers results) && is_nil e
unfolding stop_servers is_nil
stop_servers-append [] none = refl
stop_servers-append [] (some e) = refl
stop_servers-append (none ∷ results) e = stop_servers-append results e
stop_servers-append (some x ∷ results) e = refl

are_clean-shutdown :
    (error : Option Bytes) (k : ℕ) (v : Endpoint) (vs : List Endpoint)
    → get_elem? vs k ≡ some v
    → v.stopped ≡ none
    → are_clean (modify k (shutdown error) vs) ≡ are_clean vs && is_nil (shutdown_error error v)
unfolding are_clean is_clean is_nil modify shutdown shutdown_error
are_clean-shutdown error k v [] at fresh = cc
are_clean-shutdown error zero v (u ∷ vs) at fresh = ground arith
are_clean-shutdown error (suc k) v (u ∷ vs) at fresh =
    ground (arith, are_clean-shutdown error k v vs at fresh)

are_clean-serve :
    (fails : Bool) (k : ℕ) (vs : List Endpoint)
    → are_clean (modify k (serve fails) vs) ≡ are_clean vs
unfolding are_clean modify serve
are_clean-serve fails k [] = refl
are_clean-serve fails zero (v ∷ vs) = refl
are_clean-serve fails (suc k) (v ∷ vs) =
    ap (λ b. is_clean v.stopped && b) (are_clean-serve fails k vs)

-- A server whose Shutdown returned no error was started, and takes no request any more.
abbrev pub IsDown : Endpoint → Type 0
IsDown v = (v.stopped ≡ some none) × (v.started ≡ true) × (v.listening ≡ false)

abbrev pub IsSound : Endpoint → Type 0
IsSound v = v.stopped ≡ some none → (v.started ≡ true) × (v.listening ≡ false)

shutdown-IsSound :
    (error : Option Bytes) (k : ℕ) (vs : List Endpoint)
    → All IsSound vs
    → All IsSound (modify k (shutdown error) vs)
unfolding modify shutdown shutdown_error
shutdown-IsSound error k [] h = tt
shutdown-IsSound error zero (v ∷ vs) (h, hs) = (λ q. ground arith, hs)
shutdown-IsSound error (suc k) (v ∷ vs) (h, hs) = (h, shutdown-IsSound error k vs hs)

serve-IsSound :
    (fails : Bool) (k : ℕ) (v : Endpoint) (vs : List Endpoint)
    → get_elem? vs k ≡ some v
    → v.started ≡ false
    → All IsSound vs
    → All IsSound (modify k (serve fails) vs)
unfolding modify serve
serve-IsSound fails k v [] at fresh h = tt
serve-IsSound fails zero v (u ∷ vs) at fresh (h, hs) = (λ q. ground (arith, h q), hs)
serve-IsSound fails (suc k) v (u ∷ vs) at fresh (h, hs) =
    (h, serve-IsSound fails k v vs at fresh hs)

-- A server whose Shutdown was not called.
abbrev pub IsFresh : Endpoint → Type 0
IsFresh v = v.stopped ≡ none

serve-IsFresh :
    (fails : Bool) (k : ℕ) (vs : List Endpoint)
    → All IsFresh vs
    → All IsFresh (modify k (serve fails) vs)
unfolding modify serve
serve-IsFresh fails k [] h = tt
serve-IsFresh fails zero (v ∷ vs) (h, hs) = (h, hs)
serve-IsFresh fails (suc k) (v ∷ vs) (h, hs) = (h, serve-IsFresh fails k vs hs)
