-- ===== src/Start/Running/Stopping.antt =====
-- main does not wait for the goroutines of SaveAsync.
use front_basicrum_go.Base.{Bytes, List, [], ◌∷◌, true, Option, none, ◌≡◌}
use front_basicrum_go.Base.Outcome.{Outcome}
use front_basicrum_go.Values.{Values}
use front_basicrum_go.Service.Subscriptions.{Subscriptions}
use front_basicrum_go.Server.Lifecycle.{Endpoint, shutdown}
use front_basicrum_go.Start.Running.{System}

-- The server is started and was not shut down.
abbrev pub IsUp : Endpoint → Type 0
IsUp v = (v.started ≡ true) × (v.stopped ≡ none)

with_results : List Endpoint → List (Option Bytes) → System → System
with_results servers results s = record s { servers = servers; results = results }

down : List Endpoint → List Endpoint
down [] = []
down (v ∷ vs) = shutdown none v ∷ down vs

nones : List Endpoint → List (Option Bytes)
nones [] = []
nones (v ∷ vs) = none ∷ nones vs
