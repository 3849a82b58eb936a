-- ===== src/Server/Lifecycle.antt =====
-- server/server.go: a server between Serve and Shutdown. Serve stores an http.Server in the field
-- `server` before it listens; ListenAndServe and http.Server.Shutdown are those of net/http.
use front_basicrum_go.Base.{Bytes, Bool, true, false, not, Option, none, some, codes, if◌then◌else◌}

pub record Endpoint : Type 0 where
  -- the field `server` is set
  pub started : Bool
  pub listening : Bool
  -- what Shutdown returned, once it was called
  pub stopped : Option (Option Bytes)

abbrev pub new_endpoint : Endpoint
new_endpoint = record { started = false; listening = false; stopped = none }

-- Serve, up to the listening; `fails` says that ListenAndServe returns at once.
unfoldable pub serve : Bool → Endpoint → Endpoint
serve fails v = record v { started = true; listening = not fails }

abbrev pub not_started : Bytes
not_started = codes "server is not started"

-- The error of Shutdown; `error` is that of http.Server.Shutdown.
unfoldable pub shutdown_error : Option Bytes → Endpoint → Option Bytes
shutdown_error error v = if v.started then error else some not_started

-- A server that shut down with no error takes no further request.
unfoldable pub shutdown : Option Bytes → Endpoint → Endpoint
shutdown error v = elim (shutdown_error error v) [
  | none ↦ record v { listening = false; stopped = some none }
  | some e ↦ record v { stopped = some (some e) }
]
