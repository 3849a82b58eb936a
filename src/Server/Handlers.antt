-- ===== src/Server/Handlers.antt =====
-- server/handlers.go and server/router.go: the three handlers. An answer of the service or of the
-- database comes as an argument; what a handler asks of them is in its list of effects.
use front_basicrum_go.Base.{
  ℕ, Bytes, List, [], ◌∷◌, ◌++◌, Option, none, some, is_empty, not, eqb, codes, if◌then◌else◌,
}
use front_basicrum_go.Base.Outcome.{Outcome, returns, panics}
use front_basicrum_go.Types.{Event}
use front_basicrum_go.Geoip.Cloudflare.{header_get}
use front_basicrum_go.Server.Http.{
  Decoded, invalid, null_value, object, Request, Writer, set_header, write_header, write,
  http_error,
}
use front_basicrum_go.Server.Events.{new_event_from_request}

pub data Effect : Type 0 where
  get_data : Effect
  save_async : Event → Effect
  backup_async : Event → Effect
  register_hostname : Bytes → Bytes → Effect
  delete_hostname : Bytes → Bytes → Effect

-- The handler's share of a request: the response, and what it asked for, in order.
pub record Served : Type 0 where
  pub writer : Writer
  pub effects : List Effect

unfoldable pub headers_no_cache : ℕ → Writer → Writer
headers_no_cache status_code w = write_header status_code (
    set_header (codes "Expires") (codes "Fri, 01 Jan 1990 00:00:00 GMT") (
      set_header (codes "Pragma") (codes "no-cache")
        (set_header (codes "Cache-Control") (codes "no-cache, no-store, must-revalidate") w)))

unfoldable pub response_no_content : Writer → Writer
response_no_content w = headers_no_cache 204 w

unfoldable pub response_ok : Writer → Writer
response_ok w = write (codes "ok") (headers_no_cache 200 w)

unfoldable pub response_error : Bytes → Writer → Writer
response_error err w = write err (headers_no_cache 400 w)

abbrev pub method_get : Bytes
method_get = codes "GET"

abbrev pub method_post : Bytes
method_post = codes "POST"

abbrev pub method_delete : Bytes
method_delete = codes "DELETE"

-- `events` is the JSON of the stored events, `none` where encoding fails.
answer_events : Option Bytes → Writer → Writer
answer_events none w = http_error (codes "Failed to encode JSON") 500 w
answer_events (some json) w =
    write json (set_header (codes "Content-Type") (codes "application/json") w)

-- The two calls of a caught event.
caught : Option Event → List Effect
caught none = []
caught (some event) = save_async event ∷ backup_async event ∷ []

unfoldable pub catcher : Bytes → Option Bytes → Request → Writer → Served
unfolding answer_events caught
catcher now events r w =
    if eqb r.method method_get
    then record { writer = answer_events events w; effects = get_data ∷ [] }
    else if eqb r.method method_post
    then record { writer = response_no_content w; effects = caught (new_event_from_request now r) }
    else record { writer = write (codes "method not allowed") (write_header 405 w); effects = [] }

unfoldable pub health : Writer → Served
health w = record { writer = response_ok w; effects = [] }

-- The errors that the code makes, by their texts.
abbrev pub hostname_required : Bytes
hostname_required = codes "hostname is required"

abbrev pub wrong_header : Bytes
wrong_header = codes "wrong header[X-Token]"

abbrev pub required_header : Bytes
required_header = codes "required header[X-Grafana-User]"

unfoldable pub unsupported_method : Bytes → Bytes
unsupported_method m = codes "unsupported method[" ++ (m ++ codes "]")

-- A value or the text of an error.
pub data Parsed : Type 0 where
  value : Bytes → Parsed
  error : Bytes → Parsed

-- Validate of CreateHostnameRequest and of DeleteHostnameRequest.
unfoldable pub validate : Bytes → Parsed
validate hostname = if is_empty hostname then error hostname_required else value hostname

-- A JSON null sets the interface to nil, and Validate is then called on nil.
unfoldable pub parse_request : Decoded → Outcome Parsed
parse_request (invalid e) = returns (error e)
parse_request null_value = panics
parse_request (object hostname) = returns (validate hostname)

unfoldable pub parse_grafana_user : Request → Parsed
parse_grafana_user r =
    let result = header_get r.header (codes "X-Grafana-User") in
    if is_empty result then error required_header else value result

-- The response behind the call of the service; `none` is the nil error.
finish : Option Bytes → Writer → Writer
finish none w = response_ok w
finish (some e) w = response_error e w

with_user : (Bytes → Bytes → Effect) → Option Bytes → Bytes → Parsed → Writer → Served
with_user call answer hostname (error e) w = record { writer = response_error e w; effects = [] }
with_user call answer hostname (value username) w = record {
  writer = finish answer w;
  effects = call hostname username ∷ [];
}

with_request : (Bytes → Bytes → Effect) → Option Bytes → Parsed → Request → Writer → Served
with_request call answer (error e) r w = record { writer = response_error e w; effects = [] }
with_request call answer (value hostname) r w =
    with_user call answer hostname (parse_grafana_user r) w

-- The common text of createHostname and deleteHostname.
unfoldable pub change_hostname :
    (Bytes → Bytes → Effect) → Option Bytes → Request → Writer → Outcome Served
unfolding finish with_user with_request
change_hostname call answer r w = elim (parse_request r.decoded) [
  | panics ↦ panics
  | returns p ↦ returns (with_request call answer p r w)
]

unfoldable pub create_hostname : Option Bytes → Request → Writer → Outcome Served
create_hostname = change_hostname register_hostname

unfoldable pub remove_hostname : Option Bytes → Request → Writer → Outcome Served
remove_hostname = change_hostname delete_hostname

-- `answer` is the error of the service's call.
unfoldable pub hostnames : Bytes → Option Bytes → Request → Writer → Outcome Served
hostnames private_api_token answer r w =
    let token = header_get r.header (codes "X-Token") in
    if not (eqb token private_api_token)
    then returns (record { writer = response_error wrong_header w; effects = [] })
    else if eqb r.method method_post
    then create_hostname answer r w
    else if eqb r.method method_delete
    then remove_hostname answer r w
    else returns (record { writer = response_error (unsupported_method r.method) w; effects = [] })

-- setupRoutes, with what the mux of net/http answers for any other path.
unfoldable pub serve :
    Bytes → Bytes → Option Bytes → Option Bytes → Bytes → Request → Writer → Outcome Served
serve private_api_token now events answer path r w =
    if eqb path (codes "/beacon/catcher")
    then returns (catcher now events r w)
    else if eqb path (codes "/private/hostnames")
    then hostnames private_api_token answer r w
    else if eqb path (codes "/health")
    then returns (health w)
    else returns (record { writer = http_error (codes "404 page not found") 404 w; effects = [] })
