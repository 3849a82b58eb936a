-- ===== src/Server/Events.antt =====
-- server/handlers.go: the event of a request.
use front_basicrum_go.Base.{
  Bytes, List, [], ◌∷◌, ◌++◌, true, false, Option, none, some, ◌≡◌, ◌≢◌, ◌∙◌, refl, ap, arith,
  is_empty, is_empty_of_ne, split, split-append, count, eqb, eqb_iff, codes, if◌then◌else◌,
}
use front_basicrum_go.Base.Assoc.{lookup}
use front_basicrum_go.Base.Outcome.{returns}
use front_basicrum_go.Values.{Values, get, has, set, get-set, has-set}
use front_basicrum_go.Types.{Event, new_event}
use front_basicrum_go.Geoip
use front_basicrum_go.Geoip.Cloudflare.{header_get}
use front_basicrum_go.Beacon.Convert.{RumEvent, create}
use front_basicrum_go.Beacon.Laws.{create_fields}
use front_basicrum_go.Server.Http.{Request}

abbrev pub forwarded_for : Bytes
forwarded_for = codes "X-Forwarded-For"

abbrev pub created_at : Bytes
created_at = codes "created_at"

first_part : List Bytes → Bytes
first_part [] = []
first_part (p ∷ ps) = p

unfoldable pub get_ip : Request → Bytes
unfolding first_part
get_ip r =
    let temp = header_get r.header forwarded_for in
    let result = if is_empty r.remote_addr then r.remote_addr else temp in
    first_part (split b',' result)

-- `now` is the text of the present time.
unfoldable pub apply_event_form_defaults : Bytes → Values → Values
apply_event_form_defaults now form = if has form created_at then form else set form created_at now

unfoldable pub new_event_from_request : Bytes → Request → Option Event
new_event_from_request now r = elim r.form [
  | none ↦ none
  | some form ↦
      some (new_event (apply_event_form_defaults now form) r.header r.user_agent (get_ip r))
]

header_get_missing :
    (r : Request) → lookup forwarded_for r.header ≡ none → header_get r.header forwarded_for ≡ []
unfolding header_get
header_get_missing r h = rw (h, header_get)

-- Behind a known remote address the IP of an event is the first address of X-Forwarded-For.
pub get_ip_forwarded :
    (r : Request) (a b : Bytes)
    → r.remote_addr ≢ []
    → count b',' a ≡ 0
    → header_get r.header forwarded_for ≡ a ++ b',' ∷ b
    → get_ip r ≡ a
unfolding get_ip
get_ip_forwarded r a b h c e =
    rw (is_empty_of_ne r.remote_addr h) (rw e (rw (split-append b',' a b c) refl))

-- Behind a known remote address, and with no X-Forwarded-For header, the IP of an event is empty.
pub get_ip_direct :
    (r : Request) → r.remote_addr ≢ [] → lookup forwarded_for r.header ≡ none → get_ip r ≡ []
unfolding get_ip split
get_ip_direct r h e = rw (is_empty_of_ne r.remote_addr h) (rw (header_get_missing r e) refl)

default_created_at :
    (now : Bytes) (form : Values)
    → get (apply_event_form_defaults now form) created_at
      ≡ (if has form created_at then get form created_at else now)
unfolding apply_event_form_defaults
default_created_at now form =
    ground (arith, get-set form created_at created_at now, eqb_iff created_at created_at)

-- A form has a time afterwards: its own if it had one, the present time if not. No other value of the
-- form changes, and doing it again changes nothing.
pub apply_event_form_defaults_lem :
    (now later k : Bytes) (form : Values)
    → eqb created_at k ≡ false
    → (has (apply_event_form_defaults now form) created_at ≡ true)
      × (get (apply_event_form_defaults now form) created_at
          ≡ (if has form created_at then get form created_at else now))
      × (get (apply_event_form_defaults now form) k ≡ get form k)
      × (apply_event_form_defaults later (apply_event_form_defaults now form)
          ≡ apply_event_form_defaults now form)
unfolding apply_event_form_defaults
apply_event_form_defaults_lem now later k form h = (
  ground (arith, has-set form created_at created_at now, eqb_iff created_at created_at),
  default_created_at now form,
  ground (arith, get-set form created_at k now),
  ground (arith, has-set form created_at created_at now, eqb_iff created_at created_at),
)

-- The rum event of a request has the time of the request, or the present time if the request has none.
pub create-new_event_from_request :
    (parse_url : Bytes → Option Bytes) (geo : Option Geoip.Service) (now : Bytes) (r : Request)
    (form : Values) (e : Event) (rum : RumEvent)
    → r.form ≡ some form
    → new_event_from_request now r ≡ some e
    → create parse_url geo e ≡ returns rum
    → rum.created_at ≡ (if has form created_at then get form created_at else now)
unfolding new_event_from_request new_event
create-new_event_from_request parse_url geo now r form e rum f n c =
    let q : e.request_parameters ≡ apply_event_form_defaults now form = ground arith in
    let (no_id, time, name) = create_fields parse_url geo e rum c in
    time ∙ ap (λ m. get m created_at) q ∙ default_created_at now form
