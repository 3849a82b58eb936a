-- ===== src/It/Tests.antt =====
-- The sender on the line of one beacon.
use mathlib.Core.Option
use front_basicrum_go.Base.{
  Bytes, List, [], ◌∷◌, Option, none, some, ◌≡◌, ◌≢◌, refl, codes, eqb, split,
}
use front_basicrum_go.Base.Assoc.{lookup, insert, Distinct}
use front_basicrum_go.Values.{Values, get, has, set}
use front_basicrum_go.Types.{Event, new_event}
use front_basicrum_go.Beacon.{from_event}
use front_basicrum_go.Backup.Lines.{make_value, flatten_map}
use front_basicrum_go.Backup.Service.{mark}
use front_basicrum_go.Server.Http.{Request, invalid}
use front_basicrum_go.Server.Events.{new_event_from_request, apply_event_form_defaults, get_ip}
use front_basicrum_go.It.{set_all, make_url_values, read_files, Post, Response, finished, send}
use front_basicrum_go.It.Resending.{new_event-make_value}
use front_basicrum_go.It.Archived.{send-mark}

abbrev params : Values
params = (codes "u", codes "shop" ∷ []) ∷ (codes "created_at", codes "noon" ∷ []) ∷ []

abbrev beacon : Event
beacon = new_event params [] [] []

-- One text stands for the line, one for the headers.
abbrev line : Bytes
line = codes "line"

abbrev marshal : List (Bytes × Bytes) → Bytes
marshal m = line

abbrev parse_params : Bytes → Option (List (Bytes × Bytes))
parse_params s = some (flatten_map params)

abbrev request : Request
request = record {
  method = codes "POST";
  header = [];
  remote_addr = [];
  user_agent = [];
  form = Option.map make_url_values (parse_params (make_value marshal params));
  decoded = invalid [];
}

params-Distinct : Distinct params
unfolding eqb codes
params-Distinct = ((refl, tt), (tt, tt))

abbrev sent_again : Event
sent_again = new_event (make_url_values (flatten_map params)) [] [] []

new_event-make_value_example :
    ((k : Bytes) → get sent_again.request_parameters k ≡ get params k)
    × (from_event sent_again ≡ from_event beacon)
unfolding new_event_from_request apply_event_form_defaults new_event get_ip has lookup eqb codes
    make_url_values flatten_map set_all split set insert
new_event-make_value_example =
    new_event-make_value parse_params marshal params beacon sent_again (codes "later") request refl
      params-Distinct refl refl refl refl

abbrev to_json : Values → Bytes
to_json v = codes "json"

abbrev parse_marked : Bytes → Option (List (Bytes × Bytes))
parse_marked s = some (flatten_map (mark to_json beacon).request_parameters)

abbrev parse_header : Bytes → Option Values
parse_header s = some params

abbrev scan : Bytes → List Bytes × Option Bytes
scan text = (line ∷ [], none)

abbrev answer : List Post → Post → Response
answer posts p = some (204, [])

send-mark_example :
    ((send parse_header answer
        (read_files scan parse_marked (some ((codes "12.json.lines", some line) ∷ [])))).1
      ≡ [])
    × ((send parse_header answer
          (read_files scan parse_marked (some ((codes "12.json.lines", some line) ∷ [])))).0
        ≢ finished)
unfolding new_event lookup eqb codes make_value
send-mark_example =
    send-mark scan parse_marked marshal parse_header to_json answer beacon (codes "12.json.lines")
      line [] none [] refl refl params-Distinct refl refl refl
