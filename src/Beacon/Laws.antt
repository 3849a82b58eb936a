-- ===== src/Beacon/Laws.antt =====
-- What FromEvent and RumEventFactory.Create read of an event, and when they panic.
use front_basicrum_go.Base.{
  Bytes, [], Bool, Option, none, some, ◌≡◌, ◌↔◌, refl, ap, ◌∙◌, fun_ext, arith, codes, eqb,
  if◌then◌else◌, Bool-cases, inl, inr,
}
use mathlib.Core.Path.{ap₂}
use front_basicrum_go.Base.Outcome.{returns, panics}
use front_basicrum_go.Values.{Values, get, has, add, get-add_ne, has-add}
use front_basicrum_go.Types.{Event}
use front_basicrum_go.Geoip.{Service}
use front_basicrum_go.Beacon.{Beacon, beacon_of, from_event}
use front_basicrum_go.Beacon.Convert.{RumEvent, convert_to_rum_event, create}

abbrev pub request_headers : Bytes
request_headers = codes "request_headers"

get_through :
    (m : Values) (v k : Bytes)
    → get (add m request_headers v) k
      ≡ (if eqb request_headers k then get (add m request_headers v) k else get m k)
get_through m v k = elim (Bool-cases (eqb request_headers k)) [
  | inl e ↦ rw e
  | inr e ↦ rw e (get-add_ne m request_headers k v e)
]

has_through :
    (m : Values) (v k : Bytes)
    → has (add m request_headers v) k
      ≡ (if eqb request_headers k then has (add m request_headers v) k else has m k)
has_through m v k = elim (Bool-cases (eqb request_headers k)) [
  | inl e ↦ rw e
  | inr e ↦ rw e (rw has-add (rw e))
]

beacon_of_through :
    (f g : Bytes → Bytes) (p q : Bytes → Bool)
    → beacon_of
        (λ k. if eqb request_headers k then f k else g k)
        (λ k. if eqb request_headers k then p k else q k)
      ≡ beacon_of g q
unfolding beacon_of eqb codes
beacon_of_through f g p q = refl

abbrev pub with_headers : Event → Bytes → Event
with_headers event v = record event {
  request_parameters = add event.request_parameters request_headers v;
}

-- No field of the beacon reads what the backup adds to the parameters of the event.
pub from_event-add :
    (event : Event) (v : Bytes) → from_event (with_headers event v) ≡ from_event event
unfolding from_event
from_event-add event v =
    let m = event.request_parameters in
    let m' = add m request_headers v in
    ap₂ beacon_of (fun_ext (get_through m v)) (fun_ext (has_through m v))
    ∙ beacon_of_through (get m') (get m) (has m') (has m)

module _ (parse_url : Bytes → Option Bytes) (geo : Option Service) where
  -- The conversion reads only the headers and the address of the event itself.
  convert-with_headers :
      (g : Option Service) (b : Beacon) (event : Event) (v : Bytes)
      → convert_to_rum_event parse_url g b (with_headers event v)
        ≡ convert_to_rum_event parse_url g b event
  unfolding convert_to_rum_event
  convert-with_headers none b event v = refl
  convert-with_headers (some s) b event v = refl

  -- The event that is stored is the same before and after the backup has marked the parameters.
  pub create-add :
      (event : Event) (v : Bytes)
      → create parse_url geo (with_headers event v) ≡ create parse_url geo event
  unfolding create
  create-add event v =
      ap (λ b. convert_to_rum_event parse_url geo b (with_headers event v)) (from_event-add event v)
      ∙ convert-with_headers geo (from_event event) event v

  -- Creating a rum event panics exactly when the parameter `u` of the event is no URL.
  pub create-panics :
      (event : Event)
      → (create parse_url geo event ≡ panics)
        ↔ (parse_url (get event.request_parameters (codes "u")) ≡ none)
  unfolding create convert_to_rum_event from_event beacon_of
  create-panics event = (λ h. ground arith, λ h. ground arith)

  -- A rum event carries the time and the host of the beacon, and never a subscription.
  pub create_fields :
      (event : Event) (r : RumEvent)
      → create parse_url geo event ≡ returns r
      → (r.subscription_id ≡ [])
        × (r.created_at ≡ get event.request_parameters (codes "created_at"))
        × (parse_url (get event.request_parameters (codes "u")) ≡ some r.hostname)
  unfolding create convert_to_rum_event from_event beacon_of
  create_fields event r h = ground arith
