-- ===== src/Service/Tests.antt =====
-- The service on concrete events.
use front_basicrum_go.Base.{
  arith, ◌+◌, ◌-◌, ◌*◌, ltb, if◌then◌else◌, Bytes, [], ◌∷◌, Option, none, some, ◌≡◌, refl, codes,
  eqb, Bool-cases, inl, inr,
}
use front_basicrum_go.Base.Calendar.{add_months, days_of, civil}
use front_basicrum_go.Base.Decimal.{itoa}
use front_basicrum_go.Base.Assoc.{lookup}
use front_basicrum_go.Base.Outcome.{Outcome, returns}
use front_basicrum_go.Values.{get}
use front_basicrum_go.Types.{
  Event, SubscriptionWithHostname, Zone, ShiftsBy, new_subscription, expired,
  generate_subscription_id, year_month_day,
}
use front_basicrum_go.Geoip as Geo
use front_basicrum_go.Beacon.Convert.{RumEvent, create}
use front_basicrum_go.Service.Subscriptions.{
  found_lookup, reply, answer, Cache, Query, disabled, caching, make_lookup_result, get_cached,
  get_subscription,
}
use front_basicrum_go.Service.Subscriptions.Laws.{ask, IsCoherent}
use front_basicrum_go.Service.Subscriptions.Trial.{registered, new_subscription-found}
use front_basicrum_go.Service.Process.{
  save_unknown, Service, new, process_event, process_rum_event, process_rum, process_hosts, event,
  tick, step, run,
}
use front_basicrum_go.Service.Hosts.{IsValid, new-IsValid, run-IsValid}
use front_basicrum_go.Service.Routing.{routed, process_event-routed, process_event-unknown}

abbrev parse_url : Bytes → Option Bytes
parse_url [] = none
parse_url (c ∷ s) = some (c ∷ s)

abbrev no_geo : Option Geo.Service
no_geo = none

-- The host of the event is its user agent.
abbrev rum : Event → RumEvent
rum e = record {
  created_at = e.remote_addr;
  hostname = e.user_agent;
  subscription_id = codes "id";
  country = [];
  geo_city_name = [];
  device_type = [];
  latency = [];
  status_code = [];
  up = [];
  cdir = [];
  ans = [];
}

abbrev make : Event → Outcome RumEvent
make e = returns (rum e)

abbrev visit : Event
visit = record {
  request_parameters = (codes "u", codes "shop" ∷ []) ∷ [];
  headers = [];
  user_agent = codes "shop";
  remote_addr = codes "noon";
}

abbrev item : SubscriptionWithHostname
item = record {
  subscription = record { id = codes "id"; expires_at = 100 };
  hostname = codes "shop";
}

abbrev empty_database : Query
empty_database id = answer none

abbrev database : Query
database id = answer (some item)

abbrev cached : Cache
cached = (codes "id", item) ∷ []

abbrev with_cache : Cache → Service
with_cache cache = new (caching cache)

run-IsValid_example : IsValid (process_hosts (process_rum_event (rum visit) (new disabled)))
unfolding run step process_event process_rum_event process_rum get_subscription new
run-IsValid_example =
    run-IsValid make (event empty_database 5 (some visit) ∷ tick ∷ []) (new disabled)
      (process_hosts (process_rum_event (rum visit) (new disabled))) refl (new-IsValid disabled)

cached-IsCoherent : IsCoherent database cached
unfolding lookup
cached-IsCoherent id = elim (Bool-cases (eqb (codes "id") id)) [
  | inl e ↦ rw e refl
  | inr e ↦ rw e tt
]

process_event-routed_example :
    ((process_rum_event (rum visit) (with_cache cached)).calls
      ≡ routed (ask database 5 (codes "id") (codes "shop")) visit (rum visit) [])
    × (cache' : Cache) × ((process_rum_event (rum visit) (with_cache cached)).subscriptions
        ≡ caching cache')
    × IsCoherent database cache'
unfolding process_event process_rum_event process_rum get_subscription get_cached new
    make_lookup_result expired lookup eqb codes
process_event-routed_example =
    process_event-routed make database 5 visit (rum visit) cached (with_cache cached)
      (process_rum_event (rum visit) (with_cache cached)) refl refl cached-IsCoherent refl

process_event-unknown_example :
    process_event (create parse_url no_geo) empty_database 5 (some visit) (with_cache [])
    ≡ returns (record (with_cache []) { calls = save_unknown visit ∷ (with_cache []).calls })
unfolding get lookup eqb codes new
process_event-unknown_example =
    process_event-unknown parse_url no_geo empty_database 5 visit [] (with_cache []) (codes "shop")
      refl refl refl refl

-- A zone whose clock is an hour ahead from 31 March 2024 on.
abbrev summer : Zone
summer = record {
  wall = λ time. if ltb time 1711846800 then time else time + 3600;
  instant = λ clock. if ltb clock 1711846800 then clock else clock - 3600;
}

-- From 1 February at midnight to 1 May at midnight there are 90 days less one hour.
test_summer :
    (new_subscription summer (codes "x") 1706745600).expires_at + 3600 ≡ 1706745600 + 90 * 86400
unfolding new_subscription add_months days_of civil
test_summer = refl

test_summer_id : (new_subscription summer (codes "x") 1706745600).id ≡ codes "2024-05-01|x"
unfolding new_subscription add_months days_of generate_subscription_id year_month_day civil itoa
    codes
test_summer_id = refl

summer-ShiftsBy : ShiftsBy 3600 summer
summer-ShiftsBy time clock = ground arith

test_summer_found :
    make_lookup_result
      (1706745600 + 88 * 86400)
      (registered summer (codes "x") 1706745600 (codes "shop"))
      (codes "shop")
    ≡ reply found_lookup
test_summer_found =
    new_subscription-found summer 3600 summer-ShiftsBy (codes "x") (codes "shop") 1706745600
      (1706745600 + 88 * 86400) (omega arith)

-- Three months from 30 November 2023, by way of 30 February 2024.
test_trial : add_months 3 1701302400 ≡ 1709251200
unfolding add_months days_of civil
test_trial = refl

test_subscription_id : generate_subscription_id (codes "x") 1709251200 ≡ codes "2024-03-01|x"
unfolding generate_subscription_id year_month_day civil itoa codes
test_subscription_id = refl
