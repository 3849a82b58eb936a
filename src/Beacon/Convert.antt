-- ===== src/Beacon/Convert.antt =====
-- beacon/rum_event.go, ConvertToRumEvent of beacon/beacon.go and service/rum_event_factory.go. A
-- json.Number is its text.
use front_basicrum_go.Base.{Bytes, [], Option, none, some}
use front_basicrum_go.Base.Outcome.{Outcome, returns, panics}
use front_basicrum_go.Types.{Event}
use front_basicrum_go.Geoip.{Service}
use front_basicrum_go.Beacon.{Beacon, from_event}

pub record RumEvent : Type 0 where
  pub created_at : Bytes
  pub hostname : Bytes
  pub subscription_id : Bytes
  pub country : Bytes
  pub geo_city_name : Bytes
  pub device_type : Bytes
  pub latency : Bytes
  pub status_code : Bytes
  pub up : Bytes
  pub cdir : Bytes
  pub ans : Bytes

-- The error of the location service is dropped, and with it nothing: its two texts are used as they are.
country_and_city : Option Service → Event → Bytes × Bytes
country_and_city none event = ([], [])
country_and_city (some geo) event =
    let l = geo event.headers event.remote_addr in (l.country, l.city)

module _ (parse_url : Bytes → Option Bytes) (geo : Option Service) where
  -- `parse_url` is url.Parse followed by `Hostname`. Where url.Parse fails it returns a nil URL, the
  -- error is logged, and `Hostname` is called on nil.
  unfoldable pub convert_to_rum_event : Beacon → Event → Outcome RumEvent
  unfolding country_and_city
  convert_to_rum_event b event = elim (parse_url b.u) [
    | none ↦ panics
    | some hostname ↦
        let (country, city) = country_and_city geo event in
        returns (record {
          created_at = b.created_at;
          hostname = hostname;
          subscription_id = [];
          country = country;
          geo_city_name = city;
          device_type = [];
          latency = b.latency;
          status_code = b.status_code;
          up = b.up;
          cdir = b.cdir;
          ans = b.ans;
        })
  ]

  -- RumEventFactory.Create
  unfoldable pub create : Event → Outcome RumEvent
  create event = convert_to_rum_event (from_event event) event
