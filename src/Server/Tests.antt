-- ===== src/Server/Tests.antt =====
-- The handlers on concrete requests.
use front_basicrum_go.Base.{
  List, Bytes, [], ◌∷◌, true, Option, none, some, ◌≡◌, ◌↔◌, ◌⊎◌, refl, codes, eqb, arith,
  if◌then◌else◌,
}
use front_basicrum_go.Base.Assoc.{lookup, insert}
use front_basicrum_go.Base.Outcome.{returns, panics}
use front_basicrum_go.Values.{Values, get, has, set}
use front_basicrum_go.Types.{Event, new_event}
use front_basicrum_go.Geoip as Geo
use front_basicrum_go.Geoip.Cloudflare.{header_get}
use front_basicrum_go.Beacon.Laws.{with_headers}
use front_basicrum_go.Beacon.Convert.{RumEvent, create}
use front_basicrum_go.Service.Subscriptions.{Query, answer, disabled}
use front_basicrum_go.Service.Process.{save, new, process_event, process_rum_event}
use front_basicrum_go.Server.Http.{object, null_value, invalid, Request, fresh}
use front_basicrum_go.Server.Events.{
  created_at, forwarded_for, get_ip, apply_event_form_defaults, new_event_from_request,
}
use front_basicrum_go.Server.Handlers.{
  register_hostname, delete_hostname, Served, method_post, method_delete, hostnames, response_ok,
  change_hostname, create_hostname, parse_request, validate, parse_grafana_user,
}
use front_basicrum_go.Server.Catching.{catcher-stored}
use front_basicrum_go.Server.Factory as Factory
use front_basicrum_go.Server.Factory.{
  servers, build, build_config, default_value, with_http, with_ssl, with_tls_config,
}
use front_basicrum_go.Server.Access.{api_token, IsAllowed, hostnames-IsAllowed, hostnames-panics}

abbrev parse_url : Bytes → Option Bytes
parse_url [] = none
parse_url (c ∷ s) = some (c ∷ s)

abbrev no_geo : Option Geo.Service
no_geo = none

abbrev empty_database : Query
empty_database id = answer none

abbrev form : Values
form = (codes "u", codes "shop" ∷ []) ∷ []

abbrev beacon : Request
beacon = record {
  method = method_post;
  header = (forwarded_for, b'1' ∷ b',' ∷ b'2' ∷ []) ∷ [];
  remote_addr = b'9' ∷ [];
  user_agent = [];
  form = some form;
  decoded = invalid [];
}

abbrev direct : Request
direct = record beacon { header = [] }

abbrev caught : Event
caught = new_event (apply_event_form_defaults (codes "noon") form) beacon.header [] (get_ip beacon)

abbrev registration : Request
registration = record {
  method = method_post;
  header = (codes "X-Token", codes "secret") ∷ (codes "X-Grafana-User", codes "ann") ∷ [];
  remote_addr = [];
  user_agent = [];
  form = none;
  decoded = object (codes "shop");
}

abbrev registered : Served
registered = record {
  writer = response_ok fresh;
  effects = register_hostname (codes "shop") (codes "ann") ∷ [];
}

catcher-stored_example :
    (rum : RumEvent) × (process_event
        (create parse_url no_geo)
        empty_database
        5
        (some caught)
        (new disabled)
      ≡ returns (process_rum_event rum (new disabled)))
    × (process_event
          (create parse_url no_geo)
          empty_database
          5
          (some (with_headers caught []))
          (new disabled)
        ≡ returns (process_rum_event rum (new disabled)))
    × ((process_rum_event rum (new disabled)).calls ≡ save rum ∷ (new disabled).calls)
    × (rum.created_at ≡ (if has form created_at then get form created_at else codes "noon"))
    × (rum.hostname ≡ codes "shop")
unfolding new_event_from_request new new_event apply_event_form_defaults has get set insert lookup
    eqb codes
catcher-stored_example =
    catcher-stored parse_url no_geo (codes "noon") [] empty_database 5 beacon form (codes "shop")
      caught (new disabled) refl refl refl refl

register : hostnames (codes "secret") none registration fresh ≡ returns registered
unfolding hostnames create_hostname change_hostname parse_request validate parse_grafana_user
    header_get lookup eqb codes
register = refl

hostnames-IsAllowed_example :
    (api_token registration ≡ codes "secret")
    × ((registration.method ≡ method_post)
          × IsAllowed register_hostname registration registered.effects
        ⊎ (registration.method ≡ method_delete)
          × IsAllowed delete_hostname registration registered.effects)
hostnames-IsAllowed_example =
    hostnames-IsAllowed (codes "secret") none registration registered register (λ e. ground arith)

hostnames-panics_example :
    (hostnames (codes "secret") none (record registration { decoded = null_value }) fresh ≡ panics)
    ↔ (api_token registration ≡ codes "secret")
      × ((registration.method ≡ method_post) ⊎ (registration.method ≡ method_delete))
      × (null_value ≡ null_value)
hostnames-panics_example =
    hostnames-panics (codes "secret") none (record registration { decoded = null_value })

-- Certificate files on port 8443.
abbrev with_files : Factory.Config
with_files = record {
  port = codes "8443";
  ssl = true;
  ssl_type = codes "FILE";
  ssl_file_cert_file = codes "cert";
  ssl_file_key_file = codes "key";
  domain = [];
  token = codes "secret";
}

abbrev parse_files : Bytes → Factory.Parsed
parse_files json = Factory.config with_files

abbrev no_env : Bytes → Bytes
no_env name = []

abbrev both : List Factory.Server
both =
    Factory.new (codes "secret") (with_ssl (codes "8443") (codes "cert") (codes "key") ∷ [])
    ∷ Factory.new (codes "secret") (with_http (codes "8443") ∷ [])
    ∷ []

build_files : build parse_files no_env (codes "{}") ≡ servers both
unfolding build build_config default_value codes eqb
build_files = refl
