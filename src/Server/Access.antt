-- ===== src/Server/Access.antt =====
-- Who may change hostnames, and what the answer says of it.
use front_basicrum_go.Base.{
  ℕ, Bytes, List, [], ◌∷◌, false, Option, none, some, ◌≡◌, ◌≢◌, ◌⊎◌, ◌↔◌, inl, inr, refl, arith,
  is_empty, Bool-cases, eqb, eqb_iff, codes,
}
use front_basicrum_go.Base.Outcome.{returns, panics}
use front_basicrum_go.Geoip.Cloudflare.{header_get}
use front_basicrum_go.Server.Http.{Decoded, invalid, null_value, object, Request, fresh, write}
use front_basicrum_go.Server.Handlers.{
  Effect, register_hostname, delete_hostname, Served, method_post, method_delete, headers_no_cache,
  response_ok, response_error, validate, parse_request, parse_grafana_user, change_hostname,
  create_hostname, remove_hostname, hostnames, hostname_required, required_header, wrong_header,
  unsupported_method,
}

abbrev pub grafana_user : Request → Bytes
grafana_user r = header_get r.header (codes "X-Grafana-User")

abbrev pub api_token : Request → Bytes
api_token r = header_get r.header (codes "X-Token")

-- The calls that a request may make: one, for a named host and a named user.
pub record IsAllowed (call : Bytes → Bytes → Effect) (r : Request) (effects : List Effect)
    : Type 0 where
  pub hostname : Bytes
  pub asked : r.decoded ≡ object hostname
  pub named : is_empty hostname ≡ false
  pub user : is_empty (grafana_user r) ≡ false
  pub one : effects ≡ call hostname (grafana_user r) ∷ []

-- 200 only where the call was made and answered with no error.
abbrev pub status_of : List Effect → Option Bytes → ℕ
status_of [] answer = 400
status_of (e ∷ es) none = 200
status_of (e ∷ es) (some x) = 400

ok_status : (response_ok fresh).status ≡ some 200
unfolding response_ok headers_no_cache write
ok_status = refl

error_status : (e : Bytes) → (response_error e fresh).status ≡ some 400
unfolding response_error headers_no_cache write
error_status e = refl

module _ (call : Bytes → Bytes → Effect) (answer : Option Bytes) (r : Request) (s : Served) where
  decoded-IsAllowed :
      (d : Decoded)
      → r.decoded ≡ d
      → change_hostname call answer r fresh ≡ returns s
      → s.effects ≢ []
      → IsAllowed call r s.effects
  unfolding change_hostname parse_request validate parse_grafana_user
  decoded-IsAllowed (invalid x) e h n = let no_call : ⊥ = ground arith in absurd no_call
  decoded-IsAllowed null_value e h n = let no_call : ⊥ = ground arith in absurd no_call
  decoded-IsAllowed (object hostname) e h n = record {
    hostname = hostname;
    asked = e;
    named = ground arith;
    user = ground arith;
    one = ground arith;
  }

  change_status_object :
      (hostname : Bytes) (a : Option Bytes)
      → r.decoded ≡ object hostname
      → change_hostname call a r fresh ≡ returns s
      → s.writer.status ≡ some (status_of s.effects a)
  unfolding change_hostname parse_request validate parse_grafana_user
  change_status_object hostname none e h =
      ground (arith, ok_status, error_status hostname_required, error_status required_header)
  change_status_object hostname (some x) e h =
      ground (arith, error_status x, error_status hostname_required, error_status required_header)

  change_status :
      (d : Decoded)
      → r.decoded ≡ d
      → change_hostname call answer r fresh ≡ returns s
      → s.writer.status ≡ some (status_of s.effects answer)
  unfolding change_hostname parse_request validate parse_grafana_user
  change_status (invalid x) e h = ground (arith, error_status x)
  change_status null_value e h = ground arith
  change_status (object hostname) e h = change_status_object hostname answer e h

-- A request changes a hostname only with the token of the configuration, by POST or DELETE, for a host
-- and a user that are not empty; then it makes the one call for them.
pub hostnames-IsAllowed :
    (private_api_token : Bytes) (answer : Option Bytes) (r : Request) (s : Served)
    → hostnames private_api_token answer r fresh ≡ returns s
    → s.effects ≢ []
    → (api_token r ≡ private_api_token)
      × ((r.method ≡ method_post) × IsAllowed register_hostname r s.effects
          ⊎ (r.method ≡ method_delete) × IsAllowed delete_hostname r s.effects)
unfolding hostnames create_hostname remove_hostname
hostnames-IsAllowed private_api_token answer r s h n =
    elim (Bool-cases (eqb r.method method_post)) [
      | inl post ↦
          let p : change_hostname register_hostname answer r fresh ≡ returns s = ground arith in
          (
            ground (arith, eqb_iff (api_token r) private_api_token),
            inl (
              (eqb_iff r.method method_post).0 post,
              decoded-IsAllowed register_hostname answer r s r.decoded refl p n,
            ),
          )
      | inr not_post ↦
          let p : change_hostname delete_hostname answer r fresh ≡ returns s = ground arith in
          (
            ground (arith, eqb_iff (api_token r) private_api_token),
            inr (
              ground (arith, eqb_iff r.method method_delete),
              decoded-IsAllowed delete_hostname answer r s r.decoded refl p n,
            ),
          )
    ]

-- Where the handler does not panic, the answer is 200 exactly where the call was made and
-- succeeded, and 400 otherwise.
pub hostnames_status :
    (private_api_token : Bytes) (answer : Option Bytes) (r : Request) (s : Served)
    → hostnames private_api_token answer r fresh ≡ returns s
    → s.writer.status ≡ some (status_of s.effects answer)
unfolding hostnames create_hostname remove_hostname
hostnames_status private_api_token answer r s h = ground (
  arith,
  error_status wrong_header,
  error_status (unsupported_method r.method),
  change_status register_hostname answer r s r.decoded refl,
  change_status delete_hostname answer r s r.decoded refl,
)

-- A request with the token, the method POST or DELETE and the JSON body null panics, and no other does.
pub hostnames-panics :
    (private_api_token : Bytes) (answer : Option Bytes) (r : Request)
    → (hostnames private_api_token answer r fresh ≡ panics) ↔ (
        (api_token r ≡ private_api_token)
        × ((r.method ≡ method_post) ⊎ (r.method ≡ method_delete))
        × (r.decoded ≡ null_value))
unfolding hostnames create_hostname remove_hostname change_hostname parse_request
hostnames-panics private_api_token answer r = (
  λ h. (
    ground (arith, eqb_iff (api_token r) private_api_token),
    ground (arith, eqb_iff r.method method_post, eqb_iff r.method method_delete),
    ground arith,
  ),
  λ (t, m, d). ground (
    arith,
    eqb_iff (api_token r) private_api_token,
    eqb_iff r.method method_post,
    eqb_iff r.method method_delete,
  ),
)
