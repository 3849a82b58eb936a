-- ===== src/Geoip.antt =====
-- geoip/interface.go, geoip/composite.go, geoip/maxmind/maxmind.go: the chain of two location
-- services. The header service is in Geoip/Cloudflare.antt.
pub mod Cloudflare
pub mod Laws
mod Tests
use front_basicrum_go.Base.{
  Bytes, [], Option, none, some, Bool, true, false, ◌&&◌, ◌||◌, if◌then◌else◌, is_empty,
}
use front_basicrum_go.Types.{Header}

-- The three results of `CountryAndCity`; `none` is the nil error.
pub record Location : Type 0 where
  pub country : Bytes
  pub city : Bytes
  pub error : Option Bytes

-- The interface `geoip.Service` has the one method `CountryAndCity`.
abbrev pub Service : Type 0
Service = Header → Bytes → Location

abbrev pub failed : Location → Bool
failed l = elim l.error [ none ↦ false | some e ↦ true ]

abbrev pub unknown : Location → Bool
unknown l = is_empty l.country && is_empty l.city

unfoldable pub composite : Service → Service → Service
composite primary next header ip =
    let found = primary header ip in if failed found || unknown found then next header ip else found

-- What the MaxMind reader answers for the embedded database: whether it opens, how it reads an
-- address, and the record of an address or the error of the lookup.
pub record GeoDb : Type 1 where
  pub Ip : Type 0
  pub open_error : Option Bytes
  pub parse_ip : Bytes → Option Ip
  pub city_error : Ip → Option Bytes
  pub iso_code : Ip → Bytes
  pub city_name : Ip → Bytes

module _ (db : GeoDb) (cannot_parse : Bytes → Bytes) where
  maxmind_city : db.Ip → Location
  maxmind_city ip = elim (db.city_error ip) [
    | some e ↦ record { country = []; city = []; error = some e }
    | none ↦ record { country = db.iso_code ip; city = db.city_name ip; error = none }
  ]

  -- `cannot_parse` is the text of the error of an address that is none.
  unfoldable pub maxmind : Service
  unfolding maxmind_city
  maxmind header ip_string = elim db.open_error [
    | some e ↦ record { country = []; city = []; error = some e }
    | none ↦ elim (db.parse_ip ip_string) [
      | none ↦ record { country = []; city = []; error = some (cannot_parse ip_string) }
      | some ip ↦ maxmind_city ip
    ]
  ]
