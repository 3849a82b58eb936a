-- ===== src/Beacon/Tests.antt =====
-- Beacons and packed logs on concrete inputs.
use front_basicrum_go.Base.{
  ℕ, Bytes, List, [], ◌∷◌, ◌++◌, Option, none, some, ◌≡◌, codes, arith, ◌-◌, ◌+◌, ◌*◌,
}
use front_basicrum_go.Base.Outcome.{Outcome, returns}
use front_basicrum_go.Types.{Event}
use front_basicrum_go.Geoip.{Service}
use front_basicrum_go.Beacon.Decompress.{mode_small_numbers, mode_percent, decompress_bucket_log}
use front_basicrum_go.Beacon.Decompress.Total.{decompress_bucket_log_total}
use front_basicrum_go.Beacon.Decompress.Tokens.{
  Token, digit, wrapped, values, decompress_bucket_log-print,
}
use front_basicrum_go.Beacon.Decompress.Tokens as Tokens
use front_basicrum_go.Beacon.Decompress.Percent.{
  finish, last_byte, decompress_bucket_log-print_last,
}
use front_basicrum_go.Beacon.Decompress.Percent as Percent

-- A decoder that reads decimal digits, for texts whose digits are all decimal.
abbrev decode : Bytes → ℕ
decode [] = 0
decode (c ∷ s) = (c - 48) * 10 + decode s

abbrev parse_url : Bytes → Option Bytes
parse_url [] = none
parse_url (c ∷ s) = some (c ∷ s)

abbrev geo : Option Service
geo = some (λ header ip. record { country = ip; city = []; error = none })

abbrev hit : Event
hit = record {
  request_parameters =
      (codes "u", codes "host" ∷ []) ∷ (codes "created_at", codes "noon" ∷ []) ∷ [];
  headers = [];
  user_agent = [];
  remote_addr = codes "NL";
}

-- Three times the digit 5, and then a wrapped number.
abbrev tokens : List Token
tokens =
    record { count = some (b'3' ∷ []); item = digit b'5' }
    ∷ record { count = none; item = wrapped (b'1' ∷ b'2' ∷ []) }
    ∷ []

decompress_bucket_log_total_example :
    (r : Outcome (List ℕ)) × (decompress_bucket_log decode (mode_percent ∷ b'1' ∷ []) ≡ some r)
decompress_bucket_log_total_example = decompress_bucket_log_total decode (mode_percent ∷ b'1' ∷ [])

decompress_bucket_log-print_example :
    decompress_bucket_log decode (mode_small_numbers ∷ Tokens.print tokens)
    ≡ some (returns (values decode tokens))
decompress_bucket_log-print_example = decompress_bucket_log-print decode tokens (
  ((λ e. ground arith, tt), (λ e. ground arith, λ e. ground arith)),
  ((tt, ((λ e. ground arith), ((λ e. ground arith), tt))), tt),
)

decompress_bucket_log-print_last_example :
    decompress_bucket_log decode
      (mode_percent ∷ (Percent.print (42 ∷ 100 ∷ []) ++ last_byte (some b'7')))
    ≡ finish (some b'7') (42 ∷ 100 ∷ [])
decompress_bucket_log-print_last_example =
    decompress_bucket_log-print_last decode (42 ∷ 100 ∷ []) (some b'7')
      (omega arith, (omega arith, tt)) (λ e. ground arith, λ e. ground arith)
