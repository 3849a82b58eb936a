-- ===== src/Types.antt =====
-- types/event.go, types/owner_hostname.go, beacon/hostname_event.go and the net/url operations on
-- url.Values that they rest on. A time.Time is its number of seconds since 1970-01-01 00:00:00 UTC.

use front_basicrum_go.Base.{
  arith, ℕ, zero, suc, ◌+◌, ◌-◌, ◌*◌, ◌/◌, ◌≤◌, Bytes, List, [], ◌∷◌, ◌++◌, Bool, ltb, length,
}
use front_basicrum_go.Base.Calendar.{civil, add_months}
use front_basicrum_go.Base.Calendar.Months.{add_months-bounds}
use front_basicrum_go.Base.Decimal.{itoa}
use front_basicrum_go.Values.{Values}

-- http.Header: the first value of each canonical name, as `Header.Get` reads it.
abbrev pub Header : Type 0
Header = List (Bytes × Bytes)

pub record Event : Type 0 where
  pub request_parameters : Values
  pub headers : Header
  pub user_agent : Bytes
  pub remote_addr : Bytes

unfoldable pub new_event : Values → Header → Bytes → Bytes → Event
new_event params headers user_agent remote_addr = record {
  request_parameters = params;
  headers = headers;
  user_agent = user_agent;
  remote_addr = remote_addr;
}

pub record HostnameEvent : Type 0 where
  pub hostname : Bytes
  pub updated_at : Bytes

unfoldable pub new_hostname_event : Bytes → Bytes → HostnameEvent
new_hostname_event hostname updated_at = record { hostname = hostname; updated_at = updated_at }

pub record Subscription : Type 0 where
  pub id : Bytes
  pub expires_at : ℕ

-- `time.Now().After(s.ExpiresAt)`, at the time `now`
unfoldable pub expired : Subscription → ℕ → Bool
expired s now = ltb s.expires_at now

abbrev pub subscription_trial_months : ℕ
subscription_trial_months = 3

zeros : ℕ → Bytes
zeros zero = []
zeros (suc n) = b'0' ∷ zeros n

-- A number with zeros in front, up to a width.
padded : ℕ → Bytes → Bytes
unfolding zeros
padded width s = zeros (width - length s) ++ s

-- The layout `2006-01-02`
unfoldable pub year_month_day : ℕ → Bytes
unfolding padded
year_month_day time =
    let (year, month, day) = civil (time / 86400) in
    padded 4 (itoa year) ++ b'-' ∷ (padded 2 (itoa month) ++ b'-' ∷ padded 2 (itoa day))

-- `clock` is what a clock in the zone of `expiresAt` shows then, `uuid` what uuid.NewString returns.
unfoldable pub generate_subscription_id : Bytes → ℕ → Bytes
generate_subscription_id uuid clock = year_month_day clock ++ b'|' ∷ uuid

-- The zone that `now` is in, which is the local one. `wall` is the time that a clock of the zone shows,
-- as the number of seconds that a clock in UTC would show it at, and `instant` the time at which
-- time.Date has that clock.
pub record Zone : Type 0 where
  pub wall : ℕ → ℕ
  pub instant : ℕ → ℕ

-- AddDate counts on the clock of the zone, and the date of the id is that of the zone.
unfoldable pub new_subscription : Zone → Bytes → ℕ → Subscription
new_subscription zone uuid now =
    let expires_at = zone.instant (add_months subscription_trial_months (zone.wall now)) in
    record { id = generate_subscription_id uuid (zone.wall expires_at); expires_at = expires_at }

-- The offset of the zone, by which its clock is before or behind UTC, changes by at most `shift` seconds.
abbrev pub ShiftsBy : ℕ → Zone → Type 0
ShiftsBy shift zone =
    (time clock : ℕ)
    → (clock + time ≤ zone.instant clock + zone.wall time + shift)
      × (zone.instant clock + zone.wall time ≤ clock + time + shift)

-- A new subscription runs out at least 89 and at most 92 days after it was made, but for what the offset
-- of the zone changes by.
pub new_subscription-bounds :
    (zone : Zone) (shift : ℕ) (uuid : Bytes) (now : ℕ)
    → ShiftsBy shift zone
    → (now + 89 * 86400 ≤ (new_subscription zone uuid now).expires_at + shift)
      × ((new_subscription zone uuid now).expires_at ≤ now + 92 * 86400 + shift)
unfolding new_subscription
new_subscription-bounds zone shift uuid now h =
    let (low, high) = add_months-bounds (zone.wall now) in
    let (least, most) = h now (add_months 3 (zone.wall now)) in
    (omega (arith, low, least), omega (arith, high, most))

pub record SubscriptionWithHostname : Type 0 where
  pub subscription : Subscription
  pub hostname : Bytes

pub record OwnerHostname : Type 0 where
  pub username : Bytes
  pub hostname : Bytes
  pub subscription : Subscription

unfoldable pub new_owner_hostname : Bytes → Bytes → Subscription → OwnerHostname
new_owner_hostname username hostname subscription = record {
  username = username;
  hostname = hostname;
  subscription = subscription;
}
