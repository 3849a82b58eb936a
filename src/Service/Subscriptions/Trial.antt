-- ===== src/Service/Subscriptions/Trial.antt =====
-- How long the subscription of a registered hostname is taken.
use front_basicrum_go.Base.{ℕ, ◌+◌, ◌*◌, ◌≤◌, ◌<◌, Bytes, ◌≡◌, arith, eqb_refl}
use front_basicrum_go.Types.{
  SubscriptionWithHostname, Zone, ShiftsBy, expired, new_subscription, new_subscription-bounds,
}
use front_basicrum_go.Service.Subscriptions.{
  found_lookup, expired_lookup, reply, make_lookup_result,
}

-- The item of a hostname that was registered at the time `now`.
abbrev pub registered : Zone → Bytes → ℕ → Bytes → SubscriptionWithHostname
registered zone uuid now hostname = record {
  subscription = new_subscription zone uuid now;
  hostname = hostname;
}

module _ (zone : Zone) (shift : ℕ) (changes : ShiftsBy shift zone) (uuid hostname : Bytes)
    (now later : ℕ) where
  -- For 89 days from its registration, but for what the offset of the zone changes by, the item of a
  -- hostname is found for the events of the hostname.
  pub new_subscription-found :
      later + shift ≤ now + 89 * 86400
      → make_lookup_result later (registered zone uuid now hostname) hostname ≡ reply found_lookup
  unfolding make_lookup_result expired
  new_subscription-found h =
      let (low, high) = new_subscription-bounds zone shift uuid now changes in
      ground (arith, eqb_refl hostname)

  -- After 92 days and that change the subscription has run out, whatever hostname the event has.
  pub new_subscription-expired :
      (other : Bytes)
      → now + 92 * 86400 + shift < later
      → make_lookup_result later (registered zone uuid now hostname) other ≡ reply expired_lookup
  unfolding make_lookup_result expired
  new_subscription-expired other h =
      let (low, high) = new_subscription-bounds zone shift uuid now changes in ground arith
