-- ===== src/Service/Subscriptions.antt =====
-- service/subscription.go, service/subscription/disabled/disabled.go and
-- service/subscription/caching/caching.go. What the database answers is an argument of each call.
pub mod Laws
pub mod Trial
use front_basicrum_go.Base.{ℕ, Bytes, List, [], Option, none, some, eqb, not, if◌then◌else◌}
use front_basicrum_go.Base.Assoc.{lookup, insert}
use front_basicrum_go.Types.{SubscriptionWithHostname, expired}

pub data Lookup : Type 0 where
  found_lookup not_found_lookup expired_lookup : Lookup

-- The answer of a query, or its error.
pub data Answer {ℓ} (A : Type ℓ) : Type ℓ where
  answer : A → Answer A
  failure : Bytes → Answer A

abbrev pub Cache : Type 0
Cache = List (Bytes × SubscriptionWithHostname)

-- The two results of `GetSubscription`; `none` is the nil error.
pub record Reply : Type 0 where
  pub lookup_result : Lookup
  pub error : Option Bytes

abbrev pub reply : Lookup → Reply
reply l = record { lookup_result = l; error = none }

unfoldable pub make_lookup_result : ℕ → SubscriptionWithHostname → Bytes → Reply
make_lookup_result now item hostname =
    if expired item.subscription now
    then reply expired_lookup
    else if not (eqb item.hostname hostname)
    then reply not_found_lookup
    else reply found_lookup

-- The query `dao.GetSubscription`; `none` is the nil item.
abbrev pub Query : Type 0
Query = Bytes → Answer (Option SubscriptionWithHostname)

module _ (query : Query) (now : ℕ) where
  load_item : Bytes → Bytes → Answer (Option SubscriptionWithHostname) → Cache → Reply × Cache
  load_item id hostname (failure e) cache =
      (record { lookup_result = not_found_lookup; error = some e }, cache)
  load_item id hostname (answer none) cache = (reply not_found_lookup, cache)
  load_item id hostname (answer (some item)) cache =
      (make_lookup_result now item hostname, insert id item cache)

  -- The caching service.
  unfoldable pub get_cached : Bytes → Bytes → Cache → Reply × Cache
  unfolding load_item
  get_cached id hostname cache = elim (lookup id cache) [
    | some item ↦ (make_lookup_result now item hostname, cache)
    | none ↦ load_item id hostname (query id) cache
  ]

-- Load replaces the cache by what `dao.GetSubscriptions` returns; with an error that is the nil map, and
-- the start-up ends.
unfoldable pub load : Answer Cache → Cache → Option Bytes × Cache
load (answer m) cache = (none, m)
load (failure e) cache = (some e, [])

-- The implementations of ISubscriptionService.
pub data Subscriptions : Type 0 where
  disabled : Subscriptions
  caching : Cache → Subscriptions

unfoldable pub get_subscription : Query → ℕ → Bytes → Bytes → Subscriptions → Reply × Subscriptions
get_subscription query now id hostname disabled = (reply found_lookup, disabled)
get_subscription query now id hostname (caching cache) =
    let (r, cache') = get_cached query now id hostname cache in (r, caching cache')
