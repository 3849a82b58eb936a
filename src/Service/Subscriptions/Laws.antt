-- ===== src/Service/Subscriptions/Laws.antt =====
-- The caching subscription service against the database alone.
use front_basicrum_go.Base.{
  ℕ, ◌≤◌, Bytes, Option, none, some, ◌≡◌, ◌↔◌, refl, arith, eqb, eqb_iff, Option-cases, Bool-cases,
  inl, inr,
}
use mathlib.Core.Path.{subst}
use front_basicrum_go.Base.Assoc.{lookup, insert, lookup-insert}
use front_basicrum_go.Types.{SubscriptionWithHostname, expired}
use front_basicrum_go.Service.Subscriptions.{
  found_lookup, not_found_lookup, Answer, answer, failure, Cache, Reply, reply, make_lookup_result,
  Query, get_cached,
}

-- What the service answers with no cache at all.
unfoldable pub ask : Query → ℕ → Bytes → Bytes → Reply
ask query now id hostname = elim (query id) [
  | failure e ↦ record { lookup_result = not_found_lookup; error = some e }
  | answer found ↦ elim found [
    | none ↦ reply not_found_lookup
    | some item ↦ make_lookup_result now item hostname
  ]
]

abbrev pub Agrees :
    Option SubscriptionWithHostname → Answer (Option SubscriptionWithHostname) → Type 0
Agrees none a = Unit
Agrees (some item) a = a ≡ answer (some item)

-- Each item of the cache is the one that the database has.
abbrev pub IsCoherent : Query → Cache → Type 0
IsCoherent query cache = (id : Bytes) → Agrees (lookup id cache) (query id)

module _ (query : Query) (now : ℕ) (id hostname : Bytes) (cache : Cache)
    (h : IsCoherent query cache) where
  insert-IsCoherent :
      (item : SubscriptionWithHostname)
      → query id ≡ answer (some item)
      → IsCoherent query (insert id item cache)
  insert-IsCoherent item q j = elim (Bool-cases (eqb id j)) [
    | inl e ↦ rw (lookup-insert, e) (rw (← (eqb_iff id j).0 e) q)
    | inr e ↦ rw (lookup-insert, e) (h j)
  ]

  load_ask :
      (a : Answer (Option SubscriptionWithHostname))
      → lookup id cache ≡ none
      → query id ≡ a
      → ((get_cached query now id hostname cache).0 ≡ ask query now id hostname)
        × IsCoherent query (get_cached query now id hostname cache).1
  unfolding get_cached ask
  load_ask (failure e) m q = (ground arith, subst (IsCoherent query) (ground arith) h)
  load_ask (answer none) m q = (ground arith, subst (IsCoherent query) (ground arith) h)
  load_ask (answer (some item)) m q =
      (ground arith, subst (IsCoherent query) (ground arith) (insert-IsCoherent item q))

  -- A coherent cache cannot be told from the database by the reply, and it stays coherent.
  pub get_cached-ask :
      ((get_cached query now id hostname cache).0 ≡ ask query now id hostname)
      × IsCoherent query (get_cached query now id hostname cache).1
  unfolding get_cached ask
  get_cached-ask = elim (Option-cases (lookup id cache)) [
    | inl m ↦ load_ask (query id) m refl
    | inr (item, m) ↦
        let q : query id ≡ answer (some item) = subst (λ o. Agrees o (query id)) m (h id) in
        (ground arith, subst (IsCoherent query) (ground arith) h)
  ]

-- An event is accepted exactly when its subscription has the event's host and has not run out.
pub make_lookup_result-found :
    (now : ℕ) (item : SubscriptionWithHostname) (hostname : Bytes)
    → (make_lookup_result now item hostname ≡ reply found_lookup)
      ↔ ((item.hostname ≡ hostname) × (now ≤ item.subscription.expires_at))
unfolding make_lookup_result expired
make_lookup_result-found now item hostname = (
  λ h. (ground (arith, eqb_iff item.hostname hostname), ground arith),
  λ h. ground (arith, eqb_iff item.hostname hostname),
)
