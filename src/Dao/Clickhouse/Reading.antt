-- ===== src/Dao/Clickhouse/Reading.antt =====
-- The two readers of subscriptions agree, so that a cache loaded from the table is coherent with it.
use front_basicrum_go.Base.{
  Bytes, List, [], ◌∷◌, Option, none, some, ◌≡◌, refl, arith, ◌∙◌, sym, ap,
}
use mathlib.Core.Path.{subst}
use front_basicrum_go.Base.Assoc.{lookup, lookup-nil}
use front_basicrum_go.Types.{SubscriptionWithHostname}
use front_basicrum_go.Service.Subscriptions.{answer, Cache, Query, load}
use front_basicrum_go.Service.Subscriptions.Laws.{Agrees, IsCoherent}
use front_basicrum_go.Dao.Rows.{
  found, get_subscriptions, answer_of, collect_rows, with_id, all_with_id, HasDistinctIds, or_else,
  lookup-collect_rows, collect_rows-error, all_scanned,
}
use front_basicrum_go.Dao.Clickhouse.{get_subscription}

or_else-none : {A : Type 0} (o : Option A) → or_else o none ≡ o
or_else-none none = refl
or_else-none (some a) = refl

get_subscription-found :
    (table : List SubscriptionWithHostname) (id : Bytes)
    → get_subscription (found (all_with_id id table)) ≡ answer (with_id id table)
unfolding get_subscription all_with_id with_id
get_subscription-found [] id = refl
get_subscription-found (item ∷ table) id = ground (arith, get_subscription-found table id)

-- Where the database answers both queries from one table with distinct ids, the subscription that
-- GetSubscription returns for an id is the one that the map of GetSubscriptions has for it.
pub get_subscription-get_subscriptions :
    (table : List SubscriptionWithHostname) (id : Bytes)
    → HasDistinctIds table
    → get_subscription (found (all_with_id id table))
      ≡ answer (lookup id (get_subscriptions (found table)).0)
unfolding get_subscriptions
get_subscription-get_subscriptions table id d =
    get_subscription-found table id
    ∙ ap answer (
        sym (
          lookup-collect_rows table [] id d
          ∙ rw (lookup-nil {V = SubscriptionWithHostname} id) (or_else-none (with_id id table))))

-- What a cache loaded from the table has for an id is what the database answers for it.
pub load-lookup :
    (table : List SubscriptionWithHostname) (query : Query) (old : Cache)
    → HasDistinctIds table
    → ((id : Bytes) → query id ≡ get_subscription (found (all_with_id id table)))
    → (id : Bytes)
    → query id ≡ answer (lookup id (load (answer_of (get_subscriptions (found table))) old).1)
unfolding load answer_of get_subscriptions
load-lookup table query old d q id =
    let e = collect_rows-error table [] in
    q id
    ∙ get_subscription-get_subscriptions table id d
    ∙ ap (λ c. answer (lookup id c)) (ground (arith, e))

Agrees-answer : (o : Option SubscriptionWithHostname) → Agrees o (answer o)
Agrees-answer none = tt
Agrees-answer (some item) = refl

-- The cache that Load makes of the table of a database with distinct ids is coherent with the queries
-- by id that the database answers from the same table.
pub load-IsCoherent :
    (table : List SubscriptionWithHostname) (query : Query) (old : Cache)
    → HasDistinctIds table
    → ((id : Bytes) → query id ≡ get_subscription (found (all_with_id id table)))
    → ((load (answer_of (get_subscriptions (found table))) old).0 ≡ none)
      × IsCoherent query (load (answer_of (get_subscriptions (found table))) old).1
unfolding load answer_of get_subscriptions
load-IsCoherent table query old d q =
    let m = (collect_rows (all_scanned table) none []).0 in
    let e = collect_rows-error table [] in
    (
      ground (arith, e),
      λ id.
          subst (λ c. Agrees (lookup id c) (query id)) (ground (arith, e))
            (subst (Agrees (lookup id m))
              (sym (q id ∙ get_subscription-get_subscriptions table id d))
              (Agrees-answer (lookup id m))),
    )
