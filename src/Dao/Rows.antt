-- ===== src/Dao/Rows.antt =====
-- The rows of a query as database/sql and clickhouse-go give them, and the loop of GetSubscriptions.
use front_basicrum_go.Base.{
  Bytes, List, [], ◌∷◌, ◌++◌, Option, none, some, ◌≡◌, refl, arith, codes, eqb, eqb_iff,
  if◌then◌else◌,
}
use front_basicrum_go.Base.Assoc.{lookup, insert, lookup-insert}
use front_basicrum_go.Types.{SubscriptionWithHostname}
use front_basicrum_go.Service.Subscriptions.{Answer, answer, failure, Cache}
use front_basicrum_go.Dao.{Failure}

-- What Scan makes of a row.
pub data Scanned (A : Type 0) : Type 0 where
  scanned : A → Scanned A
  scan_error : Bytes → Scanned A

-- `error` is what rows.Err says once Next has ended.
pub record Rows (A : Type 0) : Type 0 where
  pub rows : List (Scanned A)
  pub error : Option Bytes

pub data Queried (A : Type 0) : Type 0 where
  queried : Rows A → Queried A
  query_error : Failure → Queried A

-- The loop over the rows: the map and the error.
unfoldable pub collect_rows :
    List (Scanned SubscriptionWithHostname) → Option Bytes → Cache → Cache × Option Bytes
collect_rows [] error result = (result, error)
collect_rows (scan_error e ∷ rows) error result = (result, some e)
collect_rows (scanned item ∷ rows) error result =
    collect_rows rows error (insert item.subscription.id item result)

-- GetSubscriptions of mysql and clickhouse: the map, which is nil where the query fails, and the error.
unfoldable pub get_subscriptions : Queried SubscriptionWithHostname → Cache × Option Bytes
get_subscriptions (query_error e) = ([], some (codes "get subscriptions failed: " ++ e.text))
get_subscriptions (queried r) = collect_rows r.rows r.error []

-- The loop of GetEvents of mysql and clickhouse: the rows that were read, in order, and the error.
unfoldable pub collect_events :
    {A : Type 0} → List (Scanned A) → Option Bytes → List A × Option Bytes
collect_events [] error = ([], error)
collect_events (scan_error e ∷ rows) error = ([], some e)
collect_events (scanned item ∷ rows) error =
    let (items, e) = collect_events rows error in (item ∷ items, e)

-- The two results as an answer of the database.
unfoldable pub answer_of : Cache × Option Bytes → Answer Cache
answer_of (m, none) = answer m
answer_of (m, some e) = failure e

abbrev pub all_scanned : {A : Type 0} → List A → List (Scanned A)
all_scanned [] = []
all_scanned (a ∷ items) = scanned a ∷ all_scanned items

-- The answer to a query that finds the items.
abbrev pub found : {A : Type 0} → List A → Queried A
found items = queried (record { rows = all_scanned items; error = none })

-- The first item of a table with the id.
unfoldable pub with_id : Bytes → List SubscriptionWithHostname → Option SubscriptionWithHostname
with_id id [] = none
with_id id (item ∷ items) = if eqb item.subscription.id id then some item else with_id id items

-- The items of a table with the id.
unfoldable pub all_with_id : Bytes → List SubscriptionWithHostname → List SubscriptionWithHostname
all_with_id id [] = []
all_with_id id (item ∷ items) =
    let rest = all_with_id id items in if eqb item.subscription.id id then item ∷ rest else rest

-- No two items of the table have one id.
abbrev pub HasDistinctIds : List SubscriptionWithHostname → Type 0
HasDistinctIds [] = Unit
HasDistinctIds (item ∷ items) = (with_id item.subscription.id items ≡ none) × HasDistinctIds items

abbrev pub or_else : {A : Type 0} → Option A → Option A → Option A
or_else none b = b
or_else (some a) b = some a

pub lookup-collect_rows :
    (table : List SubscriptionWithHostname) (result : Cache) (id : Bytes)
    → HasDistinctIds table
    → lookup id (collect_rows (all_scanned table) none result).0
      ≡ or_else (with_id id table) (lookup id result)
unfolding collect_rows with_id
lookup-collect_rows [] result id d = refl
lookup-collect_rows (item ∷ table) result id (new, d) = ground (
  arith,
  lookup-collect_rows table (insert item.subscription.id item result) id d,
  lookup-insert item.subscription.id id item result,
  eqb_iff item.subscription.id id,
)

pub collect_rows-error :
    (table : List SubscriptionWithHostname) (result : Cache)
    → (collect_rows (all_scanned table) none result).1 ≡ none
unfolding collect_rows
collect_rows-error [] result = refl
collect_rows-error (item ∷ table) result =
    collect_rows-error table (insert item.subscription.id item result)
