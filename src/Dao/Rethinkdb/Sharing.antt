-- ===== src/Dao/Rethinkdb/Sharing.antt =====
-- What GetSubscriptions of rethinkdb returns, where all entries of the map share one variable.
use front_basicrum_go.Base.{
  Bytes, List, [], ◌∷◌, Bool, true, false, ◌||◌, Option, none, some, ◌≡◌, refl, arith, eqb,
  if◌then◌else◌,
}
use front_basicrum_go.Base.Assoc.{lookup, insert, lookup-insert, lookup-nil}
use front_basicrum_go.Types.{SubscriptionWithHostname}
use front_basicrum_go.Service.Subscriptions.{answer, Cache}
use front_basicrum_go.Dao.Rethinkdb.{
  Pointer, to_item, many, point_all, deref, zero_item, get_subscriptions,
}

-- Whether a row has the id.
abbrev pub has_id : Bytes → List SubscriptionWithHostname → Bool
has_id id [] = false
has_id id (row ∷ rows) = eqb row.subscription.id id || has_id id rows

-- The last row, and the variable before the loop where there is none.
abbrev pub last_row :
    List SubscriptionWithHostname → SubscriptionWithHostname → SubscriptionWithHostname
last_row [] item = item
last_row (row ∷ rows) item = last_row rows row

abbrev is_some : Option Pointer → Bool
is_some none = false
is_some (some p) = true

lookup-deref :
    (id : Bytes) (m : List (Bytes × Pointer)) (item : SubscriptionWithHostname)
    → lookup id (deref m item) ≡ (if is_some (lookup id m) then some item else none)
unfolding deref lookup
lookup-deref id [] item = refl
lookup-deref id ((j, p) ∷ m) item = ground (arith, lookup-deref id m item)

pointed :
    (id : Bytes) (rows : List SubscriptionWithHostname) (m : List (Bytes × Pointer))
    (item : SubscriptionWithHostname)
    → ((point_all rows m item).1 ≡ last_row rows item)
      × (is_some (lookup id (point_all rows m item).0) ≡ (has_id id rows || is_some (lookup id m)))
unfolding point_all
pointed id [] m item = (refl, refl)
pointed id (row ∷ rows) m item =
    let (last, has) = pointed id rows (insert row.subscription.id to_item m) row in
    (last, ground (arith, has, lookup-insert row.subscription.id id to_item m))

-- Where the query and the cursor do not fail, GetSubscriptions has an entry for each id of the
-- table and no other, and every entry is the last row of the table, whatever row has the id.
pub get_subscriptions-last_row :
    (rows : List SubscriptionWithHostname)
    → (m : Cache) × (get_subscriptions (many rows none) ≡ answer m)
      × ((id : Bytes)
          → lookup id m ≡ (if has_id id rows then some (last_row rows zero_item) else none))
unfolding get_subscriptions
get_subscriptions-last_row rows =
    let (m, item) = point_all rows [] zero_item in
    (
      deref m item,
      refl,
      λ id.
          let (last, has) = pointed id rows [] zero_item in
          ground (arith, last, has, lookup-deref id m item, lookup-nil {V = Pointer} id),
    )
