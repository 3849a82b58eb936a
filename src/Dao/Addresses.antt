-- ===== src/Dao/Addresses.antt =====
-- The addresses in the configuration of redis, clickhouse and rethinkdb: the JSON value is missing, a
-- string, an array, or anything else.
use front_basicrum_go.Base.{
  Bytes, List, [], ◌∷◌, ◌++◌, false, Option, none, some, ◌≡◌, ◌≢◌, refl, arith, is_empty, codes,
  if◌then◌else◌, All, ◌⊎◌, inl, inr,
}

pub data Item : Type 0 where
  text : Bytes → Item
  other_item : Item

pub data Value : Type 0 where
  missing : Value
  string : Bytes → Value
  array : List Item → Value
  other_value : Value

-- The addresses, or the text of the error.
pub data Addresses : Type 0 where
  address : Bytes → Addresses
  addresses : List Bytes → Addresses
  wrong : Bytes → Addresses

-- The loop over the array; `none` is an item that is no text or the empty one.
unfoldable pub read_items : List Item → Option (List Bytes)
read_items [] = some []
read_items (other_item ∷ is) = none
read_items (text h ∷ is) =
    let rest = read_items is in
    if is_empty h then none else elim rest [ none ↦ none | some hs ↦ some (h ∷ hs) ]

list_or_error : Bytes → Option (List Bytes) → Addresses
list_or_error adapter none =
    wrong (codes "adapter " ++ (adapter ++ codes " invalid config.Addresses value"))
list_or_error adapter (some hs) = addresses hs

unfoldable pub read_addresses : Bytes → Bytes → Value → Addresses
unfolding list_or_error
read_addresses adapter default_host missing = address default_host
read_addresses adapter default_host (string host) = address host
read_addresses adapter default_host (array []) =
    wrong (codes "adapter " ++ (adapter ++ codes " failed to parse config.Addresses"))
read_addresses adapter default_host (array (i ∷ is)) = list_or_error adapter (read_items (i ∷ is))
read_addresses adapter default_host other_value =
    wrong (codes "adapter " ++ (adapter ++ codes " failed to parse config.Addresses"))

-- The array of some texts.
abbrev pub texts : List Bytes → List Item
texts [] = []
texts (h ∷ hs) = text h ∷ texts hs

abbrev pub Named : List Bytes → Type 0
Named = All (λ h. is_empty h ≡ false)

items_read :
    (is : List Item) (hs : List Bytes) → read_items is ≡ some hs → (is ≡ texts hs) × Named hs
unfolding read_items
items_read [] [] e = (refl, tt)
items_read [] (h ∷ hs) e = let no_hosts : ⊥ = ground arith in absurd no_hosts
items_read (other_item ∷ is) hs e = let no_hosts : ⊥ = ground arith in absurd no_hosts
items_read (text h ∷ is) [] e = let no_hosts : ⊥ = ground arith in absurd no_hosts
items_read (text h ∷ is) (k ∷ hs) e =
    let (same, named) = items_read is hs (ground arith) in
    (ground (arith, same), (ground arith, named))

-- A list of addresses comes only from an array of just these texts, none of them empty, and it has an
-- address at least.
pub read_addresses-texts :
    (adapter default_host : Bytes) (v : Value) (hs : List Bytes)
    → read_addresses adapter default_host v ≡ addresses hs
    → (v ≡ array (texts hs)) × Named hs × (hs ≢ [])
unfolding read_addresses read_items
read_addresses-texts adapter default_host (array (i ∷ is)) hs e =
    let (same, named) = items_read (i ∷ is) hs (ground arith) in
    (ground (arith, same), named, λ empty. ground (arith, same))
read_addresses-texts adapter default_host missing hs e =
    let no_list : ⊥ = ground arith in absurd no_list
read_addresses-texts adapter default_host (string h) hs e =
    let no_list : ⊥ = ground arith in absurd no_list
read_addresses-texts adapter default_host (array []) hs e =
    let no_list : ⊥ = ground arith in absurd no_list
read_addresses-texts adapter default_host other_value hs e =
    let no_list : ⊥ = ground arith in absurd no_list

pub Addresses-cases :
    (r : Addresses)
    → ((e : Bytes) × (r ≡ wrong e))
      ⊎ (((h : Bytes) × (r ≡ address h)) ⊎ ((hs : List Bytes) × (r ≡ addresses hs)))
Addresses-cases (wrong e) = inl (e, refl)
Addresses-cases (address h) = inr (inl (h, refl))
Addresses-cases (addresses hs) = inr (inr (hs, refl))
