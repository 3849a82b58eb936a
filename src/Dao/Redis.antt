-- ===== src/Dao/Redis.antt =====
-- dao/redis/redis.go: the keys and the records. The client of go-redis is a record of operations on a
-- state of the database; a hash is the list of its fields.
pub mod Options
pub mod Keys
use front_basicrum_go.Base.{
  ℕ, Bytes, List, [], ◌∷◌, ◌++◌, Bool, true, false, Option, none, some, codes, eqb, if◌then◌else◌,
}
use front_basicrum_go.Base.Assoc.{lookup, insert}
use front_basicrum_go.Base.Decimal.{ℤ, pos, negsuc, is_positive, itoa_int, itoa}
use front_basicrum_go.Types.{HostnameEvent, OwnerHostname, SubscriptionWithHostname}
use front_basicrum_go.Beacon.Convert.{RumEvent}
use front_basicrum_go.Service.Subscriptions.{Answer, answer, failure, Cache}
use front_basicrum_go.Dao.{adp_version, base_hosts_table_name, base_owner_hosts_table_name}

pub record Adapter : Type 0 where
  pub conn : Bool
  pub max_results : ℤ
  pub version : ℤ
  pub prefix : Bytes

-- `scan` is one SCAN from cursor 0; `hscan` is what the iterator of HScan goes through.
pub record Client (W : Type 0) : Type 0 where
  pub hset : Bytes → List (Bytes × Bytes) → W → Option Bytes × W
  pub del : Bytes → W → Option Bytes × W
  pub incr : Bytes → W → W
  pub get_int64 : Bytes → W → ℤ
  pub scan : Bytes → W → List Bytes × Option Bytes
  pub hget_all : Bytes → W → List (Bytes × Bytes) × Option Bytes
  pub hscan : Bytes → W → List Bytes × Option Bytes
  pub flush_db : W → W

-- `error` is what Close of the connection returns.
unfoldable pub close_adapter : Option Bytes → Adapter → Option Bytes × Adapter
close_adapter error a =
    if a.conn then (error, record a { conn = false; version = negsuc 0 }) else (none, a)

unfoldable pub owner_key : Adapter → Bytes → Bytes → Bytes
owner_key a username hostname =
    a.prefix ++ (base_owner_hosts_table_name ++ (codes ":" ++ (username ++ hostname)))

-- The value of a field; a missing field is the empty text.
abbrev pub field : Bytes → List (Bytes × Bytes) → Bytes
field name fields = elim (lookup name fields) [ none ↦ [] | some v ↦ v ]

-- The last of a list of texts, or the empty one.
last_text : List Bytes → Bytes → Bytes
last_text [] t = t
last_text (s ∷ ss) t = last_text ss s

module _ {W : Type 0} (client : Client W) where
  -- `now` is the text that go-redis makes of the present time.
  unfoldable pub save : Bytes → RumEvent → W → Option Bytes × W
  save now event w =
      let w' = client.incr (codes "latid") w in
      let id = itoa_int (client.get_int64 (codes "latid") w') in
      client.hset (codes "latency:" ++ id)
        ((codes "created_at", now)
          ∷ (codes "id", id)
          ∷ (codes "ans", event.ans)
          ∷ (codes "latency", event.latency)
          ∷ (codes "status_code", event.status_code)
          ∷ (codes "up", event.up)
          ∷ (codes "cdir", event.cdir)
          ∷ (codes "server_id", id)
          ∷ [])
        w'

  unfoldable pub save_host : Adapter → HostnameEvent → W → Option Bytes × W
  save_host a event =
      client.hset (a.prefix ++ (base_hosts_table_name ++ (codes ":" ++ event.hostname)))
        ((codes "hostname", event.hostname) ∷ (codes "updated_at", event.updated_at) ∷ [])

  -- `format` is the text that go-redis makes of a time.
  unfoldable pub insert_owner_hostname :
      (ℕ → Bytes) → Adapter → OwnerHostname → W → Option Bytes × W
  insert_owner_hostname format a item = client.hset (owner_key a item.username item.hostname) (
      (codes "username", item.username)
      ∷ (codes "hostname", item.hostname)
      ∷ (codes "subscription_id", item.subscription.id)
      ∷ (codes "expires_at", format item.subscription.expires_at)
      ∷ [])

  unfoldable pub delete_owner_hostname : Adapter → Bytes → Bytes → W → Option Bytes × W
  delete_owner_hostname a hostname username = client.del (owner_key a username hostname)

  -- A record as a subscription; `parse` is time.Parse with its error dropped.
  unfoldable pub item_of : (Bytes → ℕ) → List (Bytes × Bytes) → SubscriptionWithHostname
  item_of parse val = record {
    subscription = record {
      id = field (codes "subscription_id") val;
      expires_at = parse (field (codes "expires_at") val);
    };
    hostname = field (codes "hostname") val;
  }

  -- The loop of GetSubscriptions; a key that cannot be read is skipped.
  unfoldable pub read_all : (Bytes → ℕ) → List Bytes → Cache → W → Cache
  read_all parse [] result w = result
  read_all parse (key ∷ keys) result w =
      let (val, e) = client.hget_all key w in
      let item = item_of parse val in
      let skipped = read_all parse keys result w in
      let taken = read_all parse keys (insert item.subscription.id item result) w in
      elim e [ some x ↦ skipped | none ↦ taken ]

  unfoldable pub get_subscriptions : (Bytes → ℕ) → Adapter → W → Answer Cache
  get_subscriptions parse a w =
      let (keys, e) = client.scan (a.prefix ++ (base_owner_hosts_table_name ++ codes "*")) w in
      elim e [
        | some x ↦ failure (codes "get subscriptions failed: " ++ x)
        | none ↦ answer (read_all parse keys [] w)
      ]

  -- The loop of GetSubscription.
  unfoldable pub read_one : (Bytes → ℕ) → Bytes → List Bytes → W → Option SubscriptionWithHostname
  read_one parse id [] w = none
  read_one parse id (key ∷ keys) w =
      let (val, e) = client.hget_all key w in
      let later = read_one parse id keys w in
      elim e [
        | some x ↦ later
        | none ↦
            if eqb (field (codes "subscription_id") val) id then some (item_of parse val) else later
      ]

  -- The pattern has no star.
  unfoldable pub get_subscription :
      (Bytes → ℕ) → Adapter → Bytes → W → Answer (Option SubscriptionWithHostname)
  get_subscription parse a id w =
      let (keys, e) = client.scan (a.prefix ++ base_owner_hosts_table_name) w in
      elim e [
        | some x ↦ failure (codes "get subscriptions failed: " ++ x)
        | none ↦ answer (read_one parse id keys w)
      ]

  -- The loop of GetEvents; a key that cannot be read is skipped.
  unfoldable pub read_events : List Bytes → W → List (List (Bytes × Bytes))
  read_events [] w = []
  read_events (key ∷ keys) w =
      let (val, e) = client.hget_all key w in
      let rest = read_events keys w in elim e [ some x ↦ rest | none ↦ val ∷ rest ]

  -- GetEvents, which drops the error of the scan.
  unfoldable pub get_events : W → List (List (Bytes × Bytes))
  get_events w = read_events (client.scan (codes "latency*") w).0 w

  -- The errors of the two commands are dropped.
  unfoldable pub create_db : Bool → W → W
  create_db reset w =
      (client.hset (codes "kvmeta")
        ((codes "`key`", codes "version") ∷ (codes "`value`", itoa adp_version) ∷ [])
        (if reset then client.flush_db w else w)).1

  -- `atoi` is strconv.Atoi with its error dropped.
  unfoldable pub get_db_version : (Bytes → ℤ) → Adapter → W → (ℤ × Option Bytes) × Adapter
  unfolding last_text
  get_db_version atoi a w =
      let (values, e) = client.hscan (codes "kvmeta") w in
      let vers = atoi (last_text values []) in
      if is_positive a.version then ((a.version, none), a) else elim e [
        | some x ↦ ((negsuc 0, some x), a)
        | none ↦ ((vers, none), record a { version = vers })
      ]
