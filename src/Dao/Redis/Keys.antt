-- ===== src/Dao/Redis/Keys.antt =====
-- The keys that the writes of the Redis adapter make, against the patterns that its readers scan.
use front_basicrum_go.Base.{
  ℕ, Bytes, List, [], ◌∷◌, ◌++◌, Option-cases, Bool, false, none, codes, ◌≡◌, ◌≢◌, arith, ◌⊎◌, inl,
  inr,
}
use front_basicrum_go.Base.Decimal.{itoa_int}
use front_basicrum_go.Types.{HostnameEvent, OwnerHostname}
use front_basicrum_go.Beacon.Convert.{RumEvent}
use front_basicrum_go.Service.Subscriptions.{answer, failure}
use front_basicrum_go.Dao.{base_hosts_table_name, base_owner_hosts_table_name}
use front_basicrum_go.Dao.Redis.{
  Adapter, Client, owner_key, save, save_host, insert_owner_hostname, delete_owner_hostname,
  get_subscription, read_one,
}

-- What Redis promises of the keys that a state holds: a command makes no key but its own, and a scan
-- of the name of the owners' table, a pattern with no special character, finds at most that very key.
pub record IsRedis {W : Type 0} (client : Client W) (holds : Bytes → W → Bool) : Type 0 where
  pub hset_keys :
      (key : Bytes) (fields : List (Bytes × Bytes)) (w : W) (k : Bytes)
      → k ≢ key
      → holds k w ≡ false
      → holds k (client.hset key fields w).1 ≡ false
  pub del_keys :
      (key : Bytes) (w : W) (k : Bytes) → holds k w ≡ false → holds k (client.del key w).1 ≡ false
  pub incr_keys :
      (key : Bytes) (w : W) (k : Bytes)
      → k ≢ key
      → holds k w ≡ false
      → holds k (client.incr key w) ≡ false
  pub scan_keys :
      (w : W)
      → holds base_owner_hosts_table_name w ≡ false
      → (client.scan base_owner_hosts_table_name w).0 ≡ []

-- A call of an operation of the adapter that writes.
pub data Write : Type 0 where
  saving : Bytes → RumEvent → Write
  hosting : HostnameEvent → Write
  inserting : OwnerHostname → Write
  deleting : Bytes → Bytes → Write

module _ {W : Type 0} (client : Client W) (format : ℕ → Bytes) (a : Adapter) where
  unfoldable pub write : Write → W → W
  write (saving now event) w = (save client now event w).1
  write (hosting event) w = (save_host client a event w).1
  write (inserting item) w = (insert_owner_hostname client format a item w).1
  write (deleting hostname username) w = (delete_owner_hostname client a hostname username w).1

  unfoldable pub write_all : List Write → W → W
  write_all [] w = w
  write_all (x ∷ xs) w = write_all xs (write x w)

  module _ (holds : Bytes → W → Bool) (laws : IsRedis client holds)
      (no_prefix : a.prefix ≡ []) where
    owner_key-other :
        (username hostname : Bytes) → base_owner_hosts_table_name ≢ owner_key a username hostname
    unfolding owner_key codes
    owner_key-other username hostname e = ground arith

    hosts-other :
        (hostname : Bytes)
        → base_owner_hosts_table_name
          ≢ a.prefix ++ (base_hosts_table_name ++ (codes ":" ++ hostname))
    unfolding codes
    hosts-other hostname e = ground arith

    latid-other : base_owner_hosts_table_name ≢ codes "latid"
    unfolding codes
    latid-other e = ground arith

    latency-other : (id : Bytes) → base_owner_hosts_table_name ≢ codes "latency:" ++ id
    unfolding codes
    latency-other id e = ground arith

    write-free :
        (x : Write) (w : W)
        → holds base_owner_hosts_table_name w ≡ false
        → holds base_owner_hosts_table_name (write x w) ≡ false
    unfolding write save save_host insert_owner_hostname delete_owner_hostname
    write-free (saving now event) w h =
        let w' = client.incr (codes "latid") w in
        laws.hset_keys _ _ w' base_owner_hosts_table_name
          (latency-other (itoa_int (client.get_int64 (codes "latid") w')))
          (laws.incr_keys (codes "latid") w base_owner_hosts_table_name latid-other h)
    write-free (hosting event) w h =
        laws.hset_keys _ _ w base_owner_hosts_table_name (hosts-other event.hostname) h
    write-free (inserting item) w h =
        laws.hset_keys _ _ w base_owner_hosts_table_name
          (owner_key-other item.username item.hostname) h
    write-free (deleting hostname username) w h =
        laws.del_keys (owner_key a username hostname) w base_owner_hosts_table_name h

    write_all-free :
        (xs : List Write) (w : W)
        → holds base_owner_hosts_table_name w ≡ false
        → holds base_owner_hosts_table_name (write_all xs w) ≡ false
    unfolding write_all
    write_all-free [] w h = h
    write_all-free (x ∷ xs) w h = write_all-free xs (write x w) (write-free x w h)

    -- With a Redis that keeps its promises and with the empty prefix, which nothing in the code
    -- changes: whatever the adapter has written to a database that lacks the bare name of the owners'
    -- table as a key, GetSubscription fails or finds no subscription, for every id.
    pub get_subscription-none :
        (xs : List Write) (w : W) (parse : Bytes → ℕ) (id : Bytes)
        → holds base_owner_hosts_table_name w ≡ false
        → ((e : Bytes) × (get_subscription client parse a id (write_all xs w) ≡ failure e))
          ⊎ (get_subscription client parse a id (write_all xs w) ≡ answer none)
    unfolding get_subscription read_one
    get_subscription-none xs w parse id h =
        elim (Option-cases
          (client.scan (a.prefix ++ base_owner_hosts_table_name) (write_all xs w)).1) [
            | inl n ↦
                inr (ground (arith, laws.scan_keys (write_all xs w) (write_all-free xs w h), n))
            | inr (x, e) ↦ inl (codes "get subscriptions failed: " ++ x, ground (arith, e))
          ]
