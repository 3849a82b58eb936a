-- ===== src/Store/Opening.antt =====
-- When the store opens an adapter, and which one.
use front_basicrum_go.Base.{
  Bytes, true, false, Option, none, some, ◌≡◌, ◌≢◌, refl, arith, eqb, eqb_iff, if◌then◌else◌,
}
use front_basicrum_go.Base.Assoc.{lookup, lookup-insert}
use front_basicrum_go.Base.Outcome.{returns, panics}
use front_basicrum_go.Base.Decimal.{ℤ}
use front_basicrum_go.Store.{
  Adapter, Config, Parsed, config, invalid, Store, Chosen, chosen, missing, choose_adapter,
  valid_worker_id, adapter_config, open_chosen, open_adapter, is_open, register_adapter,
}

-- An adapter that was opened with no error is open, as the interface says.
abbrev pub IsOpening : {W : Type 0} → Adapter W → Type 0
IsOpening {W} a =
    (raw : Option Bytes) (w : W)
    → (a.open_database raw w).0 ≡ none
    → a.is_open (a.open_database raw w).1 ≡ true

module _ {W : Type 0} where
  -- How an adapter was opened.
  pub record Opened (parse : Bytes → Parsed) (worker_id : ℤ) (json_config : Bytes) (s s' : Store W)
      : Type 0 where
    pub read : Config
    pub adapter : Adapter W
    pub parsed : parse json_config ≡ config read
    pub choice : choose_adapter read s ≡ chosen adapter
    pub was_closed : adapter.is_open s.database ≡ false
    pub worker : valid_worker_id worker_id ≡ true
    pub in_use : s'.adp ≡ some adapter
    pub now_open : is_open s' ≡ true

  opened_chosen :
      (worker_id : ℤ) (c : Config) (a : Adapter W) (s s' : Store W)
      → IsOpening a
      → open_chosen worker_id c a (record s { adp = some a }) ≡ (none, s')
      → (a.is_open s.database ≡ false)
        × (valid_worker_id worker_id ≡ true)
        × (s'.adp ≡ some a)
        × (is_open s' ≡ true)
  unfolding open_chosen is_open
  opened_chosen worker_id c a s s' h e = (
    ground arith,
    ground arith,
    ground arith,
    ground (
      arith,
      h (adapter_config a.name c.adapters) (a.set_max_results c.max_results s.database).1,
    ),
  )

module _ {W : Type 0} (parse : Bytes → Parsed) (worker_id : ℤ) (json_config : Bytes) where
  chosen_Opened :
      (s s' : Store W) (c : Config) (x : Chosen W)
      → parse json_config ≡ config c
      → choose_adapter c s ≡ x
      → open_adapter parse worker_id json_config s ≡ (none, s')
      → ((d : Config) (a : Adapter W) → choose_adapter d s ≡ chosen a → IsOpening a)
      → Opened parse worker_id json_config s s'
  unfolding open_adapter
  chosen_Opened s s' c (missing m) p q o h = let no_success : ⊥ = ground arith in absurd no_success
  chosen_Opened s s' c (chosen a) p q o h =
      let (was_closed, worker, in_use, now_open) =
        opened_chosen worker_id c a s s' (h c a q) (ground arith) in
      record {
        read = c;
        adapter = a;
        parsed = p;
        choice = q;
        was_closed = was_closed;
        worker = worker;
        in_use = in_use;
        now_open = now_open;
      }

  parsed_Opened :
      (s s' : Store W) (x : Parsed)
      → parse json_config ≡ x
      → open_adapter parse worker_id json_config s ≡ (none, s')
      → ((d : Config) (a : Adapter W) → choose_adapter d s ≡ chosen a → IsOpening a)
      → Opened parse worker_id json_config s s'
  unfolding open_adapter
  parsed_Opened s s' (invalid m) p o h = let no_success : ⊥ = ground arith in absurd no_success
  parsed_Opened s s' (config c) p o h = chosen_Opened s s' c (choose_adapter c s) p refl o h

  -- If the adapters that the store can choose are open once they were opened with no error, an opening
  -- with no error has read the configuration, had a worker id from 0 to 1023, found the adapter that it
  -- chose closed, and leaves it in use and open.
  pub open_adapter-Opened :
      (s s' : Store W)
      → ((d : Config) (a : Adapter W) → choose_adapter d s ≡ chosen a → IsOpening a)
      → open_adapter parse worker_id json_config s ≡ (none, s')
      → Opened parse worker_id json_config s s'
  open_adapter-Opened s s' h o = parsed_Opened s s' (parse json_config) refl o h

  -- An adapter that is open stays as it is: opening again is an error, and changes nothing.
  pub open_adapter_again :
      (s : Store W)
      → is_open s ≡ true
      → ((open_adapter parse worker_id json_config s).0 ≢ none)
        × ((open_adapter parse worker_id json_config s).1 ≡ s)
  unfolding open_adapter open_chosen choose_adapter is_open
  open_adapter_again s h = (λ e. ground arith, ground arith)

-- Registering an adapter with no panic puts it under its name, where no adapter was, and leaves the
-- others; a second adapter of that name then panics.
pub register_adapter_lem :
    {W : Type 0} (a b : Adapter W) (s s' : Store W) (name : Bytes)
    → register_adapter (some a) s ≡ returns s'
    → b.name ≡ a.name
    → (lookup a.name s.available ≡ none)
      × (lookup name s'.available ≡ (if eqb a.name name then some a else lookup name s.available))
      × (register_adapter (some b) s' ≡ panics)
unfolding register_adapter
register_adapter_lem {W} a b s s' name h e = (
  ground arith,
  ground (arith, lookup-insert a.name name a s.available),
  ground (arith, lookup-insert a.name a.name a s.available, eqb_iff a.name a.name),
)
