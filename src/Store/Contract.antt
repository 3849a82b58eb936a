-- ===== src/Store/Contract.antt =====
-- What the store relies on in an adapter, and what it gives for it.
use front_basicrum_go.Base.{Bytes, [], ◌∷◌, true, Option, none, some, ◌≡◌, refl, arith}
use mathlib.Core.Path.{subst}
use front_basicrum_go.Base.Assoc.{lookup}
use front_basicrum_go.Base.Outcome.{returns}
use front_basicrum_go.Base.Decimal.{ℤ}
use front_basicrum_go.Store.{
  Adapter, Config, Parsed, Store, chosen, choose_adapter, open_adapter, open_store, is_open, call,
  get_adapter_version, get_db_version, opened, upgrade_db, only, named,
}
use front_basicrum_go.Store.Opening.{IsOpening, open_adapter-Opened}

-- An adapter is open once it was opened with no error, and its check passes only a database of its
-- version.
pub record IsAdapter {W : Type 0} (a : Adapter W) : Type 0 where
  pub opening : IsOpening a
  pub checking : (w : W) → a.check_db_version w ≡ none → a.get_db_version w ≡ a.version

-- The store has no other adapters, whatever the configuration says.
abbrev pub HasAdapters : {W : Type 0} → Store W → Type 0
HasAdapters {W} s = (c : Config) (a : Adapter W) → choose_adapter c s ≡ chosen a → IsAdapter a

module _ {W : Type 0} (parse : Bytes → Parsed) (worker_id : ℤ) (json_config : Bytes) where
  opened_ready :
      (s s' : Store W) (r : Option Bytes × Store W)
      → HasAdapters s
      → open_adapter parse worker_id json_config s ≡ r
      → open_store parse worker_id json_config s ≡ returns (none, s')
      → (is_open s' ≡ true) × (get_db_version s' ≡ get_adapter_version s')
  unfolding open_store call is_open get_db_version get_adapter_version
  opened_ready s s' (some x, s₁) h o e = let no_success : ⊥ = ground arith in absurd no_success
  opened_ready s s' (none, s₁) h o e =
      let opened =
        open_adapter-Opened parse worker_id json_config s s₁ (λ d a c. (h d a c).opening) o in
      let laws = h opened.read opened.adapter opened.choice in
      let used = opened.in_use in
      let now = opened.now_open in
      let checked = laws.checking s₁.database in
      (ground (arith, now, used), ground (arith, used, checked))

  -- Where every adapter that the store can choose keeps the contract, an opening of the store with no
  -- error leaves it open on a database of the version of the adapter.
  pub open_store-ready :
      (s s' : Store W)
      → HasAdapters s
      → open_store parse worker_id json_config s ≡ returns (none, s')
      → (is_open s' ≡ true) × (get_db_version s' ≡ get_adapter_version s')
  open_store-ready s s' h e =
      opened_ready s s' (open_adapter parse worker_id json_config s) h refl e

-- Upgrading an open store is upgrading its adapter.
pub upgrade_db-open :
    {W : Type 0} (parse : Bytes → Parsed) (json_config : Bytes) (s : Store W) (a : Adapter W)
    → s.adp ≡ some a
    → is_open s ≡ true
    → upgrade_db parse json_config s
      ≡ returns ((a.upgrade_db s.database).0, record s { database = (a.upgrade_db s.database).1 })
unfolding upgrade_db opened call is_open
upgrade_db-open parse json_config s a used is = ground arith

-- A store whose one adapter keeps the contract, and that has none in use, has no other adapter to choose.
pub single-HasAdapters :
    {W : Type 0} (a : Adapter W) (s : Store W)
    → IsAdapter a
    → s.adp ≡ none
    → s.available ≡ (a.name, a) ∷ []
    → HasAdapters s
unfolding choose_adapter only named lookup
single-HasAdapters a s h n o c b e = let same : a ≡ b = ground arith in subst IsAdapter same h
