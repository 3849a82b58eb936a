-- ===== src/Store/Tests.antt =====
-- The store with one adapter, whose database is open or closed.
use front_basicrum_go.Base.{Bytes, [], ◌∷◌, Bool, true, false, none, some, ◌≡◌, refl, arith, codes}
use front_basicrum_go.Base.Assoc.{lookup}
use front_basicrum_go.Base.Decimal.{pos}
use mathlib.Core.Path.{subst}
use front_basicrum_go.Store.{Adapter, Config, Parsed, config, Store, chosen, choose_adapter}
use front_basicrum_go.Store.Opening.{IsOpening}

abbrev redis : Adapter Bool
redis = record {
  name = codes "redis";
  version = pos 1;
  is_open = λ w. w;
  set_max_results = λ n w. (none, w);
  open_database = λ raw w. (none, true);
  close = λ w. (none, false);
  check_db_version = λ w. none;
  get_db_version = λ w. pos 1;
  create_db = λ reset w. (none, w);
  upgrade_db = λ w. (none, w);
}

abbrev closed : Store Bool
closed = record { available = (codes "redis", redis) ∷ []; adp = none; database = false }

abbrev connected : Store Bool
connected = record closed { adp = some redis; database = true }

abbrev parse : Bytes → Parsed
parse json =
    config (record { uid_key = []; max_results = pos 0; use_adapter = []; adapters = none })

chosen_redis : (d : Config) (a : Adapter Bool) → choose_adapter d closed ≡ chosen a → IsOpening a
unfolding choose_adapter lookup
chosen_redis d a e = let same : redis ≡ a = ground arith in subst IsOpening same (λ raw w o. refl)
