-- ===== src/Dao/Checking.antt =====
-- What a check of the version that passes says.
use front_basicrum_go.Base.{Bytes, true, Option, none, some, ◌≡◌, arith}
use front_basicrum_go.Base.Decimal.{ℤ, pos, negsuc}
use front_basicrum_go.Dao.{adp_version, is_version, check_version}

is_version-pos : (v : ℤ) → is_version v ≡ true → v ≡ pos adp_version
unfolding is_version
is_version-pos (pos n) h = ground arith
is_version-pos (negsuc n) h = ground arith

-- A check that passes read the version of the adapters.
pub check_version-none : (v : ℤ) (e : Option Bytes) → check_version v e ≡ none → v ≡ pos adp_version
unfolding check_version
check_version-none v none h = is_version-pos v (ground arith)
check_version-none v (some x) h = ground arith
