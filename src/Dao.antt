-- ===== src/Dao.antt =====
-- dao: the database adapters of dao/mysql, dao/clickhouse, dao/rethinkdb and dao/redis. Here is what
-- several of them have in common. An adapter is the record of its fields; what the driver of the
-- database answers is an argument of each call.
pub mod Addresses
pub mod Rows
pub mod Sql
pub mod Checking
pub mod Mysql
pub mod Clickhouse
pub mod Rethinkdb
pub mod Redis
pub mod Migration
mod Tests
use front_basicrum_go.Base.{
  ℕ, Bytes, ◌++◌, Bool, true, false, Option, none, some, codes, ◌==◌, if◌then◌else◌,
}
use front_basicrum_go.Base.Decimal.{ℤ, pos, negsuc, is_positive, itoa_int, itoa}

-- An error of a driver: its text, the number of a MySQL error, and whether it is sql.ErrNoRows.
pub record Failure : Type 0 where
  pub text : Bytes
  pub number : Option ℕ
  pub no_rows : Bool

abbrev pub adp_version : ℕ
adp_version = 1

abbrev pub default_max_results : ℕ
default_max_results = 1024

abbrev pub default_database : Bytes
default_database = codes "rum"

abbrev pub base_hosts_table_name : Bytes
base_hosts_table_name = codes "webperf_rum_hostnames"

abbrev pub base_owner_hosts_table_name : Bytes
base_owner_hosts_table_name = codes "webperf_rum_own_hostnames"

abbrev pub not_initialized : Bytes
not_initialized = codes "Database not initialized"

abbrev pub invalid_version : Bytes
invalid_version = codes "Invalid database version "

-- SetMaxResults: the new limit.
unfoldable pub max_results_of : ℤ → ℤ
max_results_of val = if is_positive val then val else pos default_max_results

is_version : ℤ → Bool
is_version (pos n) = n == adp_version
is_version (negsuc n) = false

-- CheckDbVersion behind what GetDbVersion returned.
unfoldable pub check_version : ℤ → Option Bytes → Option Bytes
unfolding is_version
check_version version (some e) = some e
check_version version none =
    if is_version version
    then none
    else some (invalid_version ++ (itoa_int version ++ (codes ". Expected " ++ itoa adp_version)))
