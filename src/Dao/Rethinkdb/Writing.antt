-- ===== src/Dao/Rethinkdb/Writing.antt =====
-- dao/rethinkdb/rethinkdb.go: the writes. Each is one query that RunWrite sends.
use front_basicrum_go.Base.{Bytes, List, [], ◌∷◌, ◌++◌, Option, codes}
use front_basicrum_go.Types.{HostnameEvent, OwnerHostname}
use front_basicrum_go.Beacon.Convert.{RumEvent}
use front_basicrum_go.Dao.{base_hosts_table_name, base_owner_hosts_table_name}
use front_basicrum_go.Dao.Rethinkdb.{Adapter}

-- A row that Insert puts into a table.
pub data Row : Type 0 where
  rum_event : RumEvent → Row
  hostname_event : HostnameEvent → Row
  owner_hostname : OwnerHostname → Row

-- `delete` deletes the rows that GetAllByIndex gives for an index and a value of it, and whose fields have
-- the values of the filter.
pub data Query : Type 0 where
  insert : Bytes → Bytes → Row → Query
  delete : Bytes → Bytes → Bytes × Bytes → List (Bytes × Bytes) → Query

module _ (answers : List Query → Option Bytes) where
  run_write : Query → List Query → Option Bytes × List Query
  run_write q sent = (answers (q ∷ sent), q ∷ sent)

  unfoldable pub save : Adapter → RumEvent → List Query → Option Bytes × List Query
  unfolding run_write
  save a event = run_write (insert a.db_name (codes "latency") (rum_event event))

  unfoldable pub save_host : Adapter → HostnameEvent → List Query → Option Bytes × List Query
  unfolding run_write
  save_host a event =
      run_write (insert a.db_name (a.prefix ++ base_hosts_table_name) (hostname_event event))

  unfoldable pub insert_owner_hostname :
      Adapter → OwnerHostname → List Query → Option Bytes × List Query
  unfolding run_write
  insert_owner_hostname a item =
      run_write (insert a.db_name (a.prefix ++ base_owner_hosts_table_name) (owner_hostname item))

  unfoldable pub delete_owner_hostname :
      Adapter → Bytes → Bytes → List Query → Option Bytes × List Query
  unfolding run_write
  delete_owner_hostname a hostname username = run_write (
      delete a.db_name (a.prefix ++ base_owner_hosts_table_name) (codes "username", username)
        ((codes "hostname", hostname) ∷ []))
