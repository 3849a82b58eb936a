-- ===== src/Dao/Mysql/Writing.antt =====
-- The statements that the adapter sends, in transactions. The calls of database/sql are in a list, the
-- latest first; an oracle says which of them fail, from the calls before and the call itself.
use front_basicrum_go.Base.{
  Bytes, List, [], ◌∷◌, ◌++◌, Bool, true, false, Option, none, some, codes, if◌then◌else◌,
}
use front_basicrum_go.Types.{HostnameEvent, OwnerHostname}
use front_basicrum_go.Beacon.Convert.{RumEvent}
use front_basicrum_go.Dao.{adp_version, base_hosts_table_name, base_owner_hosts_table_name}
use front_basicrum_go.Dao.Sql.{Arg, text, number, time}
use front_basicrum_go.Dao.Mysql.{Adapter}

pub data Call : Type 0 where
  open_db : Bytes → Call
  close_db : Call
  begin_tx : Call
  exec : Bytes → List Arg → Call
  commit_tx : Call
  rollback_tx : Call

-- The text of the error of the latest call, if it fails.
abbrev pub Answers : Type 0
Answers = List Call → Option Bytes

-- The statements of CreateDb. With the error of a `shadowed` one the deferred function sees the outer
-- `err`, which is nil, and does not roll back.
pub record Statement : Type 0 where
  pub query : Bytes
  pub args : List Arg
  pub shadowed : Bool

abbrev pub plain : Bytes → Statement
plain query = record { query = query; args = []; shadowed = false }

abbrev shadowed_by : Bytes → Statement
shadowed_by query = record { query = query; args = []; shadowed = true }

-- The statements of CreateDb in order.
unfoldable pub statements : Bool → Adapter → List Statement
statements reset a =
    (if reset then plain (codes "DROP DATABASE IF EXISTS " ++ a.db_name) ∷ [] else [])
    ++ plain (
        codes "CREATE DATABASE "
        ++ (a.db_name ++ codes " CHARACTER SET utf8mb4 COLLATE utf8mb4_unicode_ci"))
      ∷ plain (codes "USE " ++ a.db_name)
      ∷ plain (
          codes
            "CREATE TABLE latency(\n\t\t\tid     INT NOT NULL AUTO_INCREMENT,\n\t\t\tcdir TEXT NOT NULL,\n\t\t\tserver_id INT,\n\t\t\tans INT NOT NULL,\n\t\t\tup INT NOT NULL,\n\t\t\tstatus_code INT NOT NULL,\n\t\t\tcreated_at DATETIME NOT NULL DEFAULT NOW(),\n\t\t\tlatency INT NOT NULL,\n\t\t\tcountry TEXT NOT NULL,\n\t\t\tPRIMARY KEY (id)\n\t\t\t)")
      ∷ shadowed_by (
          codes "CREATE TABLE IF NOT EXISTS "
          ++ (a.prefix
              ++ codes
                  "webperf_rum_hostnames (\n\t\t\thostname                        TEXT,\n\t\t\tupdated_at                      DATETIME DEFAULT NOW()\n\t\t)\n\t\t"))
      ∷ shadowed_by (
          codes "CREATE TABLE IF NOT EXISTS "
          ++ (a.prefix
              ++ codes
                  "webperf_rum_own_hostnames (\n\t\tusername                        TEXT,\n\t\thostname                        TEXT,\n\t\tsubscription_id                 TEXT,\n\t\tsubscription_expire_at          DATETIME NOT NULL,\n\t\tupdated_at                      DateTime DEFAULT NOW()\n\t)"))
      ∷ shadowed_by (
          codes "CREATE TABLE IF NOT EXISTS "
          ++ (a.prefix
              ++ codes
                  "webperf_rum_grant_hostnames (\n\t\tusername                        TEXT,\n\t\thostname                        TEXT,\n\t\towner_username                  TEXT,\n\t\tupdated_at                      DATETIME DEFAULT NOW()\n\t)"))
      ∷ plain (
          codes
            "CREATE TABLE kvmeta(`key`       VARCHAR(64) NOT NULL,createdat   DATETIME(3),`value`     TEXT,PRIMARY KEY(`key`),INDEX kvmeta_createdat_key(createdat, `key`))")
      ∷ record {
        query = codes "INSERT INTO kvmeta(`key`, `value`) VALUES('version',?)";
        args = number adp_version ∷ [];
        shadowed = false;
      }
      ∷ []

module _ (answers : Answers) where
  -- One statement in a transaction, which is rolled back by the deferred function if it fails.
  unfoldable pub in_transaction : Bytes → List Arg → List Call → Option Bytes × List Call
  in_transaction query args calls = elim (answers (begin_tx ∷ calls)) [
    | some e ↦ (some e, begin_tx ∷ calls)
    | none ↦ elim (answers (exec query args ∷ begin_tx ∷ calls)) [
      | some e ↦ (some e, rollback_tx ∷ exec query args ∷ begin_tx ∷ calls)
      | none ↦ (
        answers (commit_tx ∷ exec query args ∷ begin_tx ∷ calls),
        commit_tx ∷ exec query args ∷ begin_tx ∷ calls,
      )
    ]
  ]

  unfoldable pub save : Adapter → RumEvent → List Call → Option Bytes × List Call
  save a event =
      in_transaction
        (codes
          "INSERT INTO latency(cdir,ans,up,status_code,created_at,country, latency) VALUES(?,?,?,?,?,?,?)")
        (text event.cdir
          ∷ text event.ans
          ∷ text event.up
          ∷ text event.status_code
          ∷ text event.created_at
          ∷ text event.country
          ∷ text event.latency
          ∷ [])

  unfoldable pub save_host : Adapter → HostnameEvent → List Call → Option Bytes × List Call
  save_host a event =
      in_transaction
        (codes "INSERT INTO "
          ++ (a.prefix ++ (base_hosts_table_name ++ codes "(hostname, updated_at) VALUES(?,?)")))
        (text event.hostname ∷ text event.updated_at ∷ [])

  unfoldable pub insert_owner_hostname :
      Adapter → OwnerHostname → List Call → Option Bytes × List Call
  insert_owner_hostname a item =
      in_transaction
        (codes "INSERT INTO "
          ++ (a.prefix
              ++ (base_owner_hosts_table_name
                  ++ codes
                      "(username, hostname, subscription_id, subscription_expire_at) VALUES(?,?,?,?)")))
        (text item.username
          ∷ text item.hostname
          ∷ text item.subscription.id
          ∷ time item.subscription.expires_at
          ∷ [])

  unfoldable pub delete_owner_hostname :
      Adapter → Bytes → Bytes → List Call → Option Bytes × List Call
  delete_owner_hostname a hostname username =
      in_transaction
        (codes "DELETE FROM "
          ++ (a.prefix
              ++ (base_owner_hosts_table_name ++ codes " WHERE hostname = ? AND username = ?")))
        (text hostname ∷ text username ∷ [])

  unfoldable pub run_statements : List Statement → List Call → Option Bytes × List Call
  run_statements [] calls = (answers (commit_tx ∷ calls), commit_tx ∷ calls)
  run_statements (s ∷ rest) calls =
      let more = run_statements rest (exec s.query s.args ∷ calls) in
      elim (answers (exec s.query s.args ∷ calls)) [
        | none ↦ more
        | some e ↦ (
          some e,
          if s.shadowed
              then exec s.query s.args ∷ calls
              else rollback_tx ∷ exec s.query s.args ∷ calls,
        )
      ]

  -- CreateDb; `without_db` is the DSN with no name of a database. The connection is closed, and the
  -- adapter keeps what sqlx.Open returns, nil with an error.
  unfoldable pub create_db :
      (Bytes → Bytes) → Bool → Adapter → List Call → (Option Bytes × List Call) × Adapter
  create_db without_db reset a calls =
      let opened = open_db (without_db a.dsn) ∷ close_db ∷ calls in
      elim (answers opened) [
        | some e ↦ ((some e, opened), record a { db = false })
        | none ↦ elim (answers (begin_tx ∷ opened)) [
          | some e ↦ ((some e, begin_tx ∷ opened), a)
          | none ↦ (run_statements (statements reset a) (begin_tx ∷ opened), a)
        ]
      ]
