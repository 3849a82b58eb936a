-- ===== src/Dao/Clickhouse/Writing.antt =====
-- dao/clickhouse/clickhouse.go: the writes. An oracle gives the error of a statement from those sent
-- before and the statement itself; the latest stands first.
use front_basicrum_go.Base.{Bytes, List, [], ◌∷◌, ◌++◌, Option, none, some, codes}
use front_basicrum_go.Types.{HostnameEvent, OwnerHostname}
use front_basicrum_go.Beacon.Convert.{RumEvent}
use front_basicrum_go.Service.Subscriptions.{Answer, answer, failure}
use front_basicrum_go.Dao.{base_hosts_table_name}
use front_basicrum_go.Dao.Sql.{Arg, text, time}
use front_basicrum_go.Dao.Clickhouse.{Adapter, owner_table}

pub data Sent : Type 0 where
  exec : Bytes → List Arg → Sent
  async_insert : Bytes → Sent

module _ (answers : List Sent → Option Bytes) where
  send : Sent → List Sent → Option Bytes × List Sent
  send q sent = (answers (q ∷ sent), q ∷ sent)

  -- The error of a statement, as Save and SaveHost wrap it.
  wrapped : Option Bytes × List Sent → Option Bytes × List Sent
  wrapped (none, sent) = (none, sent)
  wrapped (some e, sent) = (some (codes "clickhouse insert failed: " ++ e), sent)

  unfoldable pub save : RumEvent → List Sent → Option Bytes × List Sent
  unfolding send wrapped
  save event sent = wrapped (
      send
        (exec
          (codes
            "INSERT INTO rum.latency(cdir,ans,up,status_code,created_at,country, latency) VALUES(?,?,?,?,?,?,?)")
          (text event.cdir
            ∷ text event.ans
            ∷ text event.up
            ∷ text event.status_code
            ∷ text event.created_at
            ∷ text event.country
            ∷ text event.latency
            ∷ []))
        sent)

  -- `marshal` is json.Marshal.
  unfoldable pub save_host :
      (HostnameEvent → Answer Bytes)
      → Adapter
      → HostnameEvent
      → List Sent
      → Option Bytes × List Sent
  unfolding send wrapped
  save_host marshal a event sent = elim (marshal event) [
    | failure e ↦ (some e, sent)
    | answer data_text ↦ wrapped (
        send
          (async_insert (
            codes "INSERT INTO rum."
            ++ (a.prefix
                ++ (base_hosts_table_name
                    ++ (codes
                          " SETTINGS input_format_skip_unknown_fields = true FORMAT JSONEachRow "
                        ++ data_text)))))
          sent)
  ]

  unfoldable pub insert_owner_hostname :
      Adapter → OwnerHostname → List Sent → Option Bytes × List Sent
  unfolding send
  insert_owner_hostname a item = send (
      exec
        (codes "INSERT INTO "
          ++ (owner_table a
              ++ codes
                  "(username, hostname, subscription_id, subscription_expire_at) VALUES(?,?,?,?)"))
        (text item.username
          ∷ text item.hostname
          ∷ text item.subscription.id
          ∷ time item.subscription.expires_at
          ∷ []))

  unfoldable pub delete_owner_hostname :
      Adapter → Bytes → Bytes → List Sent → Option Bytes × List Sent
  unfolding send
  delete_owner_hostname a hostname username = send (
      exec (codes "DELETE FROM " ++ (owner_table a ++ codes " WHERE hostname = ? AND username = ?"))
        (text hostname ∷ text username ∷ []))
