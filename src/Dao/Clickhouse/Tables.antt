-- ===== src/Dao/Clickhouse/Tables.antt =====
-- The tables that CreateDb leaves, against the one that the writes and the readers name.
use front_basicrum_go.Base.{
  Bytes, List, [], ◌∷◌, ◌++◌, Bool, false, ◌&&◌, ◌||◌, Option, none, ◌≡◌, arith, codes, eqb,
  eqb_refl, if◌then◌else◌,
}
use front_basicrum_go.Dao.{base_owner_hosts_table_name}
use front_basicrum_go.Dao.Clickhouse.{
  Adapter, Statement, drop_database, create_database, use_database, create_table, create_view,
  insert_version, statements, run_statements, create_db,
}

-- The database in use behind the statements, the latest of which stands first.
unfoldable pub in_use : List Statement → Bytes
in_use [] = codes "default"
in_use (use_database db ∷ before) = db
in_use (drop_database db ∷ before) = in_use before
in_use (create_database db ∷ before) = in_use before
in_use (create_table t ∷ before) = in_use before
in_use (create_view t ∷ before) = in_use before
in_use (insert_version t v ∷ before) = in_use before

-- Whether the statements have made a table of a database.
unfoldable pub has_table : Bytes → Bytes → List Statement → Bool
has_table db t [] = false
has_table db t (drop_database d ∷ before) =
    let has = has_table db t before in if eqb d db then false else has
has_table db t (create_table u ∷ before) =
    (eqb (in_use before) db && eqb u t) || has_table db t before
has_table db t (create_database d ∷ before) = has_table db t before
has_table db t (use_database d ∷ before) = has_table db t before
has_table db t (create_view u ∷ before) = has_table db t before
has_table db t (insert_version u v ∷ before) = has_table db t before

-- After a CreateDb with no error, the database `rum` has the table of owner hostnames, which the queries
-- and the inserts name as one of `rum`, exactly when `rum` is the name of the configured database.
pub create_db-has_table :
    (answers : List Statement → Option Bytes) (reset : Bool) (a : Adapter) (done : List Statement)
    → create_db answers reset a ≡ (none, done)
    → has_table (codes "rum") (a.prefix ++ base_owner_hosts_table_name) done
      ≡ eqb a.db_name (codes "rum")
unfolding create_db statements run_statements has_table in_use
create_db-has_table answers reset a done h =
    ground (arith, eqb_refl (a.prefix ++ base_owner_hosts_table_name))
