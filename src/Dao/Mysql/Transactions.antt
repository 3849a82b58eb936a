-- ===== src/Dao/Mysql/Transactions.antt =====
-- Which transactions stay open.
use front_basicrum_go.Base.{
  Bytes, List, [], ◌∷◌, Bool, true, false, ◌&&◌, Option, none, some, ◌≡◌, refl, arith,
}
use front_basicrum_go.Types.{HostnameEvent, OwnerHostname}
use front_basicrum_go.Beacon.Convert.{RumEvent}
use front_basicrum_go.Dao.Mysql.{Adapter}
use front_basicrum_go.Dao.Sql.{Arg}
use front_basicrum_go.Dao.Mysql.Writing.{
  Call, open_db, close_db, begin_tx, exec, commit_tx, rollback_tx, Answers, in_transaction, save,
  save_host, insert_owner_hostname, delete_owner_hostname, Statement, statements, run_statements,
  create_db,
}

abbrev pub is_none : Option Bytes → Bool
is_none none = true
is_none (some e) = false

-- Whether a transaction is open behind the calls: one that was begun with no error, and was not
-- committed or rolled back since.
unfoldable pub is_open : Answers → List Call → Bool
is_open answers [] = false
is_open answers (begin_tx ∷ calls) = is_none (answers (begin_tx ∷ calls))
is_open answers (commit_tx ∷ calls) = false
is_open answers (rollback_tx ∷ calls) = false
is_open answers (exec q args ∷ calls) = is_open answers calls
is_open answers (open_db dsn ∷ calls) = is_open answers calls
is_open answers (close_db ∷ calls) = is_open answers calls

-- The statement was sent in a transaction that was then committed with no error.
abbrev pub is_committed : Answers → List Call → Bool
is_committed answers (commit_tx ∷ exec q args ∷ begin_tx ∷ calls) =
    is_none (answers (begin_tx ∷ calls))
    && is_none (answers (exec q args ∷ begin_tx ∷ calls))
    && is_none (answers (commit_tx ∷ exec q args ∷ begin_tx ∷ calls))
is_committed answers calls = false

-- A call with its calls of the database leaves no transaction open, and returns no error exactly when
-- its statement was committed.
abbrev pub IsClosed : Answers → Option Bytes × List Call → Type 0
IsClosed answers (e, calls) =
    (is_open answers calls ≡ false) × (is_none e ≡ is_committed answers calls)

module _ (answers : Answers) where
  in_transaction-IsClosed :
      (query : Bytes) (args : List Arg) (calls : List Call)
      → is_open answers calls ≡ false
      → IsClosed answers (in_transaction answers query args calls)
  unfolding in_transaction is_open
  in_transaction-IsClosed query args calls h = (ground arith, ground arith)

  -- The statement at which the run ends, if it fails and its error is shadowed.
  unfoldable pub fails_shadowed : List Statement → List Call → Bool
  fails_shadowed [] calls = false
  fails_shadowed (s ∷ rest) calls =
      let later = fails_shadowed rest (exec s.query s.args ∷ calls) in
      elim (answers (exec s.query s.args ∷ calls)) [ none ↦ later | some e ↦ s.shadowed ]

  run_statements-is_open :
      (ss : List Statement) (calls : List Call)
      → is_open answers calls ≡ true
      → is_open answers (run_statements answers ss calls).1 ≡ fails_shadowed ss calls
  unfolding run_statements is_open fails_shadowed
  run_statements-is_open [] calls h = refl
  run_statements-is_open (s ∷ ss) calls h =
      ground (arith, run_statements-is_open ss (exec s.query s.args ∷ calls))

  -- Behind each of the four writes, whichever call of it fails, no transaction is open if none was
  -- before, and the write returns no error exactly when its statement was committed.
  pub writes-IsClosed :
      (a : Adapter) (calls : List Call)
      → is_open answers calls ≡ false
      → ((event : RumEvent) → IsClosed answers (save answers a event calls))
        × ((event : HostnameEvent) → IsClosed answers (save_host answers a event calls))
        × ((item : OwnerHostname) → IsClosed answers (insert_owner_hostname answers a item calls))
        × ((hostname username : Bytes)
            → IsClosed answers (delete_owner_hostname answers a hostname username calls))
  unfolding save save_host insert_owner_hostname delete_owner_hostname
  writes-IsClosed a calls h = (
    λ event. in_transaction-IsClosed _ _ calls h,
    λ event. in_transaction-IsClosed _ _ calls h,
    λ item. in_transaction-IsClosed _ _ calls h,
    λ hostname username. in_transaction-IsClosed _ _ calls h,
  )

  -- CreateDb, called with no open transaction, leaves one open exactly when it began one and then one
  -- of the statements with a shadowed error failed.
  pub create_db-is_open :
      (without_db : Bytes → Bytes) (reset : Bool) (a : Adapter) (calls : List Call)
      → is_open answers calls ≡ false
      → let begun = begin_tx ∷ open_db (without_db a.dsn) ∷ close_db ∷ calls in
        is_open answers (create_db answers without_db reset a calls).0.1 ≡ (
          is_none (answers (open_db (without_db a.dsn) ∷ close_db ∷ calls))
          && is_none (answers begun)
          && fails_shadowed (statements reset a) begun)
  unfolding create_db is_open
  create_db-is_open without_db reset a calls h = ground (
    arith,
    run_statements-is_open (statements reset a)
        (begin_tx ∷ open_db (without_db a.dsn) ∷ close_db ∷ calls),
  )
