-- ===== src/Dao/Sql.antt =====
-- The arguments of an SQL statement.
use front_basicrum_go.Base.{ℕ, Bytes}

-- `time` is in seconds since 1970.
pub data Arg : Type 0 where
  text : Bytes → Arg
  number : ℕ → Arg
  time : ℕ → Arg
