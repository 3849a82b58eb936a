-- ===== src/Beacon/Decompress/Steps.antt =====
-- DecompressBucketLog: one round of the loop as an equation.
use front_basicrum_go.Base.{arith, ℕ, suc, Bytes, [], ◌∷◌, ◌≡◌, some, length, drop}
use front_basicrum_go.Base.Outcome.{returns, panics}
use front_basicrum_go.Beacon.Decompress.{Scan, Round, read_round, end_round, scan}

module _ (decode36 : Bytes → ℕ) (fuel log_type : ℕ) (log : Bytes) where
  pub scan_done :
      (s : Scan)
      → drop s.i log ≡ []
      → scan decode36 (suc fuel) log_type log s ≡ some (returns s.out)
  unfolding scan
  scan_done s e = ground arith

  module _ (rest : Bytes) (c : ℕ) (s : Scan) where
    pub scan_next :
        (r : Round)
        → drop s.i log ≡ c ∷ rest
        → read_round decode36 log_type (length log) c rest s ≡ returns r
        → scan decode36 (suc fuel) log_type log s ≡ scan decode36 fuel log_type log (end_round r)
    unfolding scan
    scan_next r e p = ground arith

    pub scan_panics :
        drop s.i log ≡ c ∷ rest
        → read_round decode36 log_type (length log) c rest s ≡ panics
        → scan decode36 (suc fuel) log_type log s ≡ some panics
    unfolding scan
    scan_panics e p = ground arith
