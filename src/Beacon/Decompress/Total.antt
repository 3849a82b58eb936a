-- ===== src/Beacon/Decompress/Total.antt =====
-- DecompressBucketLog ends: each round moves `i` forward.
use front_basicrum_go.Base.{
  ℕ, zero, suc, ◌-◌, ◌<◌, Bytes, List, [], ◌∷◌, ◌≡◌, ◌∙◌, ap, inl, inr, refl, List-cases, some,
  arith, length, drop, length-drop,
}
use front_basicrum_go.Base.Outcome.{Outcome, returns, panics}
use front_basicrum_go.Beacon.Decompress.Steps.{scan_done, scan_next, scan_panics}
use front_basicrum_go.Beacon.Decompress.{
  Scan, Round, read_repeat, read_wrapped, read_large, read_round, end_round, scan,
  decompress_bucket_log,
}

-- `i` stands inside the text where a byte is left, and moves forward.
module _ (decode36 : Bytes → ℕ) where
  repeat_moves : (rest : Bytes) (s : Scan) → s.i < (end_round (read_repeat decode36 rest s)).i
  unfolding end_round read_repeat
  repeat_moves rest s = ground arith

  wrapped_moves : (rest : Bytes) (s : Scan) → s.i < (end_round (read_wrapped decode36 rest s)).i
  unfolding end_round read_wrapped
  wrapped_moves rest s = ground arith

  large_moves :
      (len c : ℕ) (rest : Bytes) (s : Scan)
      → s.i < len
      → s.i < (end_round (read_large decode36 len c rest s)).i
  unfolding end_round read_large
  large_moves len c rest s h = ground arith

  round_moves :
      (log_type len c : ℕ) (rest : Bytes) (s : Scan) (r : Round)
      → s.i < len
      → read_round decode36 log_type len c rest s ≡ returns r
      → s.i < (end_round r).i
  unfolding read_round end_round
  round_moves log_type len c rest s r h e = ground arith

  inside : (log rest : Bytes) (i c : ℕ) → drop i log ≡ c ∷ rest → i < length log
  inside log rest i c e = omega (arith, length-drop i log, ap length e)

  round_total :
      (fuel log_type : ℕ) (log rest : Bytes) (c : ℕ) (s : Scan) (o : Outcome Round)
      → drop s.i log ≡ c ∷ rest
      → read_round decode36 log_type (length log) c rest s ≡ o
      → ((t : Scan)
          → s.i < t.i
          → (r : Outcome (List ℕ)) × (scan decode36 fuel log_type log t ≡ some r))
      → (r : Outcome (List ℕ)) × (scan decode36 (suc fuel) log_type log s ≡ some r)
  round_total fuel log_type log rest c s panics e p ih =
      (panics, scan_panics decode36 fuel log_type log rest c s e p)
  round_total fuel log_type log rest c s (returns r) e p ih =
      let m = round_moves log_type (length log) c rest s r (inside log rest s.i c e) p in
      let (o, q) = ih (end_round r) m in
      (o, scan_next decode36 fuel log_type log rest c s r e p ∙ q)

  scan_total :
      (fuel log_type : ℕ) (log : Bytes) (s : Scan)
      → length log - s.i < fuel
      → (r : Outcome (List ℕ)) × (scan decode36 fuel log_type log s ≡ some r)
  scan_total zero log_type log s h = absurd (omega arith)
  scan_total (suc fuel) log_type log s h = elim (List-cases (drop s.i log)) [
    | inl e ↦ (returns s.out, scan_done decode36 fuel log_type log s e)
    | inr (c, rest, e) ↦
        round_total fuel log_type log rest c s _ e refl
          λ t m. scan_total fuel log_type log t (omega (arith, inside log rest s.i c e))
  ]

  -- The decoding of every text ends, with its numbers or with a panic.
  pub decompress_bucket_log_total :
      (text : Bytes) → (r : Outcome (List ℕ)) × (decompress_bucket_log decode36 text ≡ some r)
  unfolding decompress_bucket_log
  decompress_bucket_log_total [] = (returns [], refl)
  decompress_bucket_log_total (log_type ∷ log) =
      scan_total (suc (length log)) log_type log (record { i = 0; num = 0; repeat = 1; out = [] })
        (omega arith)
