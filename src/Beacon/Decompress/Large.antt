-- ===== src/Beacon/Decompress/Large.antt =====
-- DecompressBucketLog on a log of large numbers: the last number.
use front_basicrum_go.Base.{
  ℕ, suc, ◌<◌, Bytes, [], ◌∷◌, ◌≡◌, ◌≢◌, ◌∙◌, refl, none, some, arith, length, drop-length_le,
}
use native.Mathlib.Numerals.{add-one}
use front_basicrum_go.Base.Outcome.{returns}
use front_basicrum_go.Beacon.Decompress.{
  star, large_number_wrap, mode_large_numbers, index_byte, string_of_byte, Scan, number, read_round,
  end_round, decompress_bucket_log,
}
use front_basicrum_go.Beacon.Decompress.Tokens.{Lacks}
use front_basicrum_go.Beacon.Decompress.Steps.{scan_done, scan_next}

index_byte-Lacks : (b : ℕ) (s : Bytes) → Lacks b s → index_byte b s ≡ none
unfolding index_byte
index_byte-Lacks b [] h = refl
index_byte-Lacks b (c ∷ s) (hc, h) = ground (arith, index_byte-Lacks b s h)

module _ (decode36 : Bytes → ℕ) where
  -- A log of one large number with no comma behind it, whose first byte is ASCII and neither a
  -- repeat mark nor a wrap, is read by that byte alone, whatever digits follow.
  pub decompress_bucket_log-last_large :
      (c : ℕ) (rest : Bytes)
      → c < 128
      → c ≢ star
      → c ≢ large_number_wrap
      → Lacks b',' (c ∷ rest)
      → decompress_bucket_log decode36 (mode_large_numbers ∷ c ∷ rest)
        ≡ some (returns (decode36 (c ∷ []) ∷ []))
  unfolding decompress_bucket_log read_round end_round string_of_byte
  decompress_bucket_log-last_large c rest h star_free wrap_free l =
      let start : Scan = record { i = 0; num = 0; repeat = 1; out = [] } in
      let len = length (c ∷ rest) in
      let read : Scan = record start { num = decode36 (c ∷ []); i = len } in
      scan_next decode36 (suc (length rest)) mode_large_numbers (c ∷ rest) rest c start
        (number read) refl (ground (arith, index_byte-Lacks b',' (c ∷ rest) l))
      ∙ scan_done decode36 (length rest) mode_large_numbers (c ∷ rest) (end_round (number read))
          (rw add-one (drop-length_le (suc (suc (length rest))) (c ∷ rest) (omega arith)))
