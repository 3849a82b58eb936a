-- ===== src/Beacon/Decompress/Percent.antt =====
-- DecompressBucketLog on logs of percents: two bytes for each.
use front_basicrum_go.Base.{
  ℕ, zero, suc, ◌+◌, ◌/◌, ◌%◌, ◌≤◌, ◌<◌, Bytes, List, [], ◌∷◌, ◌++◌, append_assoc, append-nil, ◌≡◌,
  ◌≢◌, ◌∙◌, sym, refl, ap, Option, none, some, arith, length, drop, drop-drop, All, ◌==◌,
  if◌then◌else◌,
}
use front_basicrum_go.Base.Decimal.{atoi, parse_digits, to_uint64}
use front_basicrum_go.Base.Outcome.{Outcome, returns, panics}
use front_basicrum_go.Beacon.Decompress.{
  star, large_number_wrap, mode_percent, Scan, number, percent_of, read_round, end_round, scan,
  decompress_bucket_log,
}
use front_basicrum_go.Beacon.Decompress.Steps.{scan_done, scan_next, scan_panics}

abbrev pub high : ℕ → ℕ
high p = if p == 100 then b'_' else b'0' + p / 10

abbrev pub low : ℕ → ℕ
low p = if p == 100 then b'_' else b'0' + p % 10

-- 100 is two underscores, any other percent its two decimal digits.
abbrev pub print : List ℕ → Bytes
print [] = []
print (p ∷ ps) = high p ∷ low p ∷ print ps

abbrev pub Percents : List ℕ → Type 0
Percents = All (λ p. p ≤ 100)

percent_of_digits : (p : ℕ) → p ≤ 100 → percent_of (high p) (low p) ≡ p
unfolding percent_of atoi parse_digits to_uint64
percent_of_digits p h = ground arith

-- A byte that is left over, which is no repeat mark and no wrap.
abbrev pub last_byte : Option ℕ → Bytes
last_byte none = []
last_byte (some c) = c ∷ []

abbrev pub IsLast : Option ℕ → Type 0
IsLast none = Unit
IsLast (some c) = (c ≢ star) × (c ≢ large_number_wrap)

abbrev pub finish : Option ℕ → List ℕ → Option (Outcome (List ℕ))
finish none ps = some (returns ps)
finish (some c) ps = some panics

module _ (decode36 : Bytes → ℕ) where
  last_round :
      (fuel : ℕ) (log : Bytes) (c : ℕ) (s : Scan)
      → IsLast (some c)
      → drop s.i log ≡ c ∷ []
      → scan decode36 (suc fuel) mode_percent log s ≡ some panics
  unfolding read_round
  last_round fuel log c s h e = scan_panics decode36 fuel mode_percent log [] c s e (ground arith)

  percent_round :
      (fuel p : ℕ) (log rest : Bytes) (s : Scan)
      → p ≤ 100
      → drop s.i log ≡ high p ∷ low p ∷ rest
      → s.repeat ≡ 1
      → scan decode36 (suc fuel) mode_percent log s
        ≡ scan decode36 fuel mode_percent log
            (record { i = s.i + 2; num = p; repeat = 1; out = s.out ++ p ∷ [] })
  unfolding read_round end_round
  percent_round fuel p log rest s h e r =
      scan_next decode36 fuel mode_percent log (low p ∷ rest) (high p) s
        (number (record s { num = percent_of (high p) (low p); i = s.i + 1 })) e (ground arith)
      ∙ ap (scan decode36 fuel mode_percent log) (ground (arith, percent_of_digits p h))

  drop_two :
      (i : ℕ) (log rest : Bytes) (b c : ℕ) → drop i log ≡ b ∷ c ∷ rest → drop (i + 2) log ≡ rest
  drop_two i log rest b c e = sym (drop-drop i 2 log) ∙ ap (drop 2) e

  -- The numbers before an odd last byte are lost with the panic.
  scan-print :
      (ps : List ℕ) (last : Option ℕ) (fuel : ℕ) (log : Bytes) (s : Scan)
      → Percents ps
      → IsLast last
      → drop s.i log ≡ print ps ++ last_byte last
      → length (print ps ++ last_byte last) < fuel
      → s.repeat ≡ 1
      → scan decode36 fuel mode_percent log s ≡ finish last (s.out ++ ps)
  scan-print ps last zero log s h l e f r = absurd (omega arith)
  scan-print [] none (suc fuel) log s h l e f r =
      scan_done decode36 fuel mode_percent log s e
      ∙ ap (λ o. some (returns o)) (sym (append-nil s.out))
  scan-print [] (some c) (suc fuel) log s h l e f r = last_round fuel log c s l e
  scan-print (p ∷ ps) last (suc fuel) log s (hp, h) l e f r =
      percent_round fuel p log (print ps ++ last_byte last) s hp e r
      ∙ scan-print ps last fuel log
          (record { i = s.i + 2; num = p; repeat = 1; out = s.out ++ p ∷ [] }) h l
          (drop_two s.i log (print ps ++ last_byte last) (high p) (low p) e) (omega arith) refl
      ∙ ap (finish last) (append_assoc s.out (p ∷ []) ps)

  -- A log of percents is unpacked to them, two bytes for each; with one byte more, which is no
  -- repeat mark and no wrap, the decoding panics.
  pub decompress_bucket_log-print_last :
      (ps : List ℕ) (last : Option ℕ)
      → Percents ps
      → IsLast last
      → decompress_bucket_log decode36 (mode_percent ∷ (print ps ++ last_byte last))
        ≡ finish last ps
  unfolding decompress_bucket_log
  decompress_bucket_log-print_last ps last h l =
      let log = print ps ++ last_byte last in
      scan-print ps last (suc (length log)) log (record { i = 0; num = 0; repeat = 1; out = [] }) h
        l refl (omega arith) refl
