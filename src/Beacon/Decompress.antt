-- ===== src/Beacon/Decompress.antt =====
-- beacon/decompress.go: DecompressBucketLog. A string is its bytes. `decode36` is base36.Decode of
-- github.com/martinlindhe/base36. An index outside the text panics. The loop takes fuel, one for each
-- round; a round moves `i` forward, so the length of the text and one more are enough.

mod Steps
pub mod Total
pub mod Tokens
pub mod Percent
pub mod Large
use front_basicrum_go.Base.{
  ℕ, zero, suc, ◌+◌, ◌-◌, ◌/◌, ◌%◌, Bytes, List, [], ◌∷◌, ◌++◌, Bool, ◌&&◌, Option, none, some,
  ◌==◌, ltb, if◌then◌else◌, length, drop, take, replicate,
}
use front_basicrum_go.Base.Outcome.{Outcome, returns, panics}
use front_basicrum_go.Base.Decimal.{atoi, to_uint64}
use front_basicrum_go.Beacon.Number.{decompress_bucket_log_number}

abbrev pub star : ℕ
star = b'*'

abbrev pub large_number_wrap : ℕ
large_number_wrap = b'.'

abbrev pub mode_small_numbers : ℕ
mode_small_numbers = b'0'

abbrev pub mode_large_numbers : ℕ
mode_large_numbers = b'1'

abbrev pub mode_percent : ℕ
mode_percent = b'2'

shift : Option ℕ → Option ℕ
shift none = none
shift (some i) = some (suc i)

-- `strings.Index` of a one-byte text; `none` is -1.
unfoldable pub index_byte : ℕ → Bytes → Option ℕ
unfolding shift
index_byte b [] = none
index_byte b (c ∷ s) = if c == b then some 0 else shift (index_byte b s)

-- `string(c)` of a byte: the UTF-8 of the rune
unfoldable pub string_of_byte : ℕ → Bytes
string_of_byte c = if ltb c 128 then c ∷ [] else (192 + c / 64) ∷ (128 + c % 64) ∷ []

-- The variables of the loop.
pub record Scan : Type 0 where
  pub i : ℕ
  pub num : ℕ
  pub repeat : ℕ
  pub out : List ℕ

-- The number that a round read, with `i` at the last byte it belongs to; or a `continue`.
pub data Round : Type 0 where
  number : Scan → Round
  continued : Scan → Round

percent_of : ℕ → ℕ → ℕ
percent_of c d = if c == b'_' && d == b'_' then 100 else to_uint64 (atoi (c ∷ d ∷ []))

unfoldable pub read_percent : ℕ → Bytes → Scan → Outcome Round
unfolding percent_of
read_percent c [] s = panics
read_percent c (d ∷ rest) s = returns (number (record s { num = percent_of c d; i = s.i + 1 }))

-- The end of the round: the number is appended as often as it is repeated, once at least.
unfoldable pub end_round : Round → Scan
end_round (continued s) = s
end_round (number s) = record {
  i = s.i + 1;
  num = s.num;
  repeat = 1;
  out = s.out ++ s.num ∷ replicate (s.repeat - 1) s.num;
}

module _ (decode36 : Bytes → ℕ) where
  unfoldable pub read_repeat : Bytes → Scan → Round
  read_repeat rest s = elim (index_byte star rest) [
    | none ↦ continued (record s { i = s.i + 1 })
    | some end_char ↦
        continued (record s { repeat = decode36 (take end_char rest); i = s.i + end_char + 2 })
  ]

  unfoldable pub read_wrapped : Bytes → Scan → Round
  read_wrapped rest s = elim (index_byte large_number_wrap rest) [
    | none ↦ continued (record s { i = s.i + 1 })
    | some end_char ↦
        number (record s { num = decode36 (take end_char rest); i = s.i + end_char + 1 })
  ]

  unfoldable pub read_large : ℕ → ℕ → Bytes → Scan → Round
  read_large len c rest s = elim (index_byte b',' (c ∷ rest)) [
    | some end_char ↦
        number (record s { num = decode36 (take end_char (c ∷ rest)); i = s.i + end_char })
    | none ↦ number (record s { num = decode36 (string_of_byte c); i = len })
  ]

  -- One round at the byte `c` with `rest` behind it, up to the place where the number is appended.
  -- A log of any other type keeps the number of the round before.
  unfoldable pub read_round : ℕ → ℕ → ℕ → Bytes → Scan → Outcome Round
  unfolding read_repeat read_wrapped read_large read_percent
  read_round log_type len c rest s =
      if c == star
      then returns (read_repeat rest s)
      else if c == large_number_wrap
      then returns (read_wrapped rest s)
      else if log_type == mode_small_numbers
      then returns (number (record s { num = decompress_bucket_log_number c }))
      else if log_type == mode_large_numbers
      then returns (read_large len c rest s)
      else if log_type == mode_percent
      then read_percent c rest s
      else returns (number s)

  unfoldable pub scan : ℕ → ℕ → Bytes → Scan → Option (Outcome (List ℕ))
  scan zero log_type log s = none
  scan (suc fuel) log_type log s = elim (drop s.i log) [
    | [] ↦ some (returns s.out)
    | c ∷ rest ↦ elim (read_round log_type (length log) c rest s) [
      | panics ↦ some panics
      | returns r ↦ scan fuel log_type log (end_round r)
    ]
  ]

  -- `none` would mean that the fuel ran out.
  unfoldable pub decompress_bucket_log : Bytes → Option (Outcome (List ℕ))
  unfolding scan
  decompress_bucket_log [] = some (returns [])
  decompress_bucket_log (log_type ∷ log) =
      scan (suc (length log)) log_type log (record { i = 0; num = 0; repeat = 1; out = [] })
