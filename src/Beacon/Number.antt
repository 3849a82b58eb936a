-- ===== src/Beacon/Number.antt =====
-- beacon/decompress.go: decompressBucketLogNumber, one digit in base 64.
use front_basicrum_go.Base.{ℕ, ◌+◌, ◌-◌, ◌<◌, ◌≡◌, ◌&&◌, leb, ltb, ◌==◌, if◌then◌else◌, arith}

unfoldable pub decompress_bucket_log_number : ℕ → ℕ
decompress_bucket_log_number chr =
    if leb 48 chr && leb chr 57
    then chr - 48
    else if leb 97 chr && leb chr 122
    then chr - 97 + 10
    else if leb 65 chr && leb chr 90
    then (chr - 65) + 36
    else if chr == 95
    then 62
    else if chr == 45
    then 63
    else 0

-- The digit of a number below 64: 0-9, a-z, A-Z, `_` and `-`.
unfoldable pub digit64 : ℕ → ℕ
digit64 n =
    if ltb n 10
    then n + b'0'
    else if ltb n 36
    then n - 10 + b'a'
    else if ltb n 62
    then n - 36 + b'A'
    else if n == 62
    then b'_'
    else b'-'

-- Every digit is below 64, and each number below 64 is read back from its own digit.
pub decompress_bucket_log_number-digit64 :
    (n chr : ℕ)
    → n < 64
    → (decompress_bucket_log_number (digit64 n) ≡ n) × (decompress_bucket_log_number chr < 64)
unfolding decompress_bucket_log_number digit64
decompress_bucket_log_number-digit64 n chr h = (ground arith, ground arith)
