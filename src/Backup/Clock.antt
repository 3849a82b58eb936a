-- ===== src/Backup/Clock.antt =====
-- backup/backup.go and backup/archive.go: the names of files and directories that come from a time.
-- A time is its number of seconds since 1970-01-01 00:00:00 UTC; the calendar is that of package time.
use front_basicrum_go.Base.{ℕ, ◌+◌, ◌*◌, ◌/◌, ◌%◌, Bytes, ◌∷◌, ◌++◌, ◌≡◌, codes, arith}
use front_basicrum_go.Base.Calendar.{civil}
use front_basicrum_go.Base.Decimal.{itoa}

-- `%v-%v-%v` of year, month and day
unfoldable pub date_utc : ℕ → Bytes
unfolding civil
date_utc now =
    let (year, month, day) = civil (now / 86400) in
    itoa year ++ b'-' ∷ (itoa month ++ b'-' ∷ itoa day)

unfoldable pub hour_of : ℕ → ℕ
hour_of now = now / 3600 % 24

unfoldable pub hour_utc : ℕ → Bytes
unfolding hour_of
hour_utc now = itoa (hour_of now)

-- `day.Truncate(time.Hour).Add(time.Hour * hour)`
unfoldable pub day_with_hour : ℕ → ℕ → ℕ
day_with_hour day hour = day / 3600 * 3600 + 3600 * hour

abbrev pub lines_suffix : Bytes
lines_suffix = codes ".json.lines"

-- The last element of each path.
unfoldable pub make_hour_name : ℕ → Bytes
make_hour_name now = hour_utc now ++ lines_suffix

unfoldable pub make_archive_day_name : ℕ → Bytes
make_archive_day_name now = date_utc now ++ lines_suffix

unfoldable pub make_archive_day_meta_name : ℕ → Bytes
make_archive_day_meta_name now = date_utc now ++ codes "-parts-meta.txt"

-- The hour of the file that the archive reads for `hour`: counted from the hour of `day`, and around
-- midnight.
pub hour_of-day_with_hour :
    (day hour : ℕ) → hour_of (day_with_hour day hour) ≡ (hour_of day + hour) % 24
unfolding hour_of day_with_hour
hour_of-day_with_hour day hour = omega arith
