-- ===== src/Base/Calendar.antt =====
-- The calendar of package time in UTC: the date of a day, the day of a date, and AddDate of months. A day
-- is its number since 1970-01-01.
pub mod Months
use Prim.Native.Nat.{ℕ, ◌+◌, ◌-◌, ◌*◌, ◌/◌, ◌%◌, ◌≤◌, ◌<◌}
use mathlib.Core.Path.{◌≡◌, ◌∙◌, refl}
use mathlib.Core.Logic.{◌⊎◌, inl, inr}
use native.Mathlib.Omega.{arith}
use front_basicrum_go.Base.Tests.{ltb, leb, if◌then◌else◌, Bool-cases}

-- The year within its era of 400 years, which start in March, of a day of the era.
yoe_of : ℕ → ℕ
yoe_of doe = (doe + doe / 36524 - doe / 1460 - doe / 146096) / 365

-- The year, month and day of the month.
unfoldable pub civil : ℕ → ℕ × ℕ × ℕ
unfolding yoe_of
civil days =
    let z = days + 719468 in
    let era = z / 146097 in
    let doe = z % 146097 in
    let yoe = yoe_of doe in
    let doy = doe + yoe / 100 - (365 * yoe + yoe / 4) in
    let mp = (5 * doy + 2) / 153 in
    let day = doy - (153 * mp + 2) / 5 + 1 in
    let month = if ltb mp 10 then mp + 3 else mp - 9 in
    let year = yoe + era * 400 in (if leb month 2 then year + 1 else year, month, day)

-- The days from 1 March of the year 0, for a year of March to February and its month from March.
march_days : ℕ → ℕ → ℕ → ℕ
march_days year mp day =
    365 * year + year / 4 + year / 400 + (153 * mp + 2) / 5 + day - 1 - year / 100

day_number : ℕ → ℕ → ℕ → ℕ
unfolding march_days
day_number year month day =
    if leb month 2 then march_days (year - 1) (month + 9) day else march_days year (month - 3) day

-- The day of a date, whose day may lie beyond the end of the month.
unfoldable pub days_of : ℕ → ℕ → ℕ → ℕ
unfolding day_number
days_of year month day = day_number year month day - 719468

-- `AddDate(0, months, 0)`
unfoldable pub add_months : ℕ → ℕ → ℕ
add_months months now =
    let (year, month, day) = civil (now / 86400) in
    days_of (year + (month + months - 1) / 12) ((month + months - 1) % 12 + 1) day * 86400
    + now % 86400

yoe_lower : (doe : ℕ) → doe < 146097 → 365 * yoe_of doe + yoe_of doe / 4 ≤ doe + yoe_of doe / 100
unfolding yoe_of
yoe_lower doe h = omega arith

yoe_upper :
    (doe : ℕ) → doe < 146097 → doe + yoe_of doe / 100 ≤ 365 * yoe_of doe + yoe_of doe / 4 + 365
unfolding yoe_of
yoe_upper doe h = omega arith

yoe_bound : (doe : ℕ) → doe < 146097 → yoe_of doe < 400
unfolding yoe_of
yoe_bound doe h = omega arith

-- A date as the day number of its parts.
march_days-parts :
    (era doe : ℕ)
    → doe < 146097
    → let yoe = yoe_of doe in
      let doy = doe + yoe / 100 - (365 * yoe + yoe / 4) in
      let mp = (5 * doy + 2) / 153 in
      march_days (yoe + era * 400) mp (doy - (153 * mp + 2) / 5 + 1) ≡ era * 146097 + doe
unfolding march_days
march_days-parts era doe h =
    let low = yoe_lower doe h in
    let up = yoe_upper doe h in let bound = yoe_bound doe h in omega arith
