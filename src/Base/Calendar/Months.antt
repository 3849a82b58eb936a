-- ===== src/Base/Calendar/Months.antt =====
-- Three months on in the calendar: the day of a date, and AddDate of months.
use Prim.Native.Nat.{ℕ, ◌+◌, ◌-◌, ◌*◌, ◌/◌, ◌%◌, ◌≤◌}
use mathlib.Core.Path.{◌≡◌, ◌∙◌, refl}
use mathlib.Core.Logic.{◌⊎◌, inl, inr}
use native.Mathlib.Omega.{arith}
use front_basicrum_go.Base.Tests.{ltb, leb, if◌then◌else◌, Bool-cases}
use front_basicrum_go.Base.Calendar.{
  yoe_of, civil, march_days, day_number, days_of, add_months, yoe_upper, march_days-parts,
}

whole : (z : ℕ) → z / 146097 * 146097 + z % 146097 ≡ z
whole z = omega arith

-- A date is a month of the year and a day of it, and the year has begun in some March before.
pub record IsDate (year month day : ℕ) : Type 0 where
  pub month_from : 1 ≤ month
  pub month_to : month ≤ 12
  pub day_from : 1 ≤ day
  pub year_from : (3 ≤ month) ⊎ (1 ≤ year)

-- The date of a month counted from March.
march-IsDate :
    (year mp day : ℕ)
    → mp ≤ 11
    → 1 ≤ day
    → let month = if ltb mp 10 then mp + 3 else mp - 9 in
      let year' = if leb month 2 then year + 1 else year in
      IsDate year' month day × (day_number year' month day ≡ march_days year mp day)
unfolding day_number
march-IsDate year mp day h d = elim (Bool-cases (ltb mp 10)) [
  | inl e ↦ (
    record {
      month_from = ground arith;
      month_to = ground arith;
      day_from = d;
      year_from = inl (ground arith);
    },
    ground arith,
  )
  | inr e ↦ (
    record {
      month_from = ground arith;
      month_to = ground arith;
      day_from = d;
      year_from = inr (ground arith);
    },
    ground arith,
  )
]

-- The parts of a day are a date, and the date gives the day back.
civil_number :
    (n : ℕ)
    → let (year, month, day) = civil n in
      IsDate year month day × (day_number year month day ≡ n + 719468)
unfolding civil
civil_number n =
    let z = n + 719468 in
    let doe = z % 146097 in
    let yoe = yoe_of doe in
    let doy = doe + yoe / 100 - (365 * yoe + yoe / 4) in
    let mp = (5 * doy + 2) / 153 in
    let bound = yoe_upper doe (omega arith) in
    let (date, same) =
      march-IsDate (yoe + z / 146097 * 400) mp (doy - (153 * mp + 2) / 5 + 1) (omega arith)
        (omega arith) in
    (date, same ∙ march_days-parts (z / 146097) doe (omega arith) ∙ whole z)

-- Three months on, in the same year from March and into the next.
march_later :
    (year mp day : ℕ)
    → mp ≤ 8
    → 1 ≤ day
    → (march_days year mp day + 89 ≤ march_days year (mp + 3) day)
      × (march_days year (mp + 3) day ≤ march_days year mp day + 92)
unfolding march_days
march_later year mp day h d = (omega arith, omega arith)

march_next :
    (year mp day : ℕ)
    → 9 ≤ mp
    → mp ≤ 11
    → 1 ≤ day
    → (march_days year mp day + 89 ≤ march_days (year + 1) (mp - 9) day)
      × (march_days (year + 1) (mp - 9) day ≤ march_days year mp day + 92)
unfolding march_days
march_next year mp day h k d = (omega arith, omega arith)

-- AddDate of three months, by the month.
module _ (year month day : ℕ) (d : 1 ≤ day) where
  abbrev later : ℕ
  later = day_number (year + (month + 3 - 1) / 12) ((month + 3 - 1) % 12 + 1) day

  abbrev IsLater : Type 0
  IsLater = (day_number year month day + 89 ≤ later) × (later ≤ day_number year month day + 92)

  later_at :
      (carry month' : ℕ)
      → (month + 3 - 1) / 12 ≡ carry
      → (month + 3 - 1) % 12 + 1 ≡ month'
      → later ≡ day_number (year + carry) month' day
  later_at carry month' e h = rw (e, h) refl

  later_winter : month ≤ 2 → 1 ≤ month → 1 ≤ year → IsLater
  unfolding day_number
  later_winter h k y =
      let same = later_at 0 (month + 3) (omega arith) (omega arith) in
      let bounds = march_next (year - 1) (month + 9) day (omega arith) (omega arith) d in
      (ground arith, ground arith)

  later_spring : 3 ≤ month → month ≤ 9 → IsLater
  unfolding day_number
  later_spring h k =
      let same = later_at 0 (month + 3) (omega arith) (omega arith) in
      let bounds = march_later year (month - 3) day (omega arith) d in (ground arith, ground arith)

  later_autumn : 10 ≤ month → month ≤ 11 → IsLater
  unfolding day_number
  later_autumn h k =
      let same = later_at 1 (month - 9) (omega arith) (omega arith) in
      let bounds = march_later year (month - 3) day (omega arith) d in (ground arith, ground arith)

  later_december : month ≡ 12 → IsLater
  unfolding day_number
  later_december h =
      let same = later_at 1 3 (omega arith) (omega arith) in
      let bounds = march_next year (month - 3) day (omega arith) (omega arith) d in
      (ground arith, ground arith)

year_begun : (year month : ℕ) → month ≤ 2 → ((3 ≤ month) ⊎ (1 ≤ year)) → 1 ≤ year
year_begun year month h (inl m) = absurd (omega arith)
year_begun year month h (inr y) = y

-- Three months are from 89 to 92 days.
day_number_later :
    (year month day : ℕ) (date : IsDate year month day) → IsLater year month day date.day_from
day_number_later year month day date =
    let d = date.day_from in
    let from = date.month_from in
    let to = date.month_to in
    elim (Bool-cases (leb month 2)) [
      | inl e ↦
          let h : month ≤ 2 = ground arith in
          later_winter year month day d h from (year_begun year month h date.year_from)
      | inr e ↦ elim (Bool-cases (leb month 9)) [
        | inl g ↦ later_spring year month day d (ground arith) (ground arith)
        | inr g ↦ elim (Bool-cases (leb month 11)) [
          | inl k ↦ later_autumn year month day d (ground arith) (ground arith)
          | inr k ↦ later_december year month day d (ground arith)
        ]
      ]
    ]

-- The day of the date of a day is that day.
pub days_of-civil : (n : ℕ) → let (year, month, day) = civil n in days_of year month day ≡ n
unfolding days_of
days_of-civil n = let (date, same) = civil_number n in ground (arith, same)

-- Three months from a time are from 89 to 92 days.
pub add_months-bounds :
    (now : ℕ) → (now + 89 * 86400 ≤ add_months 3 now) × (add_months 3 now ≤ now + 92 * 86400)
unfolding add_months days_of
add_months-bounds now =
    let (year, month, day) = civil (now / 86400) in
    let (date, same) = civil_number (now / 86400) in
    let (low, high) = day_number_later year month day date in (omega arith, omega arith)
