-- ===== src/Backup/Archive/Hours.antt =====
-- collectHours: the text of a day is that of the hour files from the hour of `day` on, around midnight,
-- and its table says on which lines of the text the file of each step stands.
use front_basicrum_go.Base.{
  ℕ, zero, suc, ◌+◌, ◌%◌, Bytes, List, [], ◌∷◌, ◌++◌, append_assoc, append-nil, true, false, Option,
  none, some, ◌≡◌, ◌∙◌, sym, ap, refl, arith, All, is_empty, count, count-append, length-split,
  if◌then◌else◌, Bool-cases, inl, inr, ◌⊎◌,
}
use native.Mathlib.Nat.{add-zero}
use front_basicrum_go.Base.Assoc.{lookup}
use front_basicrum_go.Base.Decimal.{itoa}
use front_basicrum_go.Backup.Clock.{
  make_hour_name, hour_utc, hour_of, day_with_hour, lines_suffix, hour_of-day_with_hour,
}
use front_basicrum_go.Backup.Disk.{DayDir, Error, Faults, no_faults}
use front_basicrum_go.Backup.Archive.{
  Result, ok, err, newline, count_lines, DaySummary, summary_line, read_file_by_hour, collect,
  collect_hours,
}

pub count_lines-eq-count : (s : Bytes) → count_lines s ≡ count newline s
unfolding count_lines
count_lines-eq-count s = omega (arith, length-split newline s)

pub Result-cases :
    {A : Type 0} (r : Result A) → ((a : A) × (r ≡ ok a)) ⊎ ((e : Error) × (r ≡ err e))
Result-cases (ok a) = inl (a, refl)
Result-cases (err e) = inr (e, refl)

text_of : Option Bytes → Bytes
text_of none = []
text_of (some s) = s

-- A number of the table with its first and its last line.
pub record Row : Type 0 where
  pub hour : ℕ
  pub first : ℕ
  pub last : ℕ

abbrev pub print_rows : List Row → Bytes
print_rows [] = []
print_rows (r ∷ rs) = summary_line r.hour r.first r.last ++ print_rows rs

-- The file of an hour of the clock.
abbrev pub hour_file : ℕ → Bytes
hour_file hour = itoa hour ++ lines_suffix

make_hour_name-day_with_hour :
    (day hour : ℕ) → make_hour_name (day_with_hour day hour) ≡ hour_file ((hour_of day + hour) % 24)
unfolding make_hour_name hour_utc
make_hour_name-day_with_hour day hour = ap hour_file (hour_of-day_with_hour day hour)

module _ (files : DayDir) (day : ℕ) where
  -- The text of the file that stands for a number of the table: that of the hour which is so many hours
  -- behind the hour of `day`. Only where `day` is in the hour 0 are the two the same.
  unfoldable pub text : ℕ → Bytes
  unfolding text_of
  text hour = text_of (lookup (hour_file ((hour_of day + hour) % 24)) files)

  -- The texts for `n` numbers from `hour` on.
  unfoldable pub texts : ℕ → ℕ → Bytes
  texts zero hour = []
  texts (suc n) hour = text hour ++ texts n (suc hour)

  -- The rows of the numbers that have a text, with its lines counted by their ends.
  unfoldable pub rows : ℕ → ℕ → ℕ → List Row
  rows zero hour total = []
  rows (suc n) hour total =
      let later = rows n (suc hour) (total + count newline (text hour)) in
      if is_empty (text hour)
      then later
      else record { hour = hour; first = total + 1; last = total + count newline (text hour) }
        ∷ later

  -- The text for the number of the row is a part of the whole text, and the row counts its lines there.
  pub record Locates (whole : Bytes) (r : Row) : Type 0 where
    pub before : Bytes
    pub behind : Bytes
    pub parts : whole ≡ before ++ (text r.hour ++ behind)
    pub starts : r.first ≡ count newline before + 1
    pub ends : r.last ≡ count newline before + count newline (text r.hour)

  read_text :
      (faults : Faults) (hour : ℕ) {s : Bytes}
      → read_file_by_hour faults files (day_with_hour day hour) ≡ ok s
      → s ≡ text hour
  unfolding read_file_by_hour text
  read_text faults hour h = ground (arith, make_hour_name-day_with_hour day hour)

  reads : (hour : ℕ) → read_file_by_hour no_faults files (day_with_hour day hour) ≡ ok (text hour)
  unfolding read_file_by_hour text
  reads hour = ground (arith, make_hour_name-day_with_hour day hour)

  empty_text : (s : Bytes) → is_empty s ≡ true → s ≡ []
  empty_text [] h = refl
  empty_text (c ∷ s) h = cc

  rows-Locates :
      (n hour total : ℕ) (whole before : Bytes)
      → whole ≡ before ++ texts n hour
      → total ≡ count newline before
      → All (Locates whole) (rows n hour total)
  unfolding texts rows
  rows-Locates zero hour total whole before e t = tt
  rows-Locates (suc n) hour total whole before e t =
      let later =
        rows-Locates n (suc hour) (total + count newline (text hour)) whole (before ++ text hour)
          (e ∙ sym (append_assoc before (text hour) (texts n (suc hour))))
          (omega (arith, count-append newline before (text hour))) in
      elim (Bool-cases (is_empty (text hour))) [
        | inl x ↦ rw x later
        | inr x ↦ rw x (
          record {
            before = before;
            behind = texts n (suc hour);
            parts = e;
            starts = omega arith;
            ends = omega arith;
          },
          later,
        )
      ]

  abbrev Collected : ℕ → ℕ → ℕ → DaySummary → DaySummary → Type 0
  Collected n hour total acc r =
      (r.day_content ≡ acc.day_content ++ texts n hour)
      × (r.summary ≡ acc.summary ++ print_rows (rows n hour total))

  module _ (faults : Faults) (n hour total : ℕ) (acc : DaySummary) where
    abbrev here : Result Bytes
    here = read_file_by_hour faults files (day_with_hour day hour)

    collect_empty :
        (t : Bytes)
        → here ≡ ok t
        → is_empty t ≡ true
        → collect faults (suc n) hour total files day acc
          ≡ collect faults n (suc hour) total files day acc
    unfolding collect
    collect_empty t e x = ground arith

    collect_text :
        (t : Bytes)
        → here ≡ ok t
        → is_empty t ≡ false
        → collect faults (suc n) hour total files day acc
          ≡ collect faults n (suc hour) (total + count newline t) files day (record {
            day_content = acc.day_content ++ t;
            summary = acc.summary ++ summary_line hour (total + 1) (total + count newline t);
          })
    unfolding collect
    collect_text t e x = rw (← count_lines-eq-count t) (ground arith)

    collect_err :
        {e : Error} → here ≡ err e → collect faults (suc n) hour total files day acc ≡ err e
    unfolding collect
    collect_err p = ground arith

  collect-Collected :
      (faults : Faults) (n hour total : ℕ) (acc r : DaySummary)
      → collect faults n hour total files day acc ≡ ok r
      → Collected n hour total acc r
  unfolding texts rows
  collect-Collected faults zero hour total acc r h =
      unfold collect texts rows in
      (ground (arith, append-nil acc.day_content), ground (arith, append-nil acc.summary))
  collect-Collected faults (suc n) hour total acc r h =
      elim (Result-cases (read_file_by_hour faults files (day_with_hour day hour))) [
        | inr (e, p) ↦ cc (collect_err faults n hour total acc p)
        | inl (t, p) ↦
            let p' = p ∙ ap ok (read_text faults hour p) in
            elim (Bool-cases (is_empty (text hour))) [
              | inl x ↦
                  let (c, m) =
                    collect-Collected faults n (suc hour) total acc r
                      (sym (collect_empty faults n hour total acc (text hour) p' x) ∙ h) in
                  rw (empty_text (text hour) x) (rw add-zero (c, m))
              | inr x ↦
                  let (c, m) =
                    collect-Collected faults n (suc hour) (total + count newline (text hour)) _ r
                      (sym (collect_text faults n hour total acc (text hour) p' x) ∙ h) in
                  rw x (
                    c ∙ append_assoc acc.day_content (text hour) (texts n (suc hour)),
                    m ∙ append_assoc acc.summary _ _,
                  )
            ]
      ]

  -- When the hour files can be read, the text of the day is that of the 24 hour files in the order in which
  -- the clock goes, from the hour of `day` on and around midnight. The table has a row for each of them
  -- with a text, in that order, which names it by how many hours it is behind the hour of `day`: the
  -- file's own hour only where `day` is in the hour 0. The part of the day that is the text of the file
  -- starts behind as many line ends as the first line of the row says, less one, and with the line ends of
  -- the text there are as many as its last line says.
  pub collect_hours-rows :
      (faults : Faults) (r : DaySummary)
      → collect_hours faults files day ≡ ok r
      → (r.day_content ≡ texts 24 0)
        × (r.summary ≡ print_rows (rows 24 0 0))
        × All (Locates r.day_content) (rows 24 0 0)
  unfolding collect_hours
  collect_hours-rows faults r h =
      let (c, m) =
        collect-Collected faults 24 0 0 (record { day_content = []; summary = [] }) r h in
      (c, m, rows-Locates 24 0 0 r.day_content [] c refl)

  collect_total :
      (n hour total : ℕ) (acc : DaySummary)
      → (r : DaySummary) × (collect no_faults n hour total files day acc ≡ ok r)
  collect_total zero hour total acc = unfold collect in (acc, refl)
  collect_total (suc n) hour total acc = elim (Bool-cases (is_empty (text hour))) [
    | inl x ↦
        let (r, e) = collect_total n (suc hour) total acc in
        (r, collect_empty no_faults n hour total acc (text hour) (reads hour) x ∙ e)
    | inr x ↦
        let (r, e) = collect_total n (suc hour) (total + count newline (text hour)) _ in
        (r, collect_text no_faults n hour total acc (text hour) (reads hour) x ∙ e)
  ]

  -- On a disk without faults the hours are always gathered.
  pub collect_hours_total : (r : DaySummary) × (collect_hours no_faults files day ≡ ok r)
  unfolding collect_hours
  collect_hours_total = collect_total 24 0 0 (record { day_content = []; summary = [] })

-- A day with no hour files has no text.
pub texts-nil : (day n hour : ℕ) → texts [] day n hour ≡ []
unfolding texts text text_of lookup
texts-nil day zero hour = refl
texts-nil day (suc n) hour = texts-nil day n (suc hour)
