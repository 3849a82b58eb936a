-- ===== src/Backup/Archive.antt =====
-- backup/archive.go: one day of a host, gathered from its hour files into an archive with a table of
-- its hours.
pub mod Hours
pub mod Safety
use front_basicrum_go.Base.{
  ℕ, zero, suc, ◌+◌, ◌-◌, ◌==◌, Bytes, List, [], ◌∷◌, ◌++◌, Bool, true, false, Option, none, some,
  length, split, is_empty, if◌then◌else◌,
}
use front_basicrum_go.Base.Assoc.{lookup, insert, erase}
use front_basicrum_go.Base.Decimal.{itoa}
use front_basicrum_go.Backup.Clock.{
  date_utc, make_hour_name, day_with_hour, make_archive_day_name, make_archive_day_meta_name,
}
use front_basicrum_go.Backup.Compression.{Codec, Factory, none_factory}
use front_basicrum_go.Backup.Disk.{
  DayDir, Entry, file, directory, HostDir, Root, Error, cannot_read_dir, cannot_stat,
  expected_directory, cannot_read_file, cannot_remove_all, Faults, write_to_file,
}

pub data Result {ℓ} (A : Type ℓ) : Type ℓ where
  ok : A → Result A
  err : Error → Result A

infixl 5 ◌>>=◌
abbrev pub ◌>>=◌ {ℓ κ} : {A : Type ℓ} {B : Type κ} → Result A → (A → Result B) → Result B
ok a >>= f = f a
err e >>= f = err e

abbrev pub newline : ℕ
newline = 10

unfoldable pub count_lines : Bytes → ℕ
count_lines lines = length (split newline lines) - 1

pub record DaySummary : Type 0 where
  pub day_content : Bytes
  pub summary : Bytes

-- The hour files of a day; a day that is no directory has none.
unfoldable pub day_files : Option Entry → DayDir
day_files none = []
day_files (some (file s)) = []
day_files (some (directory hours)) = hours

-- One line of the table: `%v,%v,%v\n`
unfoldable pub summary_line : ℕ → ℕ → ℕ → Bytes
summary_line hour first last =
    itoa hour ++ b',' ∷ (itoa first ++ b',' ∷ (itoa last ++ newline ∷ []))

module _ (faults : Faults) where
  -- A file that is not there reads as the empty text.
  unfoldable pub read_file_by_hour : DayDir → ℕ → Result Bytes
  read_file_by_hour files hour =
      let name = make_hour_name hour in
      elim (lookup name files) [
        | none ↦ ok []
        | some content ↦ if faults.read name then err (cannot_read_file name) else ok content
      ]

  -- The loop of collectHours over the `n` hours from `hour` on, behind the lines counted so far.
  unfoldable pub collect : ℕ → ℕ → ℕ → DayDir → ℕ → DaySummary → Result DaySummary
  collect zero hour total files day acc = ok acc
  collect (suc n) hour total files day acc =
      elim (read_file_by_hour files (day_with_hour day hour)) [
        | err e ↦ err e
        | ok lines ↦ elim (is_empty lines) [
          | true ↦ collect n (suc hour) total files day acc
          | false ↦ collect n (suc hour) (total + count_lines lines) files day (record {
            day_content = acc.day_content ++ lines;
            summary = acc.summary ++ summary_line hour (total + 1) (total + count_lines lines);
          })
        ]
      ]

  unfoldable pub collect_hours : DayDir → ℕ → Result DaySummary
  unfolding collect
  collect_hours files day = collect 24 0 0 files day (record { day_content = []; summary = [] })

  -- validateDirExist: a day that is not there is no error.
  unfoldable pub validate_dir_exist : Bytes → Option Entry → Option Error
  validate_dir_exist date entry = if faults.stat date then some cannot_stat else elim entry [
    | none ↦ none
    | some (file s) ↦ some expected_directory
    | some (directory hours) ↦ none
  ]

  remove_all : Bytes → HostDir → Option Error × HostDir
  remove_all date dir =
      if faults.remove_all date
      then (
        some cannot_remove_all,
        insert date (directory (faults.left (day_files (lookup date dir)))) dir,
      )
      else (none, erase date dir)

module _ (codec : Codec) (faults : Faults) (factory : Factory) (day : ℕ) where
  -- archiveHost from the first write on: the archive, then its table, then the hour files are removed.
  unfoldable pub store_day : DaySummary → HostDir → Option Error × HostDir
  unfolding remove_all
  store_day s dir =
      let (e₁, dir₁) =
        write_to_file codec faults (make_archive_day_name day) s.day_content factory dir in
      elim e₁ [
        | some e ↦ (some e, dir₁)
        | none ↦
            let (e₂, dir₂) =
              write_to_file codec faults (make_archive_day_meta_name day) s.summary none_factory
                dir₁ in
            elim e₂ [ some e ↦ (some e, dir₂) | none ↦ remove_all faults (date_utc day) dir₂ ]
      ]

  unfoldable pub archive_host : HostDir → Option Error × HostDir
  archive_host dir =
      let entry = lookup (date_utc day) dir in
      elim (validate_dir_exist faults (date_utc day) entry) [
        | some e ↦ (some e, dir)
        | none ↦ elim (collect_hours faults (day_files entry) day) [
          | err e ↦ (some e, dir)
          | ok s ↦ store_day s dir
        ]
      ]

  -- The loop of archiveDay stops at the first host that fails.
  archive_hosts : Root → Option Error × Root
  archive_hosts [] = (none, [])
  archive_hosts ((name, none) ∷ rest) =
      let (e, rest') = archive_hosts rest in (e, (name, none) ∷ rest')
  archive_hosts ((name, some dir) ∷ rest) =
      let more = archive_hosts rest in
      let (e, dir') = archive_host dir in
      elim e [
        | some f ↦ (some f, (name, some dir') ∷ rest)
        | none ↦ (more.0, (name, some dir') ∷ more.1)
      ]

  unfoldable pub archive_day : Root → Option Error × Root
  unfolding archive_hosts
  archive_day root = if faults.read_dir then (some cannot_read_dir, root) else archive_hosts root
