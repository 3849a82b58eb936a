-- ===== src/Backup/Lines/Saving.antt =====
-- saveLinesToFile: the lines are appended to the one file of their host, day and hour.
use front_basicrum_go.Base.{
  ℕ, is_empty, Bytes, ◌++◌, [], Bool, true, false, ◌&&◌, Option, none, some, ◌≡◌, arith, eqb,
  eqb_iff, Option-cases, inl, inr, if◌then◌else◌,
}
use front_basicrum_go.Base.Assoc.{lookup, insert, lookup-insert, lookup-nil}
use front_basicrum_go.Backup.Clock.{date_utc, make_hour_name}
use front_basicrum_go.Backup.Disk.{
  DayDir, Entry, file, directory, HostDir, Root, no_faults, append_to_file,
}
use front_basicrum_go.Backup.Lines.{text_of, save_in_host, save_below, save_lines_to_file}

abbrev in_day : Bytes → Option Entry → Bytes
in_day name none = []
in_day name (some (file s)) = []
in_day name (some (directory d)) = text_of (lookup name d)

-- What stands in an hour file of a host's directory.
abbrev pub read_hour : Bytes → Bytes → HostDir → Bytes
read_hour date name dir = in_day name (lookup date dir)

abbrev in_host : Bytes → Bytes → Option (Option HostDir) → Bytes
in_host date name none = []
in_host date name (some none) = []
in_host date name (some (some dir)) = read_hour date name dir

-- What stands in the file of a host, a day and an hour.
abbrev pub read_file : Bytes → Bytes → Bytes → Root → Bytes
read_file host date name root = in_host date name (lookup host root)

abbrev day_blocked : Option Entry → Bool
day_blocked none = false
day_blocked (some (file s)) = true
day_blocked (some (directory d)) = false

abbrev host_blocked : Bytes → Option (Option HostDir) → Bool
host_blocked date none = false
host_blocked date (some none) = true
host_blocked date (some (some dir)) = day_blocked (lookup date dir)

-- A plain file stands where the directory of the host or of the day has to be.
abbrev pub is_blocked : Bytes → Bytes → Root → Bool
is_blocked host date root = host_blocked date (lookup host root)

save_in_host-read :
    (now : ℕ) (lines date name : Bytes) (dir : HostDir)
    → day_blocked (lookup (date_utc now) dir) ≡ false
    → read_hour date name (save_in_host no_faults now lines dir).1 ≡ (
        if eqb (date_utc now) date && eqb (make_hour_name now) name
        then read_hour date name dir ++ lines
        else read_hour date name dir)
unfolding save_in_host append_to_file
save_in_host-read now lines date name dir h = elim (Option-cases (lookup (date_utc now) dir)) [
  | inl e ↦
      let d : DayDir = insert (make_hour_name now) ([] ++ lines) [] in
      ground (
        arith,
        eqb_iff (date_utc now) date,
        lookup-insert (date_utc now) date (directory d) dir,
        lookup-insert (make_hour_name now) name lines [],
        lookup-nil {V = Bytes} name,
        lookup-nil {V = Bytes} (make_hour_name now),
        eqb_iff (make_hour_name now) name,
      )
  | inr (entry, e) ↦ entry_case entry e
]
  where
    entry_case :
        (entry : Entry)
        → lookup (date_utc now) dir ≡ some entry
        → read_hour date name (save_in_host no_faults now lines dir).1 ≡ (
            if eqb (date_utc now) date && eqb (make_hour_name now) name
            then read_hour date name dir ++ lines
            else read_hour date name dir)
    entry_case (file s) e = ground arith
    entry_case (directory d) e =
        let l = text_of (lookup (make_hour_name now) d) ++ lines in
        ground (
          arith,
          eqb_iff (date_utc now) date,
          eqb_iff (make_hour_name now) name,
          lookup-insert (date_utc now) date (directory (insert (make_hour_name now) l d)) dir,
          lookup-insert (make_hour_name now) name l d,
        )

-- Where no call fails and no plain file is in the way, saving appends the lines of a host, whose name
-- is not empty, to its file of the day and hour, and changes no other file.
pub save_lines_to_file-read :
    (now : ℕ) (host lines h date name : Bytes) (root : Root)
    → is_empty host ≡ false
    → is_blocked host (date_utc now) root ≡ false
    → read_file h date name (save_lines_to_file no_faults now host lines root) ≡ (
        if eqb host h && (eqb (date_utc now) date && eqb (make_hour_name now) name)
        then read_file h date name root ++ lines
        else read_file h date name root)
unfolding save_lines_to_file save_below
save_lines_to_file-read now host lines h date name root named free =
    elim (Option-cases (lookup host root)) [
      | inl e ↦ ground (
        arith,
        eqb_iff host h,
        lookup-nil {V = Entry} (date_utc now),
        lookup-nil {V = Entry} date,
        save_in_host-read now lines date name [],
        lookup-insert host h (some (save_in_host no_faults now lines []).1) root,
      )
      | inr (entry, e) ↦ host_case entry e
    ]
  where
    host_case :
        (entry : Option HostDir)
        → lookup host root ≡ some entry
        → read_file h date name (save_lines_to_file no_faults now host lines root) ≡ (
            if eqb host h && (eqb (date_utc now) date && eqb (make_hour_name now) name)
            then read_file h date name root ++ lines
            else read_file h date name root)
    host_case none e = ground arith
    host_case (some dir) e = ground (
      arith,
      eqb_iff host h,
      save_in_host-read now lines date name dir,
      lookup-insert host h (some (save_in_host no_faults now lines dir).1) root,
    )

save_in_host-free :
    (now : ℕ) (lines date : Bytes) (dir : HostDir)
    → day_blocked (lookup (date_utc now) dir) ≡ false
    → day_blocked (lookup date dir) ≡ false
    → day_blocked (lookup date (save_in_host no_faults now lines dir).1) ≡ false
unfolding save_in_host append_to_file
save_in_host-free now lines date dir h f = elim (Option-cases (lookup (date_utc now) dir)) [
  | inl e ↦
      let d : DayDir = insert (make_hour_name now) ([] ++ lines) [] in
      ground (
        arith,
        lookup-insert (date_utc now) date (directory d) dir,
        lookup-nil {V = Bytes} (make_hour_name now),
      )
  | inr (entry, e) ↦ entry_case entry e
]
  where
    entry_case :
        (entry : Entry)
        → lookup (date_utc now) dir ≡ some entry
        → day_blocked (lookup date (save_in_host no_faults now lines dir).1) ≡ false
    entry_case (file s) e = ground arith
    entry_case (directory d) e =
        let l = text_of (lookup (make_hour_name now) d) ++ lines in
        ground (
          arith,
          lookup-insert (date_utc now) date (directory (insert (make_hour_name now) l d)) dir,
        )

-- Where nothing is in the way of the saved lines, they put nothing in the way of other lines.
pub save_lines_to_file-free :
    (now : ℕ) (host lines h date : Bytes) (root : Root)
    → is_empty host ≡ false
    → is_blocked host (date_utc now) root ≡ false
    → is_blocked h date root ≡ false
    → is_blocked host date root ≡ false
    → is_blocked h date (save_lines_to_file no_faults now host lines root) ≡ false
unfolding save_lines_to_file save_below
save_lines_to_file-free now host lines h date root named free f f' =
    elim (Option-cases (lookup host root)) [
      | inl e ↦ ground (
        arith,
        eqb_iff host h,
        lookup-nil {V = Entry} (date_utc now),
        lookup-nil {V = Entry} date,
        save_in_host-free now lines date [],
        lookup-insert host h (some (save_in_host no_faults now lines []).1) root,
      )
      | inr (entry, e) ↦ host_case entry e
    ]
  where
    host_case :
        (entry : Option HostDir)
        → lookup host root ≡ some entry
        → is_blocked h date (save_lines_to_file no_faults now host lines root) ≡ false
    host_case none e = ground arith
    host_case (some dir) e = ground (
      arith,
      eqb_iff host h,
      save_in_host-free now lines date dir,
      lookup-insert host h (some (save_in_host no_faults now lines dir).1) root,
    )
