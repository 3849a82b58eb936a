-- ===== src/Backup/Lines.antt =====
-- backup/backup.go: makeBackupList groups a batch of requests into lines of JSON by host, and
-- saveBackupList appends the lines of each host to the file of the hour. `parse_url` is url.Parse
-- followed by `Hostname` (`none` where url.Parse fails), and `marshal` is json.Marshal of a map.
pub mod Grouping
pub mod Saving
use mathlib.Core.List.{map}
use front_basicrum_go.Base.{
  ℕ, ◌==◌, Bytes, List, [], ◌∷◌, ◌++◌, Option, none, some, if◌then◌else◌, is_empty, codes,
}
use front_basicrum_go.Base.Assoc.{lookup, insert}
use front_basicrum_go.Base.Outcome.{Outcome, returns, panics, ◌>>=◌}
use front_basicrum_go.Values.{Values, get}
use front_basicrum_go.Backup.Clock.{date_utc, make_hour_name}
use front_basicrum_go.Backup.Disk.{
  DayDir, Entry, file, directory, HostDir, Root, Error, cannot_write_file, Faults, append_to_file,
}

-- An element of a batch: `any`, of which only url.Values is used.
pub data Param : Type 0 where
  values : Values → Param
  other : Param

-- `strings.ReplaceAll(s, ".", "_")`
unfoldable pub replace_dots : Bytes → Bytes
replace_dots [] = []
replace_dots (c ∷ s) = (if c == b'.' then b'_' else c) ∷ replace_dots s

abbrev pub text_of : Option Bytes → Bytes
text_of none = []
text_of (some s) = s

-- `m[key] += value + "\n"`, where a missing key is the empty text.
unfoldable pub append_line : List (Bytes × Bytes) → Bytes → Bytes → List (Bytes × Bytes)
append_line m key value = insert key (text_of (lookup key m) ++ (value ++ 10 ∷ [])) m

unfoldable pub flatten_map : Values → List (Bytes × Bytes)
flatten_map v = map (λ (e : Bytes × List Bytes). (e.0, get v e.0)) v

-- `Hostname` of a nil URL panics.
unfoldable pub make_key_hostname : (Bytes → Option Bytes) → Values → Outcome Bytes
make_key_hostname parse_url v = elim (parse_url (get v (codes "u"))) [
  | none ↦ panics
  | some host ↦ returns (replace_dots host)
]

unfoldable pub make_value : (List (Bytes × Bytes) → Bytes) → Values → Bytes
make_value marshal v = marshal (flatten_map v)

module _ (parse_url : Bytes → Option Bytes) (marshal : List (Bytes × Bytes) → Bytes) where
  unfoldable pub backup_item : List (Bytes × Bytes) → Param → Outcome (List (Bytes × Bytes))
  backup_item m other = returns m
  backup_item m (values v) = do
    key ← make_key_hostname parse_url v
    returns (append_line m key (make_value marshal v))

  unfoldable pub backup_items : List (Bytes × Bytes) → List Param → Outcome (List (Bytes × Bytes))
  backup_items m [] = returns m
  backup_items m (p ∷ ps) = do m' ← backup_item m p; backup_items m' ps

  unfoldable pub make_backup_list : List Param → Outcome (List (Bytes × Bytes))
  make_backup_list params = backup_items [] params

module _ (faults : Faults) (now : ℕ) where
  in_day : Bytes → Option Entry → Option Error × Option Entry
  in_day lines none =
      let (e, d) = append_to_file faults (make_hour_name now) lines [] in (e, some (directory d))
  in_day lines (some (file s)) = (some (cannot_write_file (make_hour_name now)), some (file s))
  in_day lines (some (directory d)) =
      let (e, d') = append_to_file faults (make_hour_name now) lines d in (e, some (directory d'))

  store : Bytes → Option Entry → HostDir → HostDir
  store name none dir = dir
  store name (some e) dir = insert name e dir

  -- The append in the directory of a host.
  unfoldable pub save_in_host : Bytes → HostDir → Option Error × HostDir
  unfolding in_day store
  save_in_host lines dir =
      let (e, entry) = in_day lines (lookup (date_utc now) dir) in
      (e, store (date_utc now) entry dir)

  -- The append to an hour file that stands beside the directories of the days.
  append_entry : Bytes → Option Entry → Option Entry
  append_entry lines (some (directory d)) = some (directory d)
  append_entry lines none =
      if faults.open_file (make_hour_name now)
      then none
      else if faults.write (make_hour_name now)
      then some (file (faults.partial lines))
      else some (file lines)
  append_entry lines (some (file s)) =
      if faults.open_file (make_hour_name now)
      then some (file s)
      else if faults.write (make_hour_name now)
      then some (file (s ++ faults.partial lines))
      else some (file (s ++ lines))

  -- With no host the path of the hour file has the date in the place of the host.
  unfoldable pub save_in_date : Bytes → HostDir → HostDir
  unfolding append_entry store
  save_in_date lines dir =
      store (make_hour_name now) (append_entry lines (lookup (make_hour_name now) dir)) dir

  -- The directory of a host, or of the date for no host, with the lines in the file of the hour.
  unfoldable pub save_below : Bytes → Bytes → HostDir → HostDir
  save_below host lines dir =
      if is_empty host then save_in_date lines dir else (save_in_host lines dir).1

  -- saveLinesToFile; an error is logged. A host that is a plain file, or whose directory cannot be
  -- made, keeps what it has.
  unfoldable pub save_lines_to_file : Bytes → Bytes → Root → Root
  save_lines_to_file host lines root =
      let name = if is_empty host then date_utc now else host in
      if faults.mkdir name then root else elim (lookup name root) [
        | none ↦ insert name (some (save_below host lines [])) root
        | some none ↦ root
        | some (some dir) ↦ insert name (some (save_below host lines dir)) root
      ]

-- `clock` is the time at which the lines of a host are written.
module _ (faults : Faults) (clock : Bytes → ℕ) where
  -- saveBackupList, in the order in which the map is walked.
  unfoldable pub save_backup_list : List (Bytes × Bytes) → Root → Root
  save_backup_list [] root = root
  save_backup_list ((host, lines) ∷ rest) root =
      save_backup_list rest (save_lines_to_file faults (clock host) host lines root)

  -- The function `do`, which the batcher calls with a batch.
  unfoldable pub do_batch :
      (Bytes → Option Bytes) → (List (Bytes × Bytes) → Bytes) → List Param → Root → Outcome Root
  do_batch parse_url marshal params root = do
    backups_list ← make_backup_list parse_url marshal params
    returns (save_backup_list backups_list root)
