-- ===== src/Backup/Tests.antt =====
-- The backup on concrete files and batches.
use front_basicrum_go.Base.{
  ◌+◌, ℕ, Bytes, List, [], ◌∷◌, ◌++◌, true, Option, none, some, ◌≡◌, refl, codes, eqb, split, arith,
  All,
}
use front_basicrum_go.Base.Outcome.{returns}
use front_basicrum_go.Base.Decimal.{itoa}
use front_basicrum_go.Base.Assoc.{lookup, insert, Distinct}
use front_basicrum_go.Types.{Event}
use front_basicrum_go.Values.{Values, get}
use front_basicrum_go.Backup.Service.{Single, save_single, Batch, work}
use front_basicrum_go.Backup.Service.Batches.{IsFree, IsHour, marked, save_events, save_events-work}
use front_basicrum_go.Base.Calendar.{civil}
use front_basicrum_go.Backup.Clock.{date_utc, make_hour_name, hour_utc, day_with_hour}
use front_basicrum_go.Backup.Compression.{Codec, none_factory, gzip_factory, decompress}
use front_basicrum_go.Backup.Disk.{
  Root, DayDir, file, directory, HostDir, Faults, no_faults, cannot_stat,
}
use front_basicrum_go.Backup.Archive.{
  ok, DaySummary, day_files, collect_hours, archive_host, read_file_by_hour, validate_dir_exist,
  summary_line, count_lines,
}
use front_basicrum_go.Backup.Archive.Hours.{texts, rows, print_rows, Locates, collect_hours-rows}
use front_basicrum_go.Backup.Archive.Safety.{
  archive_name, archived, archive_host-archived, archive_host_again, archive_host_keeps,
}
use front_basicrum_go.Backup.Lines.{
  Param, values, other, text_of, make_backup_list, backup_items, backup_item, make_key_hostname,
  make_value, append_line, replace_dots,
}
use front_basicrum_go.Backup.Lines.Grouping.{lines_for, make_backup_list-lines}
use front_basicrum_go.Backup.Lines.Saving.{read_file}

abbrev codec : Codec
codec = record {
  gzip = λ l s. s;
  zstd = λ l s. s;
  gunzip = λ s. s;
  unzstd = λ s. s;
  gunzip-gzip = λ l s. refl;
  unzstd-zstd = λ l s. refl;
}

-- The first seconds of 2023-09-20 UTC, and the files of its hours 0 and 2.
abbrev day : ℕ
day = 1695168000

abbrev hours : DayDir
hours =
    (codes "0.json.lines", b'a' ∷ 10 ∷ []) ∷ (codes "2.json.lines", b'b' ∷ 10 ∷ b'c' ∷ 10 ∷ []) ∷ []

abbrev host_dir : HostDir
host_dir = (codes "2023-9-20", directory hours) ∷ (codes "notes", file []) ∷ []

abbrev stat_fails : Faults
stat_fails = record no_faults { stat = λ n. true }

abbrev parse_url : Bytes → Option Bytes
parse_url [] = none
parse_url (c ∷ s) = some (c ∷ s)

abbrev marshal : List (Bytes × Bytes) → Bytes
marshal m = codes "{}"

abbrev batch : List Param
batch = values ((codes "u", codes "a.b" ∷ []) ∷ []) ∷ other ∷ []

abbrev grouped : List (Bytes × Bytes)
grouped = (codes "a_b", codes "{}" ++ 10 ∷ []) ∷ []

archive_host-archived_example :
    ((archive_host codec no_faults (gzip_factory []) day host_dir).0 ≡ none)
    × ((j : Bytes)
        → lookup j (archive_host codec no_faults (gzip_factory []) day host_dir).1
          ≡ archived codec
              (gzip_factory [])
              day
              host_dir
              (day_files (lookup (date_utc day) host_dir))
              j)
unfolding lookup date_utc eqb codes itoa
archive_host-archived_example = archive_host-archived codec (gzip_factory []) day host_dir refl

archive_host_again_example :
    ((archive_host codec no_faults none_factory day []).0 ≡ none)
    × (stored : Bytes) × (lookup
          (archive_name none_factory day)
          (archive_host codec no_faults none_factory day []).1
        ≡ some (file stored))
    × (decompress codec none_factory stored ≡ [])
unfolding lookup
archive_host_again_example = archive_host_again codec none_factory day [] refl

archive_host_keeps_example :
    lookup (date_utc day) (archive_host codec stat_fails none_factory day host_dir).1
    ≡ lookup (date_utc day) host_dir
unfolding archive_host validate_dir_exist
archive_host_keeps_example =
    archive_host_keeps codec stat_fails none_factory day host_dir {e = cannot_stat} refl
      (λ e. ground arith)

abbrev gathered : DaySummary
gathered = record {
  day_content = b'a' ∷ 10 ∷ b'b' ∷ 10 ∷ b'c' ∷ 10 ∷ [];
  summary = codes "0,1,1" ++ (10 ∷ (codes "2,2,3" ++ 10 ∷ []));
}

collect_day : collect_hours no_faults hours day ≡ ok gathered
unfolding collect_hours codes read_file_by_hour lookup eqb make_hour_name hour_utc itoa
    day_with_hour summary_line count_lines split
collect_day = refl

-- At 01:00 the file of hour 2 comes first and that of hour 0 last.
abbrev gathered_at_one : DaySummary
gathered_at_one = record {
  day_content = b'b' ∷ 10 ∷ b'c' ∷ 10 ∷ b'a' ∷ 10 ∷ [];
  summary = codes "1,1,2" ++ (10 ∷ (codes "23,3,3" ++ 10 ∷ []));
}

collect_day_at_one : collect_hours no_faults hours (day + 3600) ≡ ok gathered_at_one
unfolding collect_hours codes read_file_by_hour lookup eqb make_hour_name hour_utc itoa
    day_with_hour summary_line count_lines split
collect_day_at_one = refl

collect_hours-rows_example :
    (gathered_at_one.day_content ≡ texts hours (day + 3600) 24 0)
    × (gathered_at_one.summary ≡ print_rows (rows hours (day + 3600) 24 0 0))
    × All (Locates hours (day + 3600) gathered_at_one.day_content) (rows hours (day + 3600) 24 0 0)
collect_hours-rows_example =
    collect_hours-rows hours (day + 3600) no_faults gathered_at_one collect_day_at_one

group_batch : make_backup_list parse_url marshal batch ≡ returns grouped
unfolding make_backup_list codes backup_items backup_item make_key_hostname get lookup eqb
    append_line insert replace_dots make_value
group_batch = refl

make_backup_list-lines_example :
    Distinct grouped
    × ((host : Bytes) → text_of (lookup host grouped) ≡ lines_for parse_url marshal host batch)
make_backup_list-lines_example = make_backup_list-lines parse_url marshal batch grouped group_batch

test_date : date_utc 1695168000 ≡ codes "2023-9-20"
unfolding date_utc codes itoa
test_date = refl

test_leap : date_utc 1709164800 ≡ codes "2024-2-29"
unfolding date_utc codes itoa
test_leap = refl

test_year : date_utc 1704067199 ≡ codes "2023-12-31"
unfolding date_utc codes itoa
test_year = refl

test_epoch : date_utc 86400 ≡ codes "1970-1-2"
unfolding date_utc codes itoa
test_epoch = refl

abbrev log : Single
log = record { directory = []; compression_factory = none_factory; given = []; files = [] }

abbrev shop : Event
shop = record {
  request_parameters = (codes "u", codes "a.b" ∷ []) ∷ [];
  headers = [];
  user_agent = [];
  remote_addr = [];
}

abbrev to_json : Values → Bytes
to_json v = codes "{}"

-- The batcher hands on the two requests in two batches.
abbrev batches : List Batch
batches =
    record { clock = λ host. day + 59; params = marked parse_url marshal to_json (shop ∷ []) }
    ∷ record { clock = λ host. day + 3599; params = marked parse_url marshal to_json (shop ∷ []) }
    ∷ []

-- The clocks of the two batches show the first hour of the day.
batches-IsHour : IsHour parse_url marshal day batches
unfolding date_utc make_hour_name hour_utc civil
batches-IsHour = (λ host. (refl, refl), (λ host. (refl, refl), tt))

nothing_there : IsFree log.files
unfolding lookup
nothing_there = λ host now. refl

save_events-work_example :
    (files : Root) × (work no_faults parse_url marshal batches
        (save_events parse_url marshal to_json (shop ∷ shop ∷ []) log).files
      ≡ returns files)
    × ((host : Bytes)
        → read_file host (date_utc day) (make_hour_name day) files
          ≡ read_file host (date_utc day) (make_hour_name day) log.files
            ++ lines_for parse_url marshal host
                (marked parse_url marshal to_json (shop ∷ shop ∷ [])))
unfolding save_events save_single codes get lookup eqb
save_events-work_example =
    save_events-work parse_url marshal to_json (shop ∷ shop ∷ []) log batches day refl refl
      batches-IsHour nothing_there ((codes "a.b", refl, refl), ((codes "a.b", refl, refl), tt))

abbrev events_log : Single → Single
events_log = save_events parse_url marshal to_json (shop ∷ [])
