-- ===== src/Backup/Archive/Safety.antt =====
-- archiveHost: what is in the directory of a host after the archiving of a day, where every call
-- succeeds, where one fails, and where it is done again.
use front_basicrum_go.Base.{
  ℕ, Bytes, [], ◌∷◌, ◌++◌, append_assoc, Bool, true, false, Option, none, some, ◌≡◌, ◌≢◌, ◌∙◌, ap,
  refl, arith, inl, inr, eqb, eqb_append_left, eqb_longer, eqb_refl, eqb_iff, codes, if◌then◌else◌,
}
use front_basicrum_go.Base.Assoc.{lookup, erase, lookup-erase}
use front_basicrum_go.Backup.Clock.{
  date_utc, lines_suffix, make_archive_day_name, make_archive_day_meta_name,
}
use front_basicrum_go.Backup.Compression.{
  Codec, Factory, none_factory, gzip_factory, zstd_factory, filename, compress, decompress,
  decompress-compress,
}
use front_basicrum_go.Backup.Disk.{
  DayDir, Entry, file, directory, HostDir, Error, cannot_remove_all, Faults, no_faults,
  write_to_file, lookup-write_to_file, lookup-write_to_file_self,
}
use front_basicrum_go.Backup.Archive.{
  ok, DaySummary, day_files, collect_hours, validate_dir_exist, store_day, archive_host,
}
use front_basicrum_go.Backup.Archive.Hours.{
  Result-cases, texts, rows, print_rows, collect_hours-rows, collect_hours_total, texts-nil,
}

table_name-ne-date : (day : ℕ) → eqb (make_archive_day_meta_name day) (date_utc day) ≡ false
unfolding make_archive_day_meta_name codes
table_name-ne-date day = eqb_longer (date_utc day) _ _

table_name_plain :
    (day : ℕ) → eqb (filename none_factory (make_archive_day_meta_name day)) (date_utc day) ≡ false
unfolding filename
table_name_plain day = table_name-ne-date day

archive_suffix :
    (f : Factory) (s : Bytes)
    → (t : Bytes) × (filename f (s ++ lines_suffix) ≡ s ++ b'.' ∷ (b'j' ∷ t))
unfolding filename codes
archive_suffix none_factory s = (_, refl)
archive_suffix (gzip_factory l) s = (_, append_assoc s lines_suffix (codes ".gz"))
archive_suffix (zstd_factory l) s = (_, append_assoc s lines_suffix (codes ".zst"))

module _ (factory : Factory) (day : ℕ) where
  abbrev pub archive_name : Bytes
  archive_name = filename factory (make_archive_day_name day)

  archive_name-ne-date : eqb archive_name (date_utc day) ≡ false
  unfolding make_archive_day_name
  archive_name-ne-date =
      let (t, e) = archive_suffix factory (date_utc day) in rw e (eqb_longer (date_utc day) _ _)

  archive_name-ne-table : eqb archive_name (make_archive_day_meta_name day) ≡ false
  unfolding make_archive_day_name make_archive_day_meta_name codes eqb
  archive_name-ne-table =
      let (t, e) = archive_suffix factory (date_utc day) in
      rw e (eqb_append_left (date_utc day) (b'.' ∷ (b'j' ∷ t)) (codes "-parts-meta.txt"))

ne_sym : (s t : Bytes) → eqb s t ≡ false → eqb t s ≡ false
ne_sym s t h = ground (arith, eqb_iff s t, eqb_iff t s)

module _ (codec : Codec) (factory : Factory) (day : ℕ) (dir : HostDir) where
  -- What the directory of a host has under a name behind the archiving of a day with the hour files
  -- `hours`.
  unfoldable pub archived : DayDir → Bytes → Option Entry
  archived hours j =
      if eqb (archive_name factory day) j
      then some (file (compress codec factory (texts hours day 24 0)))
      else if eqb (make_archive_day_meta_name day) j
      then some (file (print_rows (rows hours day 24 0 0)))
      else if eqb (date_utc day) j
      then none
      else lookup j dir

  abbrev with_archive : DaySummary → HostDir
  with_archive s =
      (write_to_file codec no_faults (make_archive_day_name day) s.day_content factory dir).1

  abbrev with_table : DaySummary → HostDir
  with_table s =
      (write_to_file codec no_faults (make_archive_day_meta_name day) s.summary none_factory
        (with_archive s)).1

  store_day_done :
      (s : DaySummary)
      → store_day codec no_faults factory day s dir ≡ (none, erase (date_utc day) (with_table s))
  unfolding store_day write_to_file
  store_day_done s = refl

  lookup-with_archive :
      (s : DaySummary)
      → lookup (archive_name factory day) (with_archive s)
        ≡ some (file (compress codec factory s.day_content))
  lookup-with_archive s =
      (lookup-write_to_file_self codec (make_archive_day_name day) s.day_content factory dir).1

  lookup-with_table :
      (s : DaySummary)
      → lookup (make_archive_day_meta_name day) (with_table s) ≡ some (file s.summary)
  unfolding filename compress
  lookup-with_table s =
      (lookup-write_to_file_self codec (make_archive_day_meta_name day) s.summary none_factory
        (with_archive s)).1

  lookup-with_table_other :
      (s : DaySummary) (j : Bytes)
      → eqb (make_archive_day_meta_name day) j ≡ false
      → lookup j (with_table s) ≡ lookup j (with_archive s)
  unfolding filename
  lookup-with_table_other s j n =
      lookup-write_to_file codec no_faults (make_archive_day_meta_name day) s.summary none_factory
        (with_archive s) j n

  lookup-store_day :
      (hours : DayDir) (s : DaySummary) (j : Bytes)
      → s.day_content ≡ texts hours day 24 0
      → s.summary ≡ print_rows (rows hours day 24 0 0)
      → lookup j (erase (date_utc day) (with_table s)) ≡ archived hours j
  unfolding archived
  lookup-store_day hours s j c m =
      let a = archive_name factory day in
      let t = make_archive_day_meta_name day in
      let d = date_utc day in
      ground (
        arith,
        eqb_iff a j,
        eqb_iff t j,
        eqb_iff d j,
        eqb_iff a t,
        eqb_iff a d,
        eqb_iff t d,
        archive_name-ne-date factory day,
        archive_name-ne-table factory day,
        table_name-ne-date day,
        lookup-erase d j (with_table s),
        lookup-with_archive s,
        lookup-with_table s,
        lookup-with_table_other s j,
        lookup-write_to_file codec no_faults (make_archive_day_name day) s.day_content factory dir
            j,
      )

abbrev pub is_file : Option Entry → Bool
is_file none = false
is_file (some (file s)) = true
is_file (some (directory hours)) = false

module _ (codec : Codec) (factory : Factory) (day : ℕ) (dir : HostDir) where
  valid_day :
      is_file (lookup (date_utc day) dir) ≡ false
      → validate_dir_exist no_faults (date_utc day) (lookup (date_utc day) dir) ≡ none
  unfolding validate_dir_exist
  valid_day h = ground arith

  archive_host_stores :
      (s : DaySummary)
      → validate_dir_exist no_faults (date_utc day) (lookup (date_utc day) dir) ≡ none
      → collect_hours no_faults (day_files (lookup (date_utc day) dir)) day ≡ ok s
      → archive_host codec no_faults factory day dir ≡ store_day codec no_faults factory day s dir
  unfolding archive_host
  archive_host_stores s v e = ground arith

  -- Where no call fails, archiving a day that is a directory, or that is not there, succeeds: the
  -- archive holds the compressed text of the hours, the table their rows, the hour files are gone, and
  -- every other entry of the host is as before.
  pub archive_host-archived :
      is_file (lookup (date_utc day) dir) ≡ false
      → ((archive_host codec no_faults factory day dir).0 ≡ none)
        × ((j : Bytes)
            → lookup j (archive_host codec no_faults factory day dir).1
              ≡ archived codec factory day dir (day_files (lookup (date_utc day) dir)) j)
  archive_host-archived h =
      let hours = day_files (lookup (date_utc day) dir) in
      let (s, e) = collect_hours_total hours day in
      let (c, m, l) = collect_hours-rows hours day no_faults s e in
      rw (archive_host_stores s (valid_day h) e) (
        rw (store_day_done codec factory day dir s)
          (refl, λ j. lookup-store_day codec factory day dir hours s j c m))

  -- Where no call fails and the day is no plain file, the archive is read back as the text of the
  -- hours, whichever compression wrote it.
  pub archive_host-decompress :
      is_file (lookup (date_utc day) dir) ≡ false
      → (stored : Bytes) × (lookup
            (archive_name factory day)
            (archive_host codec no_faults factory day dir).1
          ≡ some (file stored))
        × (decompress codec factory stored ≡ texts (day_files (lookup (date_utc day) dir)) day 24 0)
  unfolding archived
  archive_host-decompress h = (
    compress codec factory (texts (day_files (lookup (date_utc day) dir)) day 24 0),
    (archive_host-archived h).1 (archive_name factory day)
        ∙ rw (eqb_refl (archive_name factory day)),
    decompress-compress codec factory _,
  )

  -- Where no call fails, archiving a day whose directory is gone succeeds, and whatever the archive
  -- of the day held, it then holds no text.
  pub archive_host_again :
      lookup (date_utc day) dir ≡ none
      → ((archive_host codec no_faults factory day dir).0 ≡ none)
        × (stored : Bytes) × (lookup
              (archive_name factory day)
              (archive_host codec no_faults factory day dir).1
            ≡ some (file stored))
        × (decompress codec factory stored ≡ [])
  unfolding day_files
  archive_host_again h =
      let (stored, p, q) = archive_host-decompress (rw h) in
      (
        (archive_host-archived (rw h)).0,
        stored,
        p,
        q ∙ (ap (λ o. texts (day_files o) day 24 0) h ∙ texts-nil day 24 0),
      )

module _ (codec : Codec) (faults : Faults) (factory : Factory) (day : ℕ) (dir : HostDir) where
  store_day_keeps :
      (s : DaySummary) {e : Error}
      → (store_day codec faults factory day s dir).0 ≡ some e
      → e ≢ cannot_remove_all
      → lookup (date_utc day) (store_day codec faults factory day s dir).1
        ≡ lookup (date_utc day) dir
  unfolding store_day
  store_day_keeps s h n =
      let (e, dir') =
        write_to_file codec faults (make_archive_day_name day) s.day_content factory dir in
      ground (
        arith,
        lookup-write_to_file codec faults (make_archive_day_name day) s.day_content factory dir
            (date_utc day) (archive_name-ne-date factory day),
        lookup-write_to_file codec faults (make_archive_day_meta_name day) s.summary none_factory
            dir' (date_utc day) (table_name_plain day),
      )

  -- An archiving that fails before the removal of the hour files leaves them all in place.
  pub archive_host_keeps :
      {e : Error}
      → (archive_host codec faults factory day dir).0 ≡ some e
      → e ≢ cannot_remove_all
      → lookup (date_utc day) (archive_host codec faults factory day dir).1
        ≡ lookup (date_utc day) dir
  unfolding archive_host
  archive_host_keeps {e} h n =
      elim (Result-cases (collect_hours faults (day_files (lookup (date_utc day) dir)) day)) [
        | inl (s, p) ↦ ground (arith, store_day_keeps s {e = e})
        | inr (f, p) ↦ ground arith
      ]
