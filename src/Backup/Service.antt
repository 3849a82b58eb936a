-- ===== src/Backup/Service.antt =====
-- backup/service.go, backup/single.go, backup/null.go and backup/factory.go: the three request logs. A
-- log is a directory, the parameters that its batcher was given and has not handed on, and the files.
-- The batcher is eapache/go-resiliency: when it calls the work function is up to it.
pub mod Batches
mod Naming
pub mod Dispatch
use front_basicrum_go.Base.{
  ℕ, Bytes, List, [], ◌∷◌, ◌++◌, Option, none, some, codes, if◌then◌else◌, Bool, eqb,
}
use front_basicrum_go.Base.Outcome.{Outcome, returns, panics, ◌>>=◌}
use front_basicrum_go.Values.{Values, add}
use front_basicrum_go.Types.{Event}
use front_basicrum_go.Backup.Compression.{Codec, Factory}
use front_basicrum_go.Backup.Disk.{Root, Faults, Error}
use front_basicrum_go.Backup.Archive.{archive_day}
use front_basicrum_go.Backup.Lines.{Param, values, do_batch}

-- SingleFileBackup, with the files below its directory; `given` is what SaveAsync gave to the batcher.
pub record Single : Type 0 where
  pub directory : Bytes
  pub compression_factory : Factory
  pub given : List Param
  pub files : Root

abbrev pub request_headers : Bytes
request_headers = codes "request_headers"

-- The parameters that SaveAsync adds to the event: the event's own map is changed. `to_json` is
-- json.Marshal, and the empty text where it fails.
unfoldable pub mark : (Values → Bytes) → Event → Event
mark to_json event = record event {
  request_parameters =
      add event.request_parameters request_headers (to_json event.request_parameters);
}

-- SaveAsync of SingleFileBackup; an error of the batcher is only logged.
unfoldable pub save_single : (Values → Bytes) → Event → Single → Event × Single
save_single to_json event b =
    let event' = mark to_json event in
    (event', record b { given = b.given ++ values event'.request_parameters ∷ [] })

-- The interface IBackup: NullBackup and FileBackup.
pub data Backup : Type 0 where
  null_backup : Backup
  file_backup : Single → Single → Single → Backup

unfoldable pub save_async : (Values → Bytes) → Event → Backup → Event × Backup
save_async to_json event null_backup = (event, null_backup)
save_async to_json event (file_backup archive expired unknown) =
    let (event', archive') = save_single to_json event archive in
    (event', file_backup archive' expired unknown)

unfoldable pub save_expired : (Values → Bytes) → Event → Backup → Event × Backup
save_expired to_json event null_backup = (event, null_backup)
save_expired to_json event (file_backup archive expired unknown) =
    let (event', expired') = save_single to_json event expired in
    (event', file_backup archive expired' unknown)

unfoldable pub save_unknown : (Values → Bytes) → Event → Backup → Event × Backup
save_unknown to_json event null_backup = (event, null_backup)
save_unknown to_json event (file_backup archive expired unknown) =
    let (event', unknown') = save_single to_json event unknown in
    (event', file_backup archive expired unknown')

-- A batch that the batcher hands to the work function, and the time at which the lines of a host are
-- written.
pub record Batch : Type 0 where
  pub clock : Bytes → ℕ
  pub params : List Param

module _ (faults : Faults) (parse_url : Bytes → Option Bytes)
    (marshal : List (Bytes × Bytes) → Bytes) where
  -- The calls of the work function, in order.
  unfoldable pub work : List Batch → Root → Outcome Root
  work [] root = returns root
  work (b ∷ bs) root = do
    root' ← do_batch faults b.clock parse_url marshal b.params root
    work bs root'

module _ (codec : Codec) (faults : Bytes → Faults) where
  -- Compress archives the day before `day_after`; an error is only logged.
  unfoldable pub compress_single : ℕ → Single → Single
  compress_single yesterday b = record b {
    files = (archive_day codec (faults b.directory) b.compression_factory yesterday b.files).1;
  }

  unfoldable pub compress_day : ℕ → Backup → Backup
  compress_day yesterday null_backup = null_backup
  compress_day yesterday (file_backup archive expired unknown) =
      file_backup (compress_single yesterday archive) (compress_single yesterday expired)
        (compress_single yesterday unknown)

-- The new backup, or the directory that cannot be made.
pub data Made (A : Type 0) : Type 0 where
  made : A → Made A
  cannot_create : Bytes → Made A

-- makeSingle. `mkdir` says which directories cannot be made, `on_disk` what is below a directory, and
-- `join` is path.Join.
module _ (mkdir_fails : Bytes → Bool) (on_disk : Bytes → Root) (join : Bytes → Bytes → Bytes) where
  unfoldable pub make_single : Bytes → Bytes → Factory → Made Single
  make_single single_backup_type base_directory factory =
      let directory = join base_directory single_backup_type in
      if mkdir_fails directory
      then cannot_create directory
      else made (record {
        directory = directory;
        compression_factory = factory;
        given = [];
        files = on_disk directory;
      })

  make_three : Made Single → Made Single → Made Single → Made Backup
  make_three (cannot_create d) expired unknown = cannot_create d
  make_three (made archive) (cannot_create d) unknown = cannot_create d
  make_three (made archive) (made expired) (cannot_create d) = cannot_create d
  make_three (made archive) (made expired) (made unknown) =
      made (file_backup archive expired unknown)

  -- `New`, where the schedule of the cron is one.
  unfoldable pub new_backup : Bool → Bytes → Factory → Made Backup
  unfolding make_three
  new_backup enabled base_directory factory =
      if enabled
      then make_three (make_single (codes "archive") base_directory factory)
          (make_single (codes "expired") base_directory factory)
          (make_single (codes "unknown") base_directory factory)
      else made null_backup
