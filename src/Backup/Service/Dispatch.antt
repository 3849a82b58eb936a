-- ===== src/Backup/Service/Dispatch.antt =====
-- The three logs of FileBackup do not disturb each other.
use front_basicrum_go.Base.{Bytes, List, [], ◌∷◌, Option, ◌≡◌, refl}
use front_basicrum_go.Values.{Values}
use front_basicrum_go.Types.{Event}
use front_basicrum_go.Backup.Service.{
  Single, Backup, file_backup, save_single, save_async, save_expired, save_unknown,
}
use front_basicrum_go.Backup.Service.Batches.{save_events}

-- A call of the backup with an event.
pub data Saved : Type 0 where
  archived expired unknown : Event → Saved

unfoldable pub save_all : (Values → Bytes) → List Saved → Backup → Backup
save_all to_json [] b = b
save_all to_json (archived e ∷ rest) b = save_all to_json rest (save_async to_json e b).1
save_all to_json (expired e ∷ rest) b = save_all to_json rest (save_expired to_json e b).1
save_all to_json (unknown e ∷ rest) b = save_all to_json rest (save_unknown to_json e b).1

-- The events of the calls for each log.
unfoldable pub of_archived : List Saved → List Event
of_archived [] = []
of_archived (archived e ∷ rest) = e ∷ of_archived rest
of_archived (expired e ∷ rest) = of_archived rest
of_archived (unknown e ∷ rest) = of_archived rest

unfoldable pub of_expired : List Saved → List Event
of_expired [] = []
of_expired (archived e ∷ rest) = of_expired rest
of_expired (expired e ∷ rest) = e ∷ of_expired rest
of_expired (unknown e ∷ rest) = of_expired rest

unfoldable pub of_unknown : List Saved → List Event
of_unknown [] = []
of_unknown (archived e ∷ rest) = of_unknown rest
of_unknown (expired e ∷ rest) = of_unknown rest
of_unknown (unknown e ∷ rest) = e ∷ of_unknown rest

module _ (parse_url : Bytes → Option Bytes) (marshal : List (Bytes × Bytes) → Bytes)
    (to_json : Values → Bytes) where
  -- However the calls of the three methods come, each log gets its own events in their order.
  pub save_all-save_events :
      (calls : List Saved) (archive_log expired_log unknown_log : Single)
      → save_all to_json calls (file_backup archive_log expired_log unknown_log)
        ≡ file_backup
            (save_events parse_url marshal to_json (of_archived calls) archive_log)
            (save_events parse_url marshal to_json (of_expired calls) expired_log)
            (save_events parse_url marshal to_json (of_unknown calls) unknown_log)
  unfolding save_all save_events save_async save_expired save_unknown of_archived of_expired
      of_unknown
  save_all-save_events [] a x u = refl
  save_all-save_events (archived e ∷ rest) a x u =
      save_all-save_events rest (save_single to_json e a).1 x u
  save_all-save_events (expired e ∷ rest) a x u =
      save_all-save_events rest a (save_single to_json e x).1 u
  save_all-save_events (unknown e ∷ rest) a x u =
      save_all-save_events rest a x (save_single to_json e u).1
