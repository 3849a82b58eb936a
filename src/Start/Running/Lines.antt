-- ===== src/Start/Running/Lines.antt =====
-- The batchers hold the shared events, not copies: what their lines are when the batch is written.
use mathlib.Core.List.{map}
use mathlib.Core.Option
use mathlib.Core.Path.{subst}
use front_basicrum_go.Base.{
  ℕ, zero, suc, Bytes, List, [], ◌∷◌, ◌++◌, Bool, Option, some, ◌≡◌, ◌∙◌, refl, ap, arith, fun_ext,
  get_elem?, eqb_iff, codes,
}
use front_basicrum_go.Base.Assoc.{lookup, insert}
use front_basicrum_go.Base.Outcome.{Outcome}
use front_basicrum_go.Values.{Values, get, add, HasValue, get-add_more, add-HasValue, add-insert}
use front_basicrum_go.Types.{Event}
use front_basicrum_go.Beacon.Convert.{RumEvent}
use front_basicrum_go.Backup.Lines.{values, flatten_map, make_value, make_key_hostname, backup_item}
use front_basicrum_go.Backup.Service.{mark, request_headers}
use front_basicrum_go.Start.Running.{
  System, Saving, serves, catches, takes, crashes, dies, ticks, archives, signals, shuts, flushes,
  exits, Reach, here, next, accept, received, ticked, archive, serve_one, shut_one, flush_backup,
  modify,
}

module _ (k : Bytes) (w : List Bytes) (g : Bytes → Bytes) where
  map-insert :
      (m : Values) (old : List Bytes)
      → lookup k m ≡ some old
      → map {B = Bytes × Bytes} (λ (e : Bytes × List Bytes). (e.0, g e.0)) (insert k w m)
        ≡ map (λ (e : Bytes × List Bytes). (e.0, g e.0)) m
  unfolding insert lookup
  map-insert [] old h = cc
  map-insert ((j, v) ∷ m) old h = ground (arith, eqb_iff j k, map-insert m old)

flatten_map-add :
    (m : Values) (k v : Bytes) → HasValue k m → flatten_map (add m k v) ≡ flatten_map m
unfolding flatten_map
flatten_map-add m k v (x, xs, h) =
    ap (λ (g : Bytes → Bytes). map (λ (e : Bytes × List Bytes). (e.0, g e.0)) (add m k v))
      (fun_ext (λ j. get-add_more m k v j (x, xs, h)))
    ∙ ap (map (λ (e : Bytes × List Bytes). (e.0, get m e.0))) (add-insert m k v (x ∷ xs) h)
    ∙ map-insert k ((x ∷ xs) ++ v ∷ []) (get m) m (x ∷ xs) h

-- The event has the text that SaveAsync adds.
abbrev IsLogged : Event → Type 0
IsLogged e = HasValue request_headers e.request_parameters

module _ (to_json : Values → Bytes) (parse_url : Bytes → Option Bytes)
    (marshal : List (Bytes × Bytes) → Bytes) where
  -- Two events have the same line and the same host in every batch.
  abbrev pub SameLine : Event → Event → Type 0
  SameLine e f =
      (m : List (Bytes × Bytes))
      → backup_item parse_url marshal m (values e.request_parameters)
        ≡ backup_item parse_url marshal m (values f.request_parameters)

  mark-IsLogged : (e : Event) → IsLogged (mark to_json e)
  unfolding mark
  mark-IsLogged e = add-HasValue e.request_parameters request_headers (to_json e.request_parameters)

  mark-SameLine : (e : Event) → IsLogged e → SameLine (mark to_json e) e
  unfolding mark backup_item make_value make_key_hostname
  mark-SameLine e h m = ground (
    arith,
    flatten_map-add e.request_parameters request_headers (to_json e.request_parameters) h,
    get-add_more e.request_parameters request_headers (to_json e.request_parameters) (codes "u") h,
  )

  -- An event of the heap that was given to a log, as it is later.
  abbrev Stays : Event → Option Event → Type 0
  Stays e o = (f : Event) × (o ≡ some f) × IsLogged f × SameLine f e

  Stays-mark :
      (e : Event) (i j : ℕ) (heap : List Event)
      → Stays e (get_elem? heap i)
      → Stays e (get_elem? (modify j (mark to_json) heap) i)
  unfolding modify
  Stays-mark e i j [] s = s
  Stays-mark e zero zero (x ∷ heap) (f, q, l, same) =
      let p : f ≡ x = cc in
      let logged = subst IsLogged p l in
      (
        mark to_json x,
        refl,
        mark-IsLogged x,
        λ m. mark-SameLine x logged m ∙ subst (λ y. SameLine y e) p same m,
      )
  Stays-mark e zero (suc j) (x ∷ heap) s = s
  Stays-mark e (suc i) zero (x ∷ heap) s = s
  Stays-mark e (suc i) (suc j) (x ∷ heap) s = Stays-mark e i j heap s

  Stays-append :
      (e a : Event) (i : ℕ) (heap : List Event)
      → Stays e (get_elem? heap i)
      → Stays e (get_elem? (heap ++ a ∷ []) i)
  Stays-append e a i [] (f, q, l, same) = cc
  Stays-append e a zero (x ∷ heap) s = s
  Stays-append e a (suc i) (x ∷ heap) s = Stays-append e a i heap s

  module _ (create : Event → Outcome RumEvent) (enabled : Bool) where
    Reach-Stays :
        (e : Event) (i : ℕ) {s t : System}
        → Stays e (get_elem? s.heap i)
        → Reach create parse_url to_json enabled s t
        → Stays e (get_elem? t.heap i)
    unfolding accept received ticked archive serve_one shut_one flush_backup
    Reach-Stays e i k here = k
    Reach-Stays e i k (next {t} r (catches j v now events q w a alive at listens made)) =
        Stays-append e a i t.heap (Reach-Stays e i k r)
    Reach-Stays e i k (next {t} r (archives before after w alive waits)) =
        Stays-mark e i w.event t.heap (Reach-Stays e i k r)
    Reach-Stays e i k (next r (serves fails j v alive at fresh)) = Reach-Stays e i k r
    Reach-Stays e i k (next r (takes query now before after j service alive waits done)) =
        Reach-Stays e i k r
    Reach-Stays e i k (next r (crashes query now before after j alive waits done)) =
        Reach-Stays e i k r
    Reach-Stays e i k (next r (dies cause alive how)) = Reach-Stays e i k r
    Reach-Stays e i k (next r (ticks alive)) = Reach-Stays e i k r
    Reach-Stays e i k (next r (signals at)) = Reach-Stays e i k r
    Reach-Stays e i k (next r (shuts error j v at there fresh)) = Reach-Stays e i k r
    Reach-Stays e i k (next r (flushes at fresh)) = Reach-Stays e i k r
    Reach-Stays e i k (next r (exits at done stopped)) = Reach-Stays e i k r

    modified :
        (i : ℕ) (heap : List Event) (e : Event)
        → get_elem? heap i ≡ some e
        → get_elem? (modify i (mark to_json) heap) i ≡ some (mark to_json e)
    unfolding modify
    modified i [] e h = cc
    modified zero (x ∷ heap) e h = ap (λ (o : Option Event). Option.map (mark to_json) o) h
    modified (suc i) (x ∷ heap) e h = modified i heap e h

    -- Once a goroutine of SaveAsync has given an event to a log, the event keeps its host and its line:
    -- however long the batcher holds it, and whatever other goroutines add to the shared event
    -- until then, the work function makes the same of it in every batch.
    pub archive-SameLine :
        (s t : System) (w : Saving) (saving : List Saving) (e : Event)
        → get_elem? s.heap w.event ≡ some e
        → Reach create parse_url to_json enabled (archive to_json w saving s) t
        → (f : Event) × (get_elem? t.heap w.event ≡ some f) × SameLine f (mark to_json e)
    unfolding archive
    archive-SameLine s t w saving e h r =
        let (f, q, l, same) =
          Reach-Stays (mark to_json e) w.event
            (mark to_json e, modified w.event s.heap e h, mark-IsLogged e, λ m. refl) r in
        (f, q, same)
