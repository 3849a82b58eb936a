-- ===== src/Start/Running/Marking.antt =====
-- What the goroutines of the backup do to the events that the service reads at the same time.
use front_basicrum_go.Base.{
  ℕ, zero, suc, Bytes, List, [], ◌∷◌, ◌++◌, none, some, ◌≡◌, ◌∙◌, refl, get_elem?, ◌⊎◌, inl, inr,
}
use front_basicrum_go.Base.Outcome.{Outcome}
use front_basicrum_go.Values.{Values}
use front_basicrum_go.Types.{Event}
use front_basicrum_go.Beacon.Convert.{RumEvent}
use front_basicrum_go.Backup.Service.{mark}
use front_basicrum_go.Start.Running.Pointers.{modify}

module _ (to_json : Values → Bytes) where
  -- The event after SaveAsync of some logs.
  pub data Marked (e : Event) : Event → Type 0 where
    unmarked : Marked e e
    again : {f : Event} → Marked e f → Marked e (mark to_json f)

  -- Each event of the heap is the event that was accepted, as the logs have left it.
  abbrev pub AreMarked : List Event → List Event → Type 0
  AreMarked [] [] = Unit
  AreMarked [] (h ∷ hs) = ⊥
  AreMarked (e ∷ es) [] = ⊥
  AreMarked (e ∷ es) (h ∷ hs) = Marked e h × AreMarked es hs

  pub AreMarked-accept :
      (es hs : List Event) (e : Event) → AreMarked es hs → AreMarked (es ++ e ∷ []) (hs ++ e ∷ [])
  AreMarked-accept [] [] e m = (unmarked, tt)
  AreMarked-accept [] (h ∷ hs) e m = elim m [ ]
  AreMarked-accept (x ∷ es) [] e m = elim m [ ]
  AreMarked-accept (x ∷ es) (h ∷ hs) e (m, ms) = (m, AreMarked-accept es hs e ms)

  pub AreMarked-modify :
      (i : ℕ) (es hs : List Event) → AreMarked es hs → AreMarked es (modify i (mark to_json) hs)
  unfolding modify
  AreMarked-modify i [] [] m = tt
  AreMarked-modify i [] (h ∷ hs) m = elim m [ ]
  AreMarked-modify i (e ∷ es) [] m = elim m [ ]
  AreMarked-modify zero (e ∷ es) (h ∷ hs) (m, ms) = (again m, ms)
  AreMarked-modify (suc i) (e ∷ es) (h ∷ hs) (m, ms) = (m, AreMarked-modify i es hs ms)

  -- An address has an event on the heap where it has one that was accepted, and no other.
  pub AreMarked-get_elem? :
      (i : ℕ) (es hs : List Event)
      → AreMarked es hs
      → ((get_elem? es i ≡ none) × (get_elem? hs i ≡ none))
        ⊎ ((e : Event) × (h : Event) × (get_elem? es i ≡ some e)
            × (get_elem? hs i ≡ some h)
            × Marked e h)
  AreMarked-get_elem? i [] [] m = inl (refl, refl)
  AreMarked-get_elem? i [] (h ∷ hs) m = elim m [ ]
  AreMarked-get_elem? i (e ∷ es) [] m = elim m [ ]
  AreMarked-get_elem? zero (e ∷ es) (h ∷ hs) (m, ms) = inr (e, h, refl, refl, m)
  AreMarked-get_elem? (suc i) (e ∷ es) (h ∷ hs) (m, ms) = AreMarked-get_elem? i es hs ms

  -- Where one mark does not change what is made of an event, no number of them does.
  pub Marked-create :
      (create : Event → Outcome RumEvent)
      → ((e : Event) → create (mark to_json e) ≡ create e)
      → {e h : Event} → Marked e h
      → create h ≡ create e
  Marked-create create same unmarked = refl
  Marked-create create same (again {f} m) = same f ∙ Marked-create create same m
