-- ===== src/Start/Running/Breaking.antt =====
-- Where the service and the batchers panic on an event of the heap: its parameter `u` is no URL.
use front_basicrum_go.Base.{
  ℕ, ◌↔◌, Bytes, List, Bool, Option, none, some, ◌≡◌, ◌∙◌, refl, sym, ap, arith, get_elem?, inl,
  inr, codes,
}
use front_basicrum_go.Base.Outcome.{Outcome, panics, Outcome-cases}
use front_basicrum_go.Values.{Values, get}
use front_basicrum_go.Types.{Event}
use front_basicrum_go.Geoip
use front_basicrum_go.Beacon.Convert.{RumEvent, create}
use front_basicrum_go.Beacon.Laws.{create-panics}
use front_basicrum_go.Backup.Lines.{make_key_hostname}
use front_basicrum_go.Service.Subscriptions.{Query, Subscriptions}
use front_basicrum_go.Service.Process.{Service, process_event}
use front_basicrum_go.Server.Lifecycle.{Endpoint}
use front_basicrum_go.Start.Running.{System, initial, Reach}
use front_basicrum_go.Start.Running.Marking.{AreMarked, AreMarked-get_elem?, Marked-create}
use front_basicrum_go.Start.Running.Schedule.Following.{run-Follows, mark-create}

module _ (make : Event → Outcome RumEvent) (query : Query) (now : ℕ) where
  pub process_event-panics :
      (o : Option Event) (s : Service)
      → process_event make query now o s ≡ panics
      → (e : Event) × (o ≡ some e) × (make e ≡ panics)
  unfolding process_event
  process_event-panics none s h = cc
  process_event-panics (some e) s h = elim (Outcome-cases (make e)) [
    | inl (r, good) ↦ absurd (ground arith)
    | inr bad ↦ (e, refl, bad)
  ]

  pub panics-process_event :
      (o : Option Event) (e : Event) (s : Service)
      → o ≡ some e
      → make e ≡ panics
      → process_event make query now o s ≡ panics
  unfolding process_event
  panics-process_event none e s h bad = cc
  panics-process_event (some x) e s h bad = ground arith

module _ (parse_url : Bytes → Option Bytes) where
  -- The event was accepted, and its parameter `u` is no URL.
  abbrev pub HasBroken : List Event → ℕ → Type 0
  HasBroken accepted i =
      (e : Event) × (get_elem? accepted i ≡ some e)
      × (parse_url (get e.request_parameters (codes "u")) ≡ none)

module _ (parse_url : Bytes → Option Bytes) (geo : Option Geoip.Service) (to_json : Values → Bytes)
    (enabled : Bool) (subscriptions : Subscriptions) (servers : List Endpoint) where
  -- The events of the heap and those that were accepted are broken together.
  pub broken_of_heap :
      (accepted heap : List Event) (i : ℕ) (h : Event)
      → AreMarked to_json accepted heap
      → get_elem? heap i ≡ some h
      → create parse_url geo h ≡ panics
      → HasBroken parse_url accepted i
  broken_of_heap accepted heap i h m at bad = elim (AreMarked-get_elem? to_json i accepted heap m) [
    | inl (p, q) ↦ cc
    | inr (e, x, p, q, marked) ↦
        let same : x ≡ h = ground arith in
        let made =
          Marked-create to_json (create parse_url geo)
            (mark-create parse_url geo to_json enabled subscriptions servers) marked in
        (e, p, (create-panics parse_url geo e).0 (sym made ∙ ap (create parse_url geo) same ∙ bad))
  ]

  pub marked :
      {s : System}
      → Reach (create parse_url geo) parse_url to_json enabled (initial subscriptions servers) s
      → AreMarked to_json s.accepted s.heap
  marked r =
      (run-Follows (create parse_url geo) parse_url to_json enabled subscriptions servers
        (mark-create parse_url geo to_json enabled subscriptions servers) r).0

  -- What is accepted and what is on the heap of an address, and that the two are broken together.
  pub panics_on_heap :
      (accepted heap : List Event) (i : ℕ)
      → AreMarked to_json accepted heap
      → HasBroken parse_url accepted i
      → (h : Event) × (get_elem? heap i ≡ some h) × (create parse_url geo h ≡ panics)
  panics_on_heap accepted heap i m (e, there, bad) =
      elim (AreMarked-get_elem? to_json i accepted heap m) [
        | inl (p, q) ↦ absurd (ground arith)
        | inr (x, h, p, q, marked) ↦
            let same : x ≡ e = ground arith in
            let made =
              Marked-create to_json (create parse_url geo)
                (mark-create parse_url geo to_json enabled subscriptions servers) marked in
            (h, q, made ∙ ap (create parse_url geo) same ∙ (create-panics parse_url geo e).1 bad)
      ]

  -- The work function panics on the events that the service panics on.
  pub make_key_hostname-panics :
      (e : Event)
      → (create parse_url geo e ≡ panics)
        ↔ (make_key_hostname parse_url e.request_parameters ≡ panics)
  unfolding make_key_hostname
  make_key_hostname-panics e = (
    λ h. let no_url = (create-panics parse_url geo e).0 h in ground arith,
    λ h. (create-panics parse_url geo e).1 (ground arith),
  )
