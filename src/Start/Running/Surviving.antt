-- ===== src/Start/Running/Surviving.antt =====
-- What the service has taken without a panic.
use mathlib.Core.Path.{subst}
use front_basicrum_go.Base.{
  ℕ, zero, suc, ◌≤◌, ◌<◌, ◌==◌, length, count, count-append, Bool-cases, [], Bytes, List, ◌∷◌, ◌++◌,
  Bool, Option, ◌≡◌, ◌∙◌, refl, sym, arith, get_elem?, inl, inr,
}
use front_basicrum_go.Base.Outcome.{returns}
use front_basicrum_go.Values.{Values}
use front_basicrum_go.Types.{Event}
use front_basicrum_go.Geoip
use front_basicrum_go.Beacon.Convert.{create}
use front_basicrum_go.Service.Subscriptions.{Query, Subscriptions}
use front_basicrum_go.Service.Process.{Service, process_event}
use front_basicrum_go.Server.Lifecycle.{Endpoint}
use front_basicrum_go.Start.Running.{
  System, initial, serves, catches, takes, crashes, dies, ticks, archives, signals, shuts, flushes,
  exits, Reach, here, next, accept, received, ticked, archive, serve_one, shut_one, flush_backup,
}
use front_basicrum_go.Start.Running.Counting.{IsCounted, Reach-IsCounted}
use front_basicrum_go.Start.Running.Marking.{AreMarked}
use front_basicrum_go.Start.Running.Breaking.{
  HasBroken, panics-process_event, marked, panics_on_heap,
}

get_elem?-append_left :
    {A : Type 0} (i : ℕ) (xs ys : List A) → i < length xs → get_elem? (xs ++ ys) i ≡ get_elem? xs i
get_elem?-append_left i [] ys h = absurd (omega arith)
get_elem?-append_left zero (x ∷ xs) ys h = refl
get_elem?-append_left (suc i) (x ∷ xs) ys h = get_elem?-append_left i xs ys (omega arith)

module _ (parse_url : Bytes → Option Bytes) (geo : Option Geoip.Service) (to_json : Values → Bytes)
    (enabled : Bool) (subscriptions : Subscriptions) (servers : List Endpoint) where
  -- An event that the service has taken is not broken.
  abbrev pub IsSurvived : System → Type 0
  IsSurvived s = (i : ℕ) → 1 ≤ count i s.taken → ¬ HasBroken parse_url s.accepted i

  accept-IsSurvived :
      (e : Event) (s : System)
      → IsCounted enabled s
      → IsSurvived s
      → IsSurvived (accept enabled e s)
  unfolding accept
  accept-IsSurvived e s c h i taken (x, there, bad) =
      h i taken (
        x,
        sym (get_elem?-append_left i s.accepted (e ∷ []) (ground (arith, c.once i))) ∙ there,
        bad,
      )

  received-IsSurvived :
      (query : Query) (now : ℕ) (sending : List ℕ) (i : ℕ) (service : Service) (s : System)
      → AreMarked to_json s.accepted s.heap
      → process_event (create parse_url geo) query now (get_elem? s.heap i) s.service
        ≡ returns service
      → IsSurvived s
      → IsSurvived (received enabled i sending service s)
  unfolding received
  received-IsSurvived query now sending i service s m done h j taken broken =
      elim (Bool-cases (i == j)) [
        | inl same ↦
            let at : i ≡ j = ground arith in
            let (e, there, bad) =
              panics_on_heap parse_url geo to_json enabled subscriptions servers s.accepted s.heap i
                m (subst (HasBroken parse_url s.accepted) (sym at) broken) in
            cc (
              panics-process_event (create parse_url geo) query now (get_elem? s.heap i) e s.service
                there bad)
        | inr other ↦ h j (ground (arith, count-append j s.taken (i ∷ []))) broken
      ]

  pub Reach-IsSurvived :
      {s : System}
      → Reach (create parse_url geo) parse_url to_json enabled (initial subscriptions servers) s
      → IsSurvived s
  unfolding initial ticked archive serve_one shut_one flush_backup
  Reach-IsSurvived here = λ i taken broken. omega arith
  Reach-IsSurvived (next {t} r (catches k v now events q w e alive at listens made)) =
      accept-IsSurvived e t
        (Reach-IsCounted (create parse_url geo) parse_url to_json enabled subscriptions servers r)
        (Reach-IsSurvived r)
  Reach-IsSurvived (next {t} r (takes query now before after i service alive waits done)) =
      received-IsSurvived query now (before ++ after) i service t
        (marked parse_url geo to_json enabled subscriptions servers r) done (Reach-IsSurvived r)
  Reach-IsSurvived (next r (crashes query now before after i alive waits bad)) = Reach-IsSurvived r
  Reach-IsSurvived (next r (dies cause alive how)) = Reach-IsSurvived r
  Reach-IsSurvived (next r (serves fails k v alive at fresh)) = Reach-IsSurvived r
  Reach-IsSurvived (next r (ticks alive)) = Reach-IsSurvived r
  Reach-IsSurvived (next r (archives before after w alive waits)) = Reach-IsSurvived r
  Reach-IsSurvived (next r (signals at)) = Reach-IsSurvived r
  Reach-IsSurvived (next r (shuts error k v at there fresh)) = Reach-IsSurvived r
  Reach-IsSurvived (next r (flushes at fresh)) = Reach-IsSurvived r
  Reach-IsSurvived (next r (exits at done stopped)) = Reach-IsSurvived r
