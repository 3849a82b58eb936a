-- ===== src/It/Resending.antt =====
-- A beacon that is posted again from its line in the log.
use mathlib.Core.List.{map}
use mathlib.Core.Option
use mathlib.Core.Path.{ap₂, subst}
use front_basicrum_go.Base.{
  Bytes, List, [], ◌∷◌, true, false, Option, none, some, ◌≡◌, ◌∙◌, refl, sym, ap, arith, fun_ext,
  eqb, eqb_iff, inl, inr, Bool-cases, Option-cases,
}
use front_basicrum_go.Base.Assoc.{lookup, lookup-nil, Fresh, Distinct, lookup-Fresh}
use front_basicrum_go.Values.{Values, get, has, set, get-set, has-set}
use front_basicrum_go.Types.{Event, new_event}
use front_basicrum_go.Beacon.{beacon_of, from_event}
use front_basicrum_go.Backup.Lines.{flatten_map, make_value}
use front_basicrum_go.Server.Http.{Request}
use front_basicrum_go.Server.Events.{created_at, new_event_from_request, apply_event_form_defaults}
use front_basicrum_go.It.{set_all, make_url_values}

-- Every name has one value, that of the map, or what it had before.
get-set_all :
    (m : List (Bytes × Bytes)) (acc : Values) (k : Bytes)
    → Distinct m
    → (get (set_all m acc) k ≡ elim (lookup k m) [ none ↦ get acc k | some v ↦ v ])
      × (has (set_all m acc) k ≡ elim (lookup k m) [ none ↦ has acc k | some v ↦ true ])
unfolding set_all lookup
get-set_all [] acc k d = (refl, refl)
get-set_all ((j, v) ∷ m) acc k (f, d) =
    let (g, h) = get-set_all m (set acc j v) k d in
    elim (Bool-cases (eqb j k)) [
      | inl e ↦
          let same : j ≡ k = (eqb_iff j k).0 e in
          let gone : lookup k m ≡ none = subst (λ i. lookup i m ≡ none) same (lookup-Fresh j m f) in
          (ground (arith, get-set acc j k v), ground (arith, has-set acc j k v))
      | inr e ↦ (ground (arith, get-set acc j k v), ground (arith, has-set acc j k v))
    ]

module _ (g : Bytes → Bytes) where
  abbrev named : List (Bytes × List Bytes) → List (Bytes × Bytes)
  named m = map (λ (e : Bytes × List Bytes). (e.0, g e.0)) m

  Fresh-named : (k : Bytes) (m : List (Bytes × List Bytes)) → Fresh k m → Fresh k (named m)
  Fresh-named k [] f = tt
  Fresh-named k ((j, vs) ∷ m) (f, fs) = (f, Fresh-named k m fs)

  Distinct-named : (m : List (Bytes × List Bytes)) → Distinct m → Distinct (named m)
  Distinct-named [] d = tt
  Distinct-named ((j, vs) ∷ m) (f, d) = (Fresh-named j m f, Distinct-named m d)

  lookup-named :
      (k : Bytes) (m : List (Bytes × List Bytes))
      → lookup k (named m) ≡ elim (lookup k m) [ none ↦ none | some vs ↦ some (g k) ]
  unfolding lookup
  lookup-named k [] = refl
  lookup-named k ((j, vs) ∷ m) = elim (Bool-cases (eqb j k)) [
    | inl e ↦ rw e (ap (λ i. some (g i)) ((eqb_iff j k).0 e))
    | inr e ↦ rw e (lookup-named k m)
  ]

-- What has no value and is not there, for a name that the map has not.
absent : (v : Values) (k : Bytes) → lookup k v ≡ none → (get v k ≡ []) × (has v k ≡ false)
unfolding get has
absent v k h = (ground arith, ground arith)

present : (v : Values) (k : Bytes) (vs : List Bytes) → lookup k v ≡ some vs → has v k ≡ true
unfolding has
present v k vs h = ground arith

-- The parameters that are made of the line of some parameters have the same values.
pub get-flatten_map :
    (v : Values) (k : Bytes)
    → Distinct v
    → (get (make_url_values (flatten_map v)) k ≡ get v k)
      × (has (make_url_values (flatten_map v)) k ≡ has v k)
unfolding make_url_values flatten_map
get-flatten_map v k d =
    let (g, h) = get-set_all (named (get v) v) [] k (Distinct-named (get v) v d) in
    let l = lookup-named (get v) k v in
    let (g₀, h₀) = absent [] k (empty k) in
    elim (Option-cases (lookup k v)) [
      | inl e ↦ let (g₁, h₁) = absent v k e in (ground arith, ground arith)
      | inr (vs, e) ↦ let p = present v k vs e in (ground arith, ground arith)
    ]
  where
    empty : (k : Bytes) → lookup {V = List Bytes} k [] ≡ none
    empty k = lookup-nil k

module _ (parse_map : Bytes → Option (List (Bytes × Bytes)))
    (marshal : List (Bytes × Bytes) → Bytes) where
  resent :
      (form : Values) (f : Event) (now : Bytes) (r : Request)
      → has form created_at ≡ true
      → r.form ≡ some form
      → new_event_from_request now r ≡ some f
      → f.request_parameters ≡ form
  unfolding new_event_from_request apply_event_form_defaults new_event
  resent form f now r timed at made = ground arith

  -- Where json.Unmarshal reads back what json.Marshal wrote, the sender reads the line of some
  -- parameters, and a form with what it read gives an event that has for every name the value that the
  -- parameters had, their time included, and the same beacon.
  pub new_event-make_value :
      (v : Values) (e f : Event) (now : Bytes) (r : Request)
      → parse_map (make_value marshal v) ≡ some (flatten_map v)
      → Distinct v
      → has v created_at ≡ true
      → e.request_parameters ≡ v
      → r.form ≡ Option.map make_url_values (parse_map (make_value marshal v))
      → new_event_from_request now r ≡ some f
      → ((k : Bytes) → get f.request_parameters k ≡ get v k) × (from_event f ≡ from_event e)
  unfolding make_value from_event
  new_event-make_value v e f now r law d timed p form made =
      let same = λ (k : Bytes). get-flatten_map v k d in
      let params : f.request_parameters ≡ make_url_values (flatten_map v) =
        resent (make_url_values (flatten_map v)) f now r ((same created_at).1 ∙ timed)
          (form ∙ ap (Option.map make_url_values) law) made in
      (
        λ k. ap (λ m. get m k) params ∙ (same k).0,
        ap (λ m. beacon_of (get m) (has m)) params
            ∙ ap₂ beacon_of (fun_ext (λ k. (same k).0)) (fun_ext (λ k. (same k).1))
            ∙ ap (λ m. beacon_of (get m) (has m)) (sym p),
      )
