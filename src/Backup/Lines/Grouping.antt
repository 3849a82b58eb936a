-- ===== src/Backup/Lines/Grouping.antt =====
-- makeBackupList: each host gets the lines of its own requests, in their order, one for each.
use front_basicrum_go.Base.{
  ℕ, ◌+◌, Bytes, List, [], ◌∷◌, ◌++◌, append_assoc, append-nil, Bool, true, false, Option, none,
  some, ◌≡◌, ◌∙◌, sym, ap, refl, arith, eqb, eqb_iff, if◌then◌else◌, count, count-append,
  Option-cases, inl, inr, ◌↔◌, ◌||◌, codes,
}
use front_basicrum_go.Base.Assoc.{lookup, insert, lookup-insert, Distinct, insert-Distinct}
use front_basicrum_go.Base.Outcome.{returns, panics, Outcome-cases, returns-injective}
use front_basicrum_go.Values.{get}
use mathlib.Core.Path.{subst}
use front_basicrum_go.Backup.Lines.{
  Param, values, other, text_of, replace_dots, append_line, make_key_hostname, make_value,
  flatten_map, backup_item, backup_items, make_backup_list,
}

lookup-append_line :
    (m : List (Bytes × Bytes)) (key host value : Bytes)
    → text_of (lookup host (append_line m key value))
      ≡ text_of (lookup host m) ++ (if eqb key host then value ++ 10 ∷ [] else [])
unfolding append_line
lookup-append_line m key host value =
    let l = text_of (lookup key m) ++ (value ++ 10 ∷ []) in
    ground
      (arith, lookup-insert key host l m, eqb_iff key host, append-nil (text_of (lookup host m)))

module _ (parse_url : Bytes → Option Bytes) (marshal : List (Bytes × Bytes) → Bytes) where
  -- The line of a request, if it is one of the host.
  unfoldable pub line_for : Bytes → Param → Bytes
  line_for host other = []
  line_for host (values v) = elim (make_key_hostname parse_url v) [
    | panics ↦ []
    | returns key ↦ if eqb key host then make_value marshal v ++ 10 ∷ [] else []
  ]

  -- The lines of the host's requests, in order.
  unfoldable pub lines_for : Bytes → List Param → Bytes
  lines_for host [] = []
  lines_for host (p ∷ ps) = line_for host p ++ lines_for host ps

  -- How many requests are of the host.
  unfoldable pub requests_for : Bytes → List Param → ℕ
  requests_for host [] = 0
  requests_for host (other ∷ ps) = requests_for host ps
  requests_for host (values v ∷ ps) =
      let rest = requests_for host ps in
      elim (make_key_hostname parse_url v) [
        | panics ↦ rest
        | returns key ↦ if eqb key host then rest + 1 else rest
      ]

  item_text :
      (m m' : List (Bytes × Bytes)) (p : Param) (host : Bytes)
      → backup_item parse_url marshal m p ≡ returns m'
      → text_of (lookup host m') ≡ text_of (lookup host m) ++ line_for host p
  unfolding backup_item line_for
  item_text m m' other host h = ground (arith, append-nil (text_of (lookup host m)))
  item_text m m' (values v) host h = elim (Outcome-cases (make_key_hostname parse_url v)) [
    | inl (key, e) ↦ ground (
      arith,
      lookup-append_line m key host (make_value marshal v),
      append-nil (text_of (lookup host m)),
    )
    | inr e ↦ ground arith
  ]

  item-Distinct :
      (m m' : List (Bytes × Bytes)) (p : Param)
      → backup_item parse_url marshal m p ≡ returns m'
      → Distinct m
      → Distinct m'
  unfolding backup_item append_line
  item-Distinct m m' other h d = subst Distinct (returns-injective h) d
  item-Distinct m m' (values v) h d = elim (Outcome-cases (make_key_hostname parse_url v)) [
    | inl (key, e) ↦
        let l = text_of (lookup key m) ++ (make_value marshal v ++ 10 ∷ []) in
        let q : insert key l m ≡ m' = ground arith in subst Distinct q (insert-Distinct key l m d)
    | inr e ↦ let no_result : ⊥ = ground arith in absurd no_result
  ]

  items_text :
      (ps : List Param) (m m' : List (Bytes × Bytes))
      → backup_items parse_url marshal m ps ≡ returns m'
      → Distinct m
      → Distinct m'
        × ((host : Bytes) → text_of (lookup host m') ≡ text_of (lookup host m) ++ lines_for host ps)
  unfolding backup_items lines_for
  items_text [] m m' h d =
      let q = returns-injective h in
      (
        subst Distinct q d,
        λ host.
            ap (λ x. text_of (lookup host x)) (sym q) ∙ sym (append-nil (text_of (lookup host m))),
      )
  items_text (p ∷ ps) m m' h d = elim (Outcome-cases (backup_item parse_url marshal m p)) [
    | inl (m₁, e) ↦
        let (d', t) = items_text ps m₁ m' (ground arith) (item-Distinct m m₁ p e d) in
        (
          d',
          λ host.
              t host
              ∙ ap (λ s. s ++ lines_for host ps) (item_text m m₁ p host e)
              ∙ append_assoc (text_of (lookup host m)) (line_for host p) (lines_for host ps),
        )
    | inr e ↦ let no_result : ⊥ = ground arith in absurd no_result
  ]

  -- Where the grouping of a batch does not panic, its keys are distinct, and under each host stand
  -- the lines of the requests of that host, one behind the other in the order of the batch.
  pub make_backup_list-lines :
      (ps : List Param) (m : List (Bytes × Bytes))
      → make_backup_list parse_url marshal ps ≡ returns m
      → Distinct m × ((host : Bytes) → text_of (lookup host m) ≡ lines_for host ps)
  unfolding make_backup_list lookup
  make_backup_list-lines ps m h = items_text ps [] m h tt

  count-lines_for :
      (ps : List Param) (host : Bytes)
      → ((kv : List (Bytes × Bytes)) → count 10 (marshal kv) ≡ 0)
      → count 10 (lines_for host ps) ≡ requests_for host ps
  unfolding lines_for line_for requests_for make_value
  count-lines_for [] host h = refl
  count-lines_for (other ∷ ps) host h = count-lines_for ps host h
  count-lines_for (values v ∷ ps) host h =
      let line = make_value marshal v in
      let rest = lines_for host ps in
      ground (
        arith,
        count-lines_for ps host h,
        h (flatten_map v),
        count-append 10 line (10 ∷ []),
        count-append 10 (line ++ 10 ∷ []) rest,
      )

  -- Where the grouping of a batch does not panic and json.Marshal writes no line break, a host has
  -- as many lines as the batch has requests of the host.
  pub make_backup_list-count :
      (ps : List Param) (m : List (Bytes × Bytes)) (host : Bytes)
      → ((kv : List (Bytes × Bytes)) → count 10 (marshal kv) ≡ 0)
      → make_backup_list parse_url marshal ps ≡ returns m
      → count 10 (text_of (lookup host m)) ≡ requests_for host ps
  make_backup_list-count ps m host h e =
      ap (count 10) ((make_backup_list-lines ps m e).1 host) ∙ count-lines_for ps host h

  -- A request whose parameter `u` is no URL.
  abbrev pub is_bad : Param → Bool
  is_bad other = false
  is_bad (values v) = elim (parse_url (get v (codes "u"))) [ none ↦ true | some host ↦ false ]

  abbrev pub any_bad : List Param → Bool
  any_bad [] = false
  any_bad (p ∷ ps) = is_bad p || any_bad ps

  items_panic :
      (ps : List Param) (m : List (Bytes × Bytes))
      → (backup_items parse_url marshal m ps ≡ panics) ↔ (any_bad ps ≡ true)
  unfolding backup_items backup_item make_key_hostname
  items_panic [] m = (λ h. ground arith, λ h. ground arith)
  items_panic (other ∷ ps) m = items_panic ps m
  items_panic (values v ∷ ps) m = elim (Option-cases (parse_url (get v (codes "u")))) [
    | inl e ↦ (λ h. ground arith, λ h. ground arith)
    | inr (host, e) ↦
        let ih = items_panic ps (append_line m (replace_dots host) (make_value marshal v)) in
        (λ h. ground (arith, ih), λ h. ground (arith, ih))
  ]

  -- A batch panics exactly when one of its requests has a parameter `u` that is no URL.
  pub make_backup_list-panics :
      (ps : List Param) → (make_backup_list parse_url marshal ps ≡ panics) ↔ (any_bad ps ≡ true)
  unfolding make_backup_list
  make_backup_list-panics ps = items_panic ps []
