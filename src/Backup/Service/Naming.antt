-- ===== src/Backup/Service/Naming.antt =====
-- The hosts under which makeBackupList groups the requests of a batch.
use front_basicrum_go.Base.{
  Bytes, List, [], ◌∷◌, ◌++◌, false, Option, some, ◌≡◌, ◌∙◌, refl, ap, arith, All, Bool-cases, inl,
  inr, codes, eqb, is_empty,
}
use front_basicrum_go.Base.Assoc.{insert}
use front_basicrum_go.Base.Outcome.{returns, ◌>>=◌}
use front_basicrum_go.Values.{Values, get}
use front_basicrum_go.Backup.Lines.{
  Param, values, other, replace_dots, append_line, make_key_hostname, make_value, backup_item,
  backup_items,
}

-- Every host has a name.
abbrev pub IsNamed : List (Bytes × Bytes) → Type 0
IsNamed [] = Unit
IsNamed ((host, lines) ∷ rest) = (is_empty host ≡ false) × IsNamed rest

pub All-append :
    {A : Type 0} (P : A → Type 0) (ps qs : List A) → All P (ps ++ qs) → All P ps × All P qs
All-append P [] qs h = (tt, h)
All-append P (p ∷ ps) qs (h, hs) = let (a, b) = All-append P ps qs hs in ((h, a), b)

IsNamed-insert :
    (k x : Bytes) (m : List (Bytes × Bytes))
    → is_empty k ≡ false
    → IsNamed m
    → IsNamed (insert k x m)
unfolding insert
IsNamed-insert k x [] h n = (h, tt)
IsNamed-insert k x ((j, y) ∷ m) h (n, ns) = elim (Bool-cases (eqb j k)) [
  | inl e ↦ rw e (h, ns)
  | inr e ↦ rw e (n, IsNamed-insert k x m h ns)
]

replace_dots-is_empty : (s : Bytes) → is_empty (replace_dots s) ≡ is_empty s
unfolding replace_dots
replace_dots-is_empty [] = refl
replace_dots-is_empty (c ∷ s) = refl

module _ (parse_url : Bytes → Option Bytes) where
  -- The parameter `u` of a request is a URL with a host.
  abbrev pub HasHost : Values → Type 0
  HasHost v = (host : Bytes) × (parse_url (get v (codes "u")) ≡ some host) × (is_empty host ≡ false)

  abbrev pub HasHostParam : Param → Type 0
  HasHostParam other = Unit
  HasHostParam (values v) = HasHost v

  module _ (marshal : List (Bytes × Bytes) → Bytes) where
    backup_item-values :
        (m : List (Bytes × Bytes)) (v : Values) (host : Bytes)
        → parse_url (get v (codes "u")) ≡ some host
        → backup_item parse_url marshal m (values v)
          ≡ returns (append_line m (replace_dots host) (make_value marshal v))
    unfolding backup_item make_key_hostname
    backup_item-values m v host e = ground arith

    backup_item-other :
        (m : List (Bytes × Bytes)) → backup_item parse_url marshal m other ≡ returns m
    unfolding backup_item
    backup_item-other m = refl

    -- Where every request has a host the batch is grouped, under names that are not empty.
    pub backup_items-IsNamed :
        (ps : List Param) (m : List (Bytes × Bytes))
        → All HasHostParam ps
        → IsNamed m
        → (m' : List (Bytes × Bytes)) × (backup_items parse_url marshal m ps ≡ returns m')
          × IsNamed m'
    unfolding backup_items append_line
    backup_items-IsNamed [] m h n = (m, refl, n)
    backup_items-IsNamed (other ∷ ps) m (h, hs) n =
        let (m', grouped, names) = backup_items-IsNamed ps m hs n in
        (
          m',
          ap (λ o. o >>= λ m₁. backup_items parse_url marshal m₁ ps) (backup_item-other m)
              ∙ grouped,
          names,
        )
    backup_items-IsNamed (values v ∷ ps) m ((host, e, named), hs) n =
        let key = replace_dots host in
        let (m', grouped, names) =
          backup_items-IsNamed ps (append_line m key (make_value marshal v)) hs
            (IsNamed-insert key _ m (replace_dots-is_empty host ∙ named) n) in
        (
          m',
          ap (λ o. o >>= λ m₁. backup_items parse_url marshal m₁ ps) (backup_item-values m v host e)
              ∙ grouped,
          names,
        )
