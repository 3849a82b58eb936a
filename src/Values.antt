-- ===== src/Values.antt =====
-- url.Values of net/url, a map from a name to its list of values: `Get`, `Has`, `Set` and `Add`.
use front_basicrum_go.Base.{
  Bytes, List, [], ◌∷◌, ◌++◌, Bool, true, false, Option, none, some, ◌≡◌, eqb, eqb_iff, refl, inl,
  inr, Option-cases, if◌then◌else◌, arith,
}
use front_basicrum_go.Base.Assoc.{lookup, insert, lookup-insert}

abbrev pub Values : Type 0
Values = List (Bytes × List Bytes)

first : Option (List Bytes) → Bytes
first none = []
first (some []) = []
first (some (v ∷ vs)) = v

unfoldable pub get : Values → Bytes → Bytes
unfolding first
get m k = first (lookup k m)

unfoldable pub has : Values → Bytes → Bool
has m k = elim (lookup k m) [ none ↦ false | some vs ↦ true ]

unfoldable pub set : Values → Bytes → Bytes → Values
set m k v = insert k (v ∷ []) m

present : Option (List Bytes) → List Bytes
present none = []
present (some vs) = vs

unfoldable pub add : Values → Bytes → Bytes → Values
unfolding present
add m k v = insert k (present (lookup k m) ++ v ∷ []) m

module _ (m : Values) (k j v : Bytes) where
  pub get-set : get (set m k v) j ≡ (if eqb k j then v else get m j)
  unfolding get set
  get-set = ground (arith, lookup-insert k j (v ∷ []) m)

  pub has-set : has (set m k v) j ≡ (if eqb k j then true else has m j)
  unfolding has set
  has-set = ground (arith, lookup-insert k j (v ∷ []) m)

  pub has-add : has (add m k v) j ≡ (if eqb k j then true else has m j)
  unfolding has add
  has-add = ground (arith, lookup-insert k j (present (lookup k m) ++ v ∷ []) m)

  -- `Add` shows in `Get` only where the name had no value yet.
  pub get-add_ne : eqb k j ≡ false → get (add m k v) j ≡ get m j
  unfolding get add
  get-add_ne h = ground (arith, lookup-insert k j (present (lookup k m) ++ v ∷ []) m)

-- The name has a value at least.
abbrev pub HasValue : Bytes → Values → Type 0
HasValue k m = (x : Bytes) × (xs : List Bytes) × (lookup k m ≡ some (x ∷ xs))

module _ (m : Values) (k v : Bytes) where
  -- A further value of a name that has one does not show in `Get`.
  pub get-add_more : (j : Bytes) → HasValue k m → get (add m k v) j ≡ get m j
  unfolding get add
  get-add_more j (x, xs, h) =
      ground (arith, h, lookup-insert k j (present (lookup k m) ++ v ∷ []) m, eqb_iff k j)

  pub add-HasValue : HasValue k (add m k v)
  unfolding add
  add-HasValue = elim (Option-cases (lookup k m)) [
    | inl e ↦ (v, [], rw e (added []))
    | inr ([], e) ↦ (v, [], rw e (added []))
    | inr (x ∷ xs, e) ↦ (x, xs ++ v ∷ [], rw e (added (x ∷ xs)))
  ]
    where
      added : (vs : List Bytes) → lookup k (insert k (vs ++ v ∷ []) m) ≡ some (vs ++ v ∷ [])
      added vs = ground (arith, lookup-insert k k (vs ++ v ∷ []) m, eqb_iff k k)

  -- `Add` for a name that is there leaves the names as they are.
  pub add-insert : (xs : List Bytes) → lookup k m ≡ some xs → add m k v ≡ insert k (xs ++ v ∷ []) m
  unfolding add
  add-insert xs h = rw h refl
