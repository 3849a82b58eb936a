-- ===== src/Base/Assoc.antt =====
-- A Go map with string keys is an association list; an absent key is `none`. An assignment keeps the
-- place of a key that is there, so a list that starts with distinct keys keeps them distinct.
use front_basicrum_go.Base.Tests.{if◌then◌else◌, Bool-cases}
use front_basicrum_go.Base.Text.{Bytes, eqb, eqb_iff}
use mathlib.Core.Path.{◌≡◌, refl}
use mathlib.Core.Bool.{false}
use mathlib.Core.Logic.{inl, inr}
use mathlib.Core.List.{List, [], ◌∷◌}
use mathlib.Core.Option.{Option, none, some}
use native.Mathlib.Omega.{arith}

module _ {ℓ} {V : Type ℓ} where
  unfoldable pub lookup : Bytes → List (Bytes × V) → Option V
  lookup k [] = none
  lookup k ((j, v) ∷ m) = if eqb j k then some v else lookup k m

  unfoldable pub insert : Bytes → V → List (Bytes × V) → List (Bytes × V)
  insert k v [] = (k, v) ∷ []
  insert k v ((j, w) ∷ m) = if eqb j k then (k, v) ∷ m else (j, w) ∷ insert k v m

  pub lookup-insert :
      (k j : Bytes) (v : V) (m : List (Bytes × V))
      → lookup j (insert k v m) ≡ (if eqb k j then some v else lookup j m)
  unfolding lookup insert
  lookup-insert k j v [] = refl
  lookup-insert k j v ((i, w) ∷ m) =
      ground (arith, eqb_iff k j, eqb_iff i k, eqb_iff i j, lookup-insert k j v m)

  -- No key of the list is `k`.
  abbrev pub Fresh : Bytes → List (Bytes × V) → Type 0
  Fresh k [] = Unit
  Fresh k ((j, v) ∷ m) = (eqb j k ≡ false) × Fresh k m

  -- The keys are distinct.
  abbrev pub Distinct : List (Bytes × V) → Type 0
  Distinct [] = Unit
  Distinct ((j, v) ∷ m) = Fresh j m × Distinct m

  Fresh-insert :
      (i k : Bytes) (v : V) (m : List (Bytes × V))
      → eqb k i ≡ false
      → Fresh i m
      → Fresh i (insert k v m)
  unfolding insert
  Fresh-insert i k v [] h f = (h, tt)
  Fresh-insert i k v ((j, w) ∷ m) h (f, fs) = elim (Bool-cases (eqb j k)) [
    | inl e ↦ rw e (h, fs)
    | inr e ↦ rw e (f, Fresh-insert i k v m h fs)
  ]

  pub insert-Distinct :
      (k : Bytes) (v : V) (m : List (Bytes × V)) → Distinct m → Distinct (insert k v m)
  unfolding insert
  insert-Distinct k v [] d = (tt, tt)
  insert-Distinct k v ((j, w) ∷ m) (f, d) = elim (Bool-cases (eqb j k)) [
    | inl e ↦ rw e (rw (← (eqb_iff j k).0 e) f, d)
    | inr e ↦
        rw e (
          Fresh-insert j k v m (ground (arith, eqb_iff j k, eqb_iff k j)) f,
          insert-Distinct k v m d,
        )
  ]

  -- The built-in `delete`, of every entry of the key.
  unfoldable pub erase : Bytes → List (Bytes × V) → List (Bytes × V)
  erase k [] = []
  erase k ((j, v) ∷ m) = let rest = erase k m in if eqb j k then rest else (j, v) ∷ rest

  pub lookup-erase :
      (k j : Bytes) (m : List (Bytes × V))
      → lookup j (erase k m) ≡ (if eqb k j then none else lookup j m)
  unfolding lookup erase
  lookup-erase k j [] = ground arith
  lookup-erase k j ((i, w) ∷ m) =
      ground (arith, lookup-erase k j m, eqb_iff i k, eqb_iff i j, eqb_iff k j)

  pub lookup-nil : (k : Bytes) → lookup k [] ≡ none
  unfolding lookup
  lookup-nil k = refl

  pub lookup-Fresh : (k : Bytes) (m : List (Bytes × V)) → Fresh k m → lookup k m ≡ none
  unfolding lookup
  lookup-Fresh k [] f = refl
  lookup-Fresh k ((j, v) ∷ m) (f, fs) = rw f (lookup-Fresh k m fs)

  pub lookup-cons :
      (k j : Bytes) (v : V) (m : List (Bytes × V))
      → lookup j ((k, v) ∷ m) ≡ (if eqb k j then some v else lookup j m)
  unfolding lookup
  lookup-cons k j v m = refl
