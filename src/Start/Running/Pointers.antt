-- ===== src/Start/Running/Pointers.antt =====
-- A heap of events, and the list of servers, are changed at one place.
use front_basicrum_go.Base.{ℕ, zero, suc, List, [], ◌∷◌, ◌≡◌, refl, ap, length}

module _ {ℓ} {A : Type ℓ} where
  -- The value at a place is changed by `f`; out of range nothing happens.
  unfoldable pub modify : ℕ → (A → A) → List A → List A
  modify i f [] = []
  modify zero f (x ∷ xs) = f x ∷ xs
  modify (suc i) f (x ∷ xs) = x ∷ modify i f xs

  pub length-modify : (i : ℕ) (f : A → A) (xs : List A) → length (modify i f xs) ≡ length xs
  unfolding modify
  length-modify i f [] = refl
  length-modify zero f (x ∷ xs) = refl
  length-modify (suc i) f (x ∷ xs) = ap suc (length-modify i f xs)
