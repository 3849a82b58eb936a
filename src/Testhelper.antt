-- ===== src/Testhelper.antt =====
-- The package testhelper: files on disk are copied and compared. A file or a directory is a tree; the
-- name of an entry stands in its directory.
pub mod Copy
pub mod Equal
pub mod RoundTrip
mod Tests
use front_basicrum_go.Base.{
  ℕ, Bytes, List, [], ◌∷◌, ◌≡◌, Option, none, some, eqb, if◌then◌else◌, arith, eqb_iff, refl,
}

-- A file with its mode and its bytes, or a directory with its mode and its entries, in the order of
-- Readdir.
mutual
  pub data Node : Type 0 where
    plain : ℕ → Bytes → Node
    folder : ℕ → Dir → Node

  pub data Dir : Type 0 where
    nothing : Dir
    entry : Bytes → Node → Dir → Dir

unfoldable pub find : Bytes → Dir → Option Node
find name nothing = none
find name (entry n x rest) = if eqb n name then some x else find name rest

unfoldable pub put : Bytes → Node → Dir → Dir
put name y nothing = entry name y nothing
put name y (entry n x rest) = if eqb n name then entry name y rest else entry n x (put name y rest)

pub find-put :
    (name k : Bytes) (y : Node) (d : Dir)
    → find k (put name y d) ≡ (if eqb name k then some y else find k d)
unfolding find put
find-put name k y nothing = refl
find-put name k y (entry n x rest) =
    ground (arith, eqb_iff name k, eqb_iff n name, eqb_iff n k, find-put name k y rest)

-- The names in a directory are distinct, at every depth.
abbrev mutual
  pub IsTree : Node → Type 0
  IsTree (plain m s) = Unit
  IsTree (folder m d) = AreTrees d

  pub AreTrees : Dir → Type 0
  AreTrees nothing = Unit
  AreTrees (entry n x rest) = (find n rest ≡ none) × IsTree x × AreTrees rest

-- What is at a path: a file with its bytes, or a directory.
pub data View : Type 0 where
  bytes : Bytes → View
  directory : View

unfoldable pub at_path : List Bytes → Option Node → Option View
at_path p none = none
at_path [] (some (plain m s)) = some (bytes s)
at_path [] (some (folder m d)) = some directory
at_path (n ∷ p) (some (plain m s)) = none
at_path (n ∷ p) (some (folder m d)) = at_path p (find n d)
