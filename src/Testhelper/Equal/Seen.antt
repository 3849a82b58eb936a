-- ===== src/Testhelper/Equal/Seen.antt =====
-- What can be seen in a directory, path by path.
use front_basicrum_go.Base.{
  Bytes, List, [], ◌∷◌, Bool, true, false, not, Option, none, some, ◌≡◌, ◌↔◌, ◌∙◌, refl, sym, ap,
  arith, eqb, eqb_iff, Bool-cases, Option-cases, inl, inr, All,
}
use mathlib.Core.Path.{subst}
use front_basicrum_go.Testhelper.{Node, plain, folder, Dir, nothing, entry, find, IsTree, AreTrees}
use front_basicrum_go.Testhelper.Equal.{
  skip_file, is_file, is_collected, read_all, same_bytes, assert_names_are_the_same,
}
use front_basicrum_go.Testhelper.Equal.Names.{kind, same_names_iff, same_kind}

pub data Seen : Type 0 where
  content : Option Bytes → Seen
  a_directory : Seen

abbrev pub IsKept : Bytes → Type 0
IsKept n = skip_file n ≡ false

abbrev pub IsReadable : Option Seen → Type 0
IsReadable none = Unit
IsReadable (some a_directory) = Unit
IsReadable (some (content none)) = ⊥
IsReadable (some (content (some s))) = Unit

abbrev pub IsTree? : Option Node → Type 0
IsTree? none = Unit
IsTree? (some x) = IsTree x

pub find-IsTree? : (n : Bytes) (d : Dir) → AreTrees d → IsTree? (find n d)
unfolding find
find-IsTree? n nothing t = tt
find-IsTree? n (entry m x rest) (new, t, ts) = elim (Bool-cases (eqb m n)) [
  | inl e ↦ rw e t
  | inr e ↦ rw e (find-IsTree? n rest ts)
]

pub same_bytes_iff :
    (gunzip unzstd : Bytes → Option Bytes) (x y : Option Bytes)
    → (same_bytes gunzip unzstd x y ≡ true)
      ↔ (◌≡◌ {A = Option Seen} (some (content x)) (some (content y)))
        × IsReadable (some (content x))
unfolding same_bytes
same_bytes_iff gunzip unzstd (some s) (some t) =
    (λ h. (ground (arith, eqb_iff s t), tt), λ (h, _). (eqb_iff s t).1 (ground arith))
same_bytes_iff gunzip unzstd (some s) none =
    (λ h. absurd (ground arith), λ (h, _). absurd (ground arith))
same_bytes_iff gunzip unzstd none y = (λ h. absurd (ground arith), λ (_, h). elim h [ ])

module _ (gunzip unzstd : Bytes → Option Bytes) where
  -- What is at the path below an entry of the name `n`: a file as it is read, or a directory.
  unfoldable pub see : Bytes → List Bytes → Option Node → Option Seen
  see n p none = none
  see n [] (some (plain m s)) = some (content (read_all gunzip unzstd n s))
  see n [] (some (folder m d)) = some a_directory
  see n (k ∷ p) (some (plain m s)) = none
  see n (k ∷ p) (some (folder m d)) = see k p (find k d)

  -- At every path without a skipped name the same can be seen, and every file can be read.
  abbrev pub LookAlike : Bytes → Option Node → Option Node → Type 0
  LookAlike n x o =
      (p : List Bytes) → All IsKept p → (see n p x ≡ see n p o) × IsReadable (see n p x)

  abbrev pub DirsLookAlike : Dir → Dir → Type 0
  DirsLookAlike e a = (n : Bytes) → IsKept n → LookAlike n (find n e) (find n a)

  missing_of_kind :
      (n : Bytes) (o : Option Node)
      → kind true o ≡ false
      → kind false o ≡ false
      → LookAlike n none o
  unfolding kind is_collected is_file see
  missing_of_kind n none f d p k = (refl, tt)
  missing_of_kind n (some (plain m s)) f d p k = absurd (ground arith)
  missing_of_kind n (some (folder m a)) f d p k = absurd (ground arith)

  -- Where the names are the same it is enough that the entries that are there look alike.
  pub dirs_of_entries :
      (e a : Dir)
      → AreTrees e
      → AreTrees a
      → assert_names_are_the_same true e a ≡ true
      → assert_names_are_the_same false e a ≡ true
      → ((n : Bytes) (x : Node) → IsKept n → find n e ≡ some x → LookAlike n (some x) (find n a))
      → DirsLookAlike e a
  unfolding kind
  dirs_of_entries e a te ta files dirs h n k = elim (Option-cases (find n e)) [
    | inl none_there ↦
        let (f, d) = same_kind e a n te ta files dirs k in
        rw none_there (missing_of_kind n (find n a) (ground arith) (ground arith))
    | inr (x, there) ↦ rw there (h n x k there)
  ]

  kind_seen : Bool → Option Seen → Bool
  kind_seen b none = false
  kind_seen b (some (content o)) = b
  kind_seen b (some a_directory) = not b

  kind-see : (n : Bytes) (b : Bool) (x : Option Node) → kind b x ≡ kind_seen b (see n [] x)
  unfolding kind is_collected is_file kind_seen see
  kind-see n b none = refl
  kind-see n true (some (plain m s)) = refl
  kind-see n false (some (plain m s)) = refl
  kind-see n true (some (folder m d)) = refl
  kind-see n false (some (folder m d)) = refl

  kind_of_see :
      (n : Bytes) (b : Bool) (x y : Option Node) → see n [] x ≡ see n [] y → kind b x ≡ kind b y
  kind_of_see n b x y h = kind-see n b x ∙ ap (kind_seen b) h ∙ sym (kind-see n b y)

  pub find_rest :
      (m n : Bytes) (y x : Node) (rest : Dir)
      → find m rest ≡ none
      → find n rest ≡ some x
      → find n (entry m y rest) ≡ some x
  unfolding find
  find_rest m n y x rest new there = elim (Bool-cases (eqb m n)) [
    | inl e ↦
        let gone : find n rest ≡ none = subst (λ k. find k rest ≡ none) ((eqb_iff m n).0 e) new in
        cc
    | inr e ↦ rw e there
  ]

  -- The names are the same where the entries look alike.
  pub names_complete :
      (b : Bool) (e a : Dir)
      → AreTrees e
      → AreTrees a
      → DirsLookAlike e a
      → assert_names_are_the_same b e a ≡ true
  names_complete b e a te ta h = (same_names_iff b e a te ta).1 λ n.
      elim (Bool-cases (skip_file n)) [
        | inl skipped ↦ rw skipped refl
        | inr kept ↦ rw kept (kind_of_see n b (find n e) (find n a) (h n kept [] tt).0)
      ]
