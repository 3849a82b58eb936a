-- ===== src/Testhelper/Tests.antt =====
-- A directory with a file, a compressed file and a directory of its own.
use front_basicrum_go.Base.{
  Bytes, List, [], ◌∷◌, Bool, true, false, Option, none, some, ◌≡◌, ◌↔◌, refl, codes, eqb, All,
  arith,
}
use front_basicrum_go.Testhelper.{
  Node, plain, folder, Dir, nothing, entry, find, put, AreTrees, at_path,
}
use front_basicrum_go.Testhelper.Copy.{Names, Disk, copy_node}
use front_basicrum_go.Testhelper.Copy.Overlay.{overlay, copy_node-overlay}
use front_basicrum_go.Testhelper.Equal.{do_assert_dir_equal, assert_dir_equal, read_all}
use front_basicrum_go.Testhelper.Equal.Seen.{IsKept, IsReadable, see}
use front_basicrum_go.Testhelper.Equal.Exact.{do_assert_dir_equal_iff}
use front_basicrum_go.Testhelper.RoundTrip.{assert_dir_equal-copy_node}

abbrev never : Names → Bool
never p = false

abbrev disk : Disk
disk = record {
  stat = never;
  make_dir = never;
  open_source = never;
  read_dir = never;
  create = never;
  copy = never;
  chmod = never;
  partial = λ s. s;
  created = 438;
  masked = λ mode. mode;
}

abbrev inner : Dir
inner = entry (codes "x") (plain 420 (codes "one")) nothing

abbrev source : Dir
source = entry (codes "a") (plain 420 (codes "two")) (entry (codes "d") (folder 493 inner) nothing)

abbrev same : Node
same = folder 493 source

copied : copy_node disk [] (folder 493 source) none ≡ (none, some same)
unfolding copy_node find put codes eqb
copied = refl

source-AreTrees : AreTrees source
unfolding find codes eqb
source-AreTrees = (refl, tt, (refl, (refl, tt, tt), tt))

copy_node-overlay_example :
    at_path (codes "d" ∷ codes "x" ∷ []) (some same)
    ≡ overlay
        (at_path (codes "d" ∷ codes "x" ∷ []) (some (folder 493 source)))
        (at_path (codes "d" ∷ codes "x" ∷ []) none)
copy_node-overlay_example =
    copy_node-overlay disk (folder 493 source) none (some same) source-AreTrees copied
      (codes "d" ∷ codes "x" ∷ [])

-- What stands for the two readers.
abbrev reader : Bytes → Option Bytes
reader s = some s

do_assert_dir_equal_iff_example : (do_assert_dir_equal reader reader source source ≡ true) ↔ (
    (n : Bytes) (p : List Bytes)
    → IsKept n
    → All IsKept p
    → (see reader reader n p (find n source) ≡ see reader reader n p (find n source))
      × IsReadable (see reader reader n p (find n source)))
do_assert_dir_equal_iff_example =
    do_assert_dir_equal_iff reader reader source source source-AreTrees source-AreTrees

always_read : (name s : Bytes) → (t : Bytes) × (read_all reader reader name s ≡ some t)
unfolding read_all
always_read name s = (s, ground arith)

readable : (n : Bytes) (p : List Bytes) (o : Option Node) → IsReadable (see reader reader n p o)
unfolding see
readable n p none = tt
readable n [] (some (plain m s)) = let (t, e) = always_read n s in rw e tt
readable n [] (some (folder m d)) = tt
readable n (k ∷ p) (some (plain m s)) = tt
readable n (k ∷ p) (some (folder m d)) = readable k p (find k d)

assert_dir_equal-copy_node_example : assert_dir_equal reader reader (folder 493 source) same ≡ true
assert_dir_equal-copy_node_example =
    assert_dir_equal-copy_node reader reader disk 493 source same source-AreTrees copied
      (λ n p k ks. readable n p (find n source))
