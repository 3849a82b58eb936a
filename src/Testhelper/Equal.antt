-- ===== src/Testhelper/Equal.antt =====
-- testhelper/equal.go and testhelper/reader_factory.go: AssertDirEqual. A failed requirement ends the
-- test; the result says whether the test goes on. `gunzip` and `unzstd` read a compressed file to
-- its end, `none` where they fail.
pub mod Names
pub mod Seen
pub mod Exact
use front_basicrum_go.Base.{
  ℕ, Bytes, List, [], ◌∷◌, Bool, true, false, not, ◌&&◌, ◌||◌, Option, none, some, ◌≡◌, eqb,
  is_empty, codes, if◌then◌else◌,
}
use front_basicrum_go.Testhelper.{Node, plain, folder, Dir, nothing, entry, find}

-- strings.HasSuffix
unfoldable pub has_suffix : Bytes → Bytes → Bool
has_suffix suffix [] = is_empty suffix
has_suffix suffix (c ∷ s) = eqb suffix (c ∷ s) || has_suffix suffix s

unfoldable pub skip_file : Bytes → Bool
skip_file name = eqb name (codes ".gitkeep") || eqb name (codes ".git")

unfoldable pub is_file : Node → Bool
is_file (plain m s) = true
is_file (folder m d) = false

-- `collectFiles == isFile(fileInfo)`
is_collected : Bool → Node → Bool
unfolding is_file
is_collected true x = is_file x
is_collected false x = not (is_file x)

-- The keys of the map of collectNameMap.
unfoldable pub collect_name_map : Bool → Dir → List Bytes
unfolding is_collected
collect_name_map collect_files nothing = []
collect_name_map collect_files (entry n x rest) =
    let names = collect_name_map collect_files rest in
    if skip_file n then names else if is_collected collect_files x then n ∷ names else names

unfoldable pub has_name : Bytes → List Bytes → Bool
has_name n [] = false
has_name n (k ∷ names) = eqb k n || has_name n names

are_among : List Bytes → List Bytes → Bool
are_among [] names = true
are_among (n ∷ ns) names = has_name n names && are_among ns names

-- assertNamesAreTheSame: two maps with the same keys.
unfoldable pub assert_names_are_the_same : Bool → Dir → Dir → Bool
unfolding are_among
assert_names_are_the_same collect_files expected actual =
    let expected_names = collect_name_map collect_files expected in
    let actual_names = collect_name_map collect_files actual in
    are_among expected_names actual_names && are_among actual_names expected_names

module _ (gunzip unzstd : Bytes → Option Bytes) where
  -- What the reader of newReadCloser gives of a file, by its name.
  unfoldable pub new_read_closer : Bytes → Bytes → Option Bytes
  new_read_closer name content =
      if has_suffix (codes ".gz") name
      then gunzip content
      else if has_suffix (codes ".zst") name
      then unzstd content
      else some content

  -- readAll of a file that can be opened.
  unfoldable pub read_all : Bytes → Bytes → Option Bytes
  unfolding new_read_closer
  read_all name content = new_read_closer name content

  pub same_bytes : Option Bytes → Option Bytes → Bool
  same_bytes (some s) (some t) = eqb s t
  same_bytes (some s) none = false
  same_bytes none o = false

  unfoldable pub assert_file_content_is_the_same : Bytes → Bytes → Bytes → Bool
  unfolding same_bytes
  assert_file_content_is_the_same name expected actual =
      same_bytes (read_all name expected) (read_all name actual)

  unfoldable mutual
    -- An entry of a directory whose names are those of the other: a file has the same content, and a
    -- directory is compared by doAssertDirEqual.
    pub assert_node : Bytes → Node → Option Node → Bool
    assert_node name (plain m s) none = false
    assert_node name (plain m s) (some (plain k t)) = assert_file_content_is_the_same name s t
    assert_node name (plain m s) (some (folder k d)) = false
    assert_node name (folder m d) none = false
    assert_node name (folder m d) (some (plain k t)) = false
    assert_node name (folder m d) (some (folder k a)) =
        assert_names_are_the_same true d a
        && (assert_names_are_the_same false d a && assert_entries d a)

    -- The two loops of doAssertDirEqual, over the files and over the directories.
    pub assert_entries : Dir → Dir → Bool
    assert_entries nothing a = true
    assert_entries (entry n x rest) a =
        (skip_file n || assert_node n x (find n a)) && assert_entries rest a

  unfoldable pub do_assert_dir_equal : Dir → Dir → Bool
  do_assert_dir_equal expected actual =
      assert_names_are_the_same true expected actual
      && (assert_names_are_the_same false expected actual && assert_entries expected actual)

  -- AssertDirEqual; ReadDir of a file fails.
  unfoldable pub assert_dir_equal : Node → Node → Bool
  assert_dir_equal (plain m s) y = false
  assert_dir_equal (folder m d) (plain k t) = false
  assert_dir_equal (folder m d) (folder k a) = do_assert_dir_equal d a
