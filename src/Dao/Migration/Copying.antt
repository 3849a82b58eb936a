-- ===== src/Dao/Migration/Copying.antt =====
-- Copying the templates: the loop of copyFile ends, and what the directory then holds.
use front_basicrum_go.Base.{
  ℕ, zero, suc, ◌+◌, ◌<◌, ◌≤◌, Bytes, List, [], ◌∷◌, ◌++◌, append_assoc, append-nil, Bool, true,
  false, ◌&&◌, ◌||◌, Option, none, some, ◌≡◌, ◌∙◌, ap, refl, arith, eqb, eqb_iff, length, take,
  drop, if◌then◌else◌, inl, inr, Option-cases, Bool-cases, not,
}
use front_basicrum_go.Base.Assoc.{lookup, insert, lookup-insert}
use front_basicrum_go.Dao.Migration.{
  Files, Entry, Faults, no_faults, Error, table_prefix_placeholder, replace_all, Copied, copied,
  out_of_fuel, copy_loop, copy_file, finish_copy, replace_text_in_file, replace_prefix, with_prefix,
  content_of, process_migration_file, visit, copy_migrations,
}

take-drop : (n : ℕ) (s : Bytes) → take n s ++ drop n s ≡ s
take-drop zero s = refl
take-drop (suc n) [] = refl
take-drop (suc n) (c ∷ s) = ap (λ t. c ∷ t) (take-drop n s)

length-drop : (n : ℕ) (s : Bytes) → length (drop n s) ≤ length s
length-drop zero s = omega arith
length-drop (suc n) [] = omega arith
length-drop (suc n) (c ∷ s) = ground (arith, length-drop n s)

is_out : Copied → Bool
is_out out_of_fuel = true
is_out (copied e s) = false

module _ (faults : Faults) (path : Bytes) where
  copy_loop_ends :
      (fuel round : ℕ) (rest written : Bytes)
      → length rest < fuel
      → is_out (copy_loop faults fuel round path rest written) ≡ false
  unfolding copy_loop is_out
  copy_loop_ends zero round rest written h = absurd (omega arith)
  copy_loop_ends (suc fuel) round [] written h = ground arith
  copy_loop_ends (suc fuel) round (c ∷ s) written h =
      let bound = length-drop 1023 s in
      ground (
        arith,
        copy_loop_ends fuel (round + 1) (drop 1023 s) (written ++ c ∷ take 1023 s) (omega arith),
      )

copy_loop_all :
    (path : Bytes) (fuel round : ℕ) (rest written : Bytes)
    → length rest < fuel
    → copy_loop no_faults fuel round path rest written ≡ copied none (written ++ rest)
unfolding copy_loop
copy_loop_all path zero round rest written h = absurd (omega arith)
copy_loop_all path (suc fuel) round [] written h = ground (arith, append-nil written)
copy_loop_all path (suc fuel) round (c ∷ s) written h =
    let bound = length-drop 1023 s in
    copy_loop_all path fuel (round + 1) (drop 1023 s) (written ++ c ∷ take 1023 s) (omega arith)
    ∙ ap (copied none) (
        append_assoc written (c ∷ take 1023 s) (drop 1023 s)
        ∙ ap (λ t. written ++ c ∷ t) (take-drop 1023 s))

-- What the file of a path holds once the entries were visited, from what it held before: the latest
-- template of the path, with the prefix for the placeholder.
unfoldable pub rendered : Bytes → Bytes → List Entry → Option Bytes → Option Bytes
rendered prefix path [] before = before
rendered prefix path (entry ∷ rest) before = rendered prefix path rest (
    if not entry.is_dir && eqb entry.path path
    then some (replace_all entry.content table_prefix_placeholder prefix)
    else before)

-- WalkDir reports no error, and all that is no directory is a regular file.
abbrev pub AreFine : List Entry → Type 0
AreFine [] = Unit
AreFine (entry ∷ rest) =
    (entry.error ≡ none) × ((entry.is_dir || entry.is_regular) ≡ true) × AreFine rest

visit_fine :
    (prefix : Bytes) (entry : Entry) (files : Files)
    → entry.error ≡ none
    → (entry.is_dir || entry.is_regular) ≡ true
    → (files' : Files) × (visit no_faults prefix entry files ≡ some (none, files'))
      × ((path : Bytes)
          → lookup path files' ≡ (
              if not entry.is_dir && eqb entry.path path
              then some (replace_all entry.content table_prefix_placeholder prefix)
              else lookup path files))
unfolding visit process_migration_file with_prefix replace_prefix replace_text_in_file content_of
    copy_file finish_copy
visit_fine prefix entry files e r = elim (Bool-cases entry.is_dir) [
  | inl d ↦ (files, ground arith, λ path. ground arith)
  | inr d ↦
      let whole =
        copy_loop_all entry.path (suc (length entry.content)) 0 entry.content [] (omega arith) in
      let made = insert entry.path entry.content files in
      let text = replace_all entry.content table_prefix_placeholder prefix in
      (
        insert entry.path text made,
        ground (
          arith,
          whole,
          lookup-insert entry.path entry.path entry.content files,
          eqb_iff entry.path entry.path,
        ),
        λ path. ground (
          arith,
          lookup-insert entry.path path text made,
          lookup-insert entry.path path entry.content files,
        ),
      )
]

-- With no failing call, copying ends with no error, and each file of the temporary directory then holds
-- the latest template of its path with the prefix for the placeholder.
pub copy_migrations-rendered :
    (prefix : Bytes) (entries : List Entry) (files : Files)
    → AreFine entries
    → (files' : Files) × (copy_migrations no_faults prefix entries files ≡ some (none, files'))
      × ((path : Bytes) → lookup path files' ≡ rendered prefix path entries (lookup path files))
unfolding copy_migrations rendered
copy_migrations-rendered prefix [] files h = (files, refl, λ path. refl)
copy_migrations-rendered prefix (entry ∷ rest) files (e, r, hs) =
    let (files₁, v, l₁) = visit_fine prefix entry files e r in
    let (files₂, c, l₂) = copy_migrations-rendered prefix rest files₁ hs in
    (files₂, ground (arith, v, c), λ path. l₂ path ∙ ap (rendered prefix path rest) (l₁ path))

visit_ends :
    (faults : Faults) (prefix : Bytes) (entry : Entry) (files : Files)
    → (r : Option Error × Files) × (visit faults prefix entry files ≡ some r)
unfolding visit process_migration_file with_prefix copy_file finish_copy is_out
visit_ends faults prefix entry files =
    let ends =
      copy_loop_ends faults entry.path (suc (length entry.content)) 0 entry.content []
        (omega arith) in
    elim (Option-cases (visit faults prefix entry files)) [
      | inl n ↦ absurd (ground arith)
      | inr (r, e) ↦ (r, e)
    ]

-- Whatever calls fail, copying the templates ends.
pub copy_migrations_ends :
    (faults : Faults) (prefix : Bytes) (entries : List Entry) (files : Files)
    → (r : Option Error × Files) × (copy_migrations faults prefix entries files ≡ some r)
unfolding copy_migrations
copy_migrations_ends faults prefix [] files = ((none, files), refl)
copy_migrations_ends faults prefix (entry ∷ rest) files =
    let ((e, files₁), v) = visit_ends faults prefix entry files in
    let (r, c) = copy_migrations_ends faults prefix rest files₁ in
    elim (Option-cases e) [
      | inl n ↦ (r, ground arith)
      | inr (x, s) ↦ ((some x, files₁), ground arith)
    ]
