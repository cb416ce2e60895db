-- ===== src/Compare/Run/Missing.antt =====
-- The rows and the counters of `recordMissing` of src/Comparison/FileComparator.cpp.
use mathlib.Core.List.{append_assoc}
use check_sync_files.Common.{
  append-nil, ℕ, ◌+◌, ◌%◌, ◌≡◌, ◌∙◌, sym, ap, refl, Bool, true, false, ◌&&◌, not, List, [], ◌∷◌,
  ◌++◌, map, arith, if◌then◌else◌, any, select, Bool-cases, inl, inr, u64_mod,
}
use check_sync_files.Text.{WString, backslash, starts_with, ltw, insert_sorted, sort_strings}
use check_sync_files.Text.Order.{Sorted, sort_strings-Sorted}
use check_sync_files.Path.Laws.{has_descendant-any}
use check_sync_files.Map.{Map, total}
use check_sync_files.Entry.{FileEntry}
use check_sync_files.Index.{FileIndex}
use check_sync_files.Index.Laws.{file_weight, dir_weight}
use check_sync_files.Result.{FileResult}
use check_sync_files.Compare.{Matched}
use check_sync_files.Compare.Run.{
  insert_item, sort_items, missing_file, missing_file_row, missing_files_loop, missing_dir,
  missing_dir_row, missing_dirs_loop, record_missing,
}

keys-insert_item :
    (x : WString × FileEntry) (items : Map FileEntry)
    → map (λ y. y.0) (insert_item x items) ≡ insert_sorted x.0 (map (λ y. y.0) items)
unfolding insert_item insert_sorted
keys-insert_item x [] = refl
keys-insert_item x (y ∷ items) = elim (Bool-cases (ltw y.0 x.0)) [
  | inl e ↦ rw e (ap (λ ks. y.0 ∷ ks) (keys-insert_item x items))
  | inr e ↦ rw e refl
]

keys-sort_items :
    (m : Map FileEntry) → map (λ y. y.0) (sort_items m) ≡ sort_strings (map (λ y. y.0) m)
unfolding sort_items sort_strings
keys-sort_items [] = refl
keys-sort_items (x ∷ m) =
    keys-insert_item x (sort_items m) ∙ ap (insert_sorted x.0) (keys-sort_items m)

abbrev pub is_file : WString × FileEntry → Bool
is_file x = not x.1.is_directory

-- A directory with no key below its own.
abbrev pub is_leaf_dir : List WString → WString × FileEntry → Bool
is_leaf_dir keys x = x.1.is_directory && not (any (starts_with (x.0 ++ (backslash ∷ []))) keys)

module _ (source_root : WString) where
  -- The rows for the files among the items, and for the directories with no key below them.
  abbrev pub file_rows : Map FileEntry → List FileResult
  file_rows items = map (λ x. missing_file_row x.1 source_root) (select is_file items)

  abbrev pub dir_rows : List WString → Map FileEntry → List FileResult
  dir_rows keys items = map (λ x. missing_dir_row x.1 source_root) (select (is_leaf_dir keys) items)

  missing_file-problems :
      (e : FileEntry) (m : Matched)
      → (missing_file source_root e m).results.problems ≡ (
          if e.is_directory
          then m.results.problems
          else m.results.problems ++ (missing_file_row e source_root ∷ []))
  unfolding missing_file
  missing_file-problems e m = ground arith

  file_rows-cons :
      (k : WString) (e : FileEntry) (items : Map FileEntry)
      → file_rows ((k, e) ∷ items) ≡ (
          if e.is_directory
          then file_rows items
          else missing_file_row e source_root ∷ file_rows items)
  file_rows-cons k e items = ground arith

  missing_files_loop-problems :
      (items : Map FileEntry) (m : Matched)
      → (missing_files_loop source_root items m).results.problems
        ≡ m.results.problems ++ file_rows items
  unfolding missing_files_loop
  missing_files_loop-problems [] m = sym (append-nil m.results.problems)
  missing_files_loop-problems ((k, e) ∷ items) m =
      missing_files_loop-problems items (missing_file source_root e m)
      ∙ (ap (λ ps. ps ++ file_rows items) (missing_file-problems e m)
          ∙ (move e.is_directory m.results.problems (missing_file_row e source_root)
                (file_rows items)
              ∙ ap (λ rows. m.results.problems ++ rows) (sym (file_rows-cons k e items))))
    where
      move :
          (d : Bool) (ps : List FileResult) (r : FileResult) (rest : List FileResult)
          → (if d then ps else ps ++ (r ∷ [])) ++ rest ≡ ps ++ (if d then rest else r ∷ rest)
      move true ps r rest = refl
      move false ps r rest = append_assoc ps (r ∷ []) rest

  missing_dirs_loop-problems :
      (keys : List WString) (h : Sorted keys) (items : Map FileEntry) (m : Matched)
      → (missing_dirs_loop source_root keys items m).results.problems
        ≡ m.results.problems ++ dir_rows keys items
  unfolding missing_dirs_loop missing_dir
  missing_dirs_loop-problems keys h [] m = sym (append-nil m.results.problems)
  missing_dirs_loop-problems keys h ((k, e) ∷ items) m =
      missing_dirs_loop-problems keys h items (missing_dir source_root keys k e m)
      ∙ rw (has_descendant-any keys k h) (elim (Bool-cases (is_leaf_dir keys (k, e))) [
        | inl d ↦ rw d (
            append_assoc m.results.problems (missing_dir_row e source_root ∷ [])
              (dir_rows keys items))
        | inr f ↦ rw f refl
      ])

  -- The rows that `recordMissing` appends: in the order of the keys, one for every file that is left
  -- in the source index, then one for every directory with no other key left below its own.
  pub record_missing-problems :
      (source : FileIndex) (m : Matched)
      → let items = sort_items source.entries in
        (record_missing source_root source m).results.problems
        ≡ m.results.problems
          ++ (file_rows items ++ dir_rows (sort_strings (map (λ x. x.0) source.entries)) items)
  unfolding record_missing
  record_missing-problems source m =
      let items = sort_items source.entries in
      let sorted = sort_strings-Sorted (map (λ x. x.0) source.entries) in
      rw (keys-sort_items source.entries) (
        missing_dirs_loop-problems _ sorted items (missing_files_loop source_root items m)
        ∙ rw (missing_files_loop-problems items m)
            (append_assoc m.results.problems (file_rows items) _))

  missing_dirs_loop-stats :
      (keys : List WString) (items : Map FileEntry) (m : Matched)
      → (missing_dirs_loop source_root keys items m).results.stats ≡ m.results.stats
  unfolding missing_dirs_loop missing_dir
  missing_dirs_loop-stats keys [] m = refl
  missing_dirs_loop-stats keys ((k, e) ∷ items) m =
      missing_dirs_loop-stats keys items (missing_dir source_root keys k e m) ∙ ground arith

module _ (f : FileEntry → ℕ) where
  total-insert_item :
      (x : WString × FileEntry) (items : Map FileEntry)
      → total f (insert_item x items) ≡ f x.1 + total f items
  unfolding insert_item
  total-insert_item x [] = refl
  total-insert_item x (y ∷ items) = ground (arith, total-insert_item x items)

  total-sort_items : (m : Map FileEntry) → total f (sort_items m) ≡ total f m
  unfolding sort_items
  total-sort_items [] = refl
  total-sort_items (x ∷ m) = omega (arith, total-insert_item x (sort_items m), total-sort_items m)

module _ (source_root : WString) where
  missing_files_loop-counts :
      (items : Map FileEntry) (m : Matched)
      → let st = (missing_files_loop source_root items m).results.stats in
        (st.missing_files % u64_mod
          ≡ (m.results.stats.missing_files + total file_weight items) % u64_mod)
        × (st.missing_dirs % u64_mod
            ≡ (m.results.stats.missing_dirs + total dir_weight items) % u64_mod)
  unfolding missing_files_loop missing_file
  missing_files_loop-counts [] m = (omega arith, omega arith)
  missing_files_loop-counts ((k, e) ∷ items) m =
      let later = missing_files_loop-counts items (missing_file source_root e m) in
      (ground (arith, later.0), ground (arith, later.1))

  -- `recordMissing` adds to the two counters of missing entries the number of files and the number
  -- of directories that are left in the source index, modulo 2^64; directories that are not reported
  -- are counted too.
  pub record_missing-counts :
      (source : FileIndex) (m : Matched)
      → let st = (record_missing source_root source m).results.stats in
        (st.missing_files % u64_mod
          ≡ (m.results.stats.missing_files + total file_weight source.entries) % u64_mod)
        × (st.missing_dirs % u64_mod
            ≡ (m.results.stats.missing_dirs + total dir_weight source.entries) % u64_mod)
  unfolding record_missing
  record_missing-counts source m =
      let items = sort_items source.entries in
      rw
        (
          missing_dirs_loop-stats source_root (map (λ x. x.0) items) items
              (missing_files_loop source_root items m),
          sym (total-sort_items file_weight source.entries),
          sym (total-sort_items dir_weight source.entries),
        )
        (missing_files_loop-counts items m)
