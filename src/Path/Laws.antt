-- ===== src/Path/Laws.antt =====
-- Laws of src/Filesystem/PathUtil.cpp.
use check_sync_files.Common.{
  ◌≡◌, ◌∙◌, refl, true, false, ◌&&◌, List, [], ◌∷◌, ◌++◌, map, arith, length, any, leb, drop,
}
use check_sync_files.Text.{WString, backslash, starts_with, lower_bound}
use check_sync_files.Text.Laws.{starts_with-length, starts_with-append_left}
use check_sync_files.Text.Order.{Sorted, lower_bound-prefix, head_starts_with}
use check_sync_files.Windows.{Win, IsCharwise}
use check_sync_files.Path.{
  add_long_path_prefix, fold_for_compare, has_descendant, strip_long_prefix, unc_part, long_prefix,
  unc_prefix, long_unc_prefix,
}

-- Folding is the mapping of each code unit.
pub fold_for_compare-map :
    (w : Win) (k : IsCharwise w) (s : WString) → fold_for_compare w s ≡ map k.upper s
unfolding fold_for_compare
fold_for_compare-map w k [] = refl
fold_for_compare-map w k (c ∷ s) = rw (k.lc_map_upper_lem c s, fold_for_compare)

-- In a sorted vector the search answers whether any key lies strictly below the directory.
pub has_descendant-any :
    (keys : List WString) (dir : WString)
    → Sorted keys
    → has_descendant keys dir ≡ any (starts_with (dir ++ (backslash ∷ []))) keys
unfolding has_descendant
has_descendant-any keys dir h =
    head_test (dir ++ (backslash ∷ [])) (lower_bound keys (dir ++ (backslash ∷ [])))
    ∙ lower_bound-prefix (dir ++ (backslash ∷ [])) keys h
  where
    head_test :
        (p : WString) (xs : List WString)
        → (elim xs [ [] ↦ false | key ∷ _ ↦ leb (length p) (length key) && starts_with p key ])
          ≡ head_starts_with p xs
    head_test p [] = refl
    head_test p (x ∷ xs) = ground (arith, starts_with-length p x)

-- A path without a long-path prefix is left alone.
strip_long_prefix_plain :
    (s : WString) → starts_with long_prefix s ≡ false → strip_long_prefix s ≡ s
unfolding strip_long_prefix
strip_long_prefix_plain s h = ground (arith, starts_with-append_left long_prefix unc_part s)

strip_long_prefix-unc :
    (s : WString)
    → starts_with unc_prefix s ≡ true
    → strip_long_prefix (long_unc_prefix ++ drop 2 s) ≡ s
unfolding strip_long_prefix starts_with
strip_long_prefix-unc [] h = cc
strip_long_prefix-unc (c ∷ []) h = ground arith
strip_long_prefix-unc (c ∷ d ∷ s) h = ground arith

strip_long_prefix-long :
    (s : WString) → starts_with unc_part s ≡ false → strip_long_prefix (long_prefix ++ s) ≡ s
unfolding strip_long_prefix starts_with
strip_long_prefix-long s h = rw h

-- Removing the long-path prefix of a path undoes adding it, for a path that does not begin with that
-- prefix itself, nor with `UNC\`.
pub strip_long_prefix-add_long_path_prefix :
    (s : WString)
    → starts_with long_prefix s ≡ false
    → starts_with unc_part s ≡ false
    → strip_long_prefix (add_long_path_prefix s) ≡ s
unfolding add_long_path_prefix
strip_long_prefix-add_long_path_prefix s l h =
    ground
      (arith, l, strip_long_prefix_plain s, strip_long_prefix-unc s, strip_long_prefix-long s h)
