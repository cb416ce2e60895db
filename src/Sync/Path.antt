-- ===== src/Sync/Path.antt =====
-- `ResolveWithinRoot` of src/Sync/SyncPath.cpp.
pub mod Laws
use check_sync_files.Common.{
  ℕ, Bool, true, false, not, ◌&&◌, ◌||◌, List, [], ◌∷◌, ◌++◌, map, leb, ◌==◌, if◌then◌else◌, length,
}
use check_sync_files.Text.{WString, backslash, slash, dot, colon, empty, starts_with}
use check_sync_files.Windows.{Win}
use check_sync_files.Path.{normalize_root, fold_for_compare, within}

unfoldable pub is_separator : ℕ → Bool
is_separator c = c == backslash || c == slash

-- `rel.size() >= 2 && rel[1] == L':'`.
abbrev pub has_drive : WString → Bool
has_drive (c ∷ d ∷ s) = d == colon
has_drive s = false

abbrev pub starts_with_separator : WString → Bool
starts_with_separator [] = false
starts_with_separator (c ∷ s) = is_separator c

unfoldable pub ends_with_separator : WString → Bool
unfolding is_separator
ends_with_separator [] = false
ends_with_separator (c ∷ []) = is_separator c
ends_with_separator (c ∷ d ∷ s) = ends_with_separator (d ∷ s)

-- The tests on one component `rel[i, j)`: not empty, not "..", not ".".
abbrev pub component_ok : WString → Bool
component_ok [] = false
component_ok (a ∷ []) = not (a == dot)
component_ok (a ∷ b ∷ []) = not (a == dot && b == dot)
component_ok (a ∷ b ∷ c ∷ s) = true

-- The component scan: `cur` is the part of the current component that `j` has passed. The loop
-- ends, with nothing left to test, where a separator is the last character.
unfoldable pub scan_components : WString → WString → Bool
unfolding is_separator
scan_components cur [] = component_ok cur
scan_components cur (c ∷ s) = elim (is_separator c) [
  | true ↦ component_ok cur && (empty s || scan_components [] s)
  | false ↦ scan_components (cur ++ (c ∷ [])) s
]

-- Forward slashes become backslashes.
unfoldable pub flatten_separator : ℕ → ℕ
flatten_separator c = if c == slash then backslash else c

-- The tests of `rel` alone.
unfoldable pub rel_ok : WString → Bool
unfolding scan_components ends_with_separator
rel_ok rel =
    if empty rel
    then false
    else if has_drive rel
    then false
    else if starts_with_separator rel
    then false
    else if ends_with_separator rel
    then false
    else scan_components [] rel

-- The absolute path, or the empty string when `rel` is rejected.
unfoldable pub resolve_within_root : Win → WString → WString → WString
unfolding rel_ok within flatten_separator
resolve_within_root w root rel =
    if rel_ok rel
    then (let n_root = normalize_root root in
        let abs = n_root ++ (backslash ∷ map flatten_separator rel) in
        if empty n_root
        then []
        else if within (fold_for_compare w n_root) (fold_for_compare w abs)
        then abs
        else [])
    else []
