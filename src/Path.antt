-- ===== src/Path.antt =====
-- src/Filesystem/PathUtil.cpp: roots, long-path prefixes, folding and the search for descendants.
pub mod Laws
use mathlib.Core.List.{reverse}
use check_sync_files.Common.{
  ℕ, ◌+◌, ◌-◌, Bool, true, false, ◌&&◌, Option, none, some, List, [], ◌∷◌, ◌++◌, map, ltb, leb,
  ◌==◌, if◌then◌else◌, length, drop, take,
}
use check_sync_files.Text.{WString, Bytes, backslash, empty, eqw, starts_with, lower_bound, lit}
use check_sync_files.Windows.{Win}

-- L"\\\\?\\", L"\\\\?\\UNC\\" and L"\\\\".
abbrev pub long_prefix : WString
long_prefix = backslash ∷ backslash ∷ 63 ∷ backslash ∷ []

abbrev pub unc_part : WString
unc_part = 85 ∷ 78 ∷ 67 ∷ backslash ∷ []

abbrev pub long_unc_prefix : WString
long_unc_prefix = backslash ∷ backslash ∷ 63 ∷ backslash ∷ 85 ∷ 78 ∷ 67 ∷ backslash ∷ []

abbrev pub unc_prefix : WString
unc_prefix = backslash ∷ backslash ∷ []

-- "Remove an explicit long-path prefix."
unfoldable pub strip_long_prefix : WString → WString
strip_long_prefix s =
    if starts_with long_unc_prefix s
    then unc_prefix ++ drop 8 s
    else if starts_with long_prefix s
    then drop 4 s
    else s

-- `while (s.size() > 3 && s.back() == L'\\') s.pop_back()`, on the reversed string of size `n`.
unfoldable pub trim_back : ℕ → WString → WString
trim_back n [] = []
trim_back n (c ∷ r) =
    let rest = trim_back (n - 1) r in if ltb 3 n && c == backslash then rest else c ∷ r

unfoldable pub normalize_root : WString → WString
unfolding strip_long_prefix trim_back
normalize_root [] = []
normalize_root (c ∷ root) =
    let s = strip_long_prefix (c ∷ root) in
    let t = reverse (trim_back (length s) (reverse s)) in
    if eqw t unc_prefix then backslash ∷ [] else t

unfoldable pub join_rel : WString → WString → WString
join_rel [] name = name
join_rel (c ∷ rel) name = (c ∷ rel) ++ (backslash ∷ name)

unfoldable pub make_absolute : WString → WString → WString
make_absolute root_abs [] = root_abs
make_absolute root_abs (c ∷ rel) = root_abs ++ (backslash ∷ c ∷ rel)

unfoldable pub add_long_path_prefix : WString → WString
add_long_path_prefix abs =
    if starts_with long_prefix abs
    then abs
    else if starts_with unc_prefix abs
    then long_unc_prefix ++ drop 2 abs
    else long_prefix ++ abs

-- The fallback of `FoldForCompare`: only `a` to `z` are mapped.
unfoldable pub ascii_upper : ℕ → ℕ
ascii_upper c = if leb 97 c && leb c 122 then c - 97 + 65 else c

unfoldable pub fold_for_compare : Win → WString → WString
unfolding ascii_upper
fold_for_compare w [] = []
fold_for_compare w (c ∷ s) = elim (w.lc_map_upper (c ∷ s)) [
  | some out ↦ out
  | none ↦ map ascii_upper (c ∷ s)
]

-- `keys` is sorted. The loop body returns at once, so only the first candidate is looked at.
unfoldable pub has_descendant : List WString → WString → Bool
has_descendant keys dir_key =
    let prefix = dir_key ++ (backslash ∷ []) in
    elim (lower_bound keys prefix) [
      | [] ↦ false
      | key ∷ _ ↦ leb (length prefix) (length key) && starts_with prefix key
    ]

-- The containment test that SyncPath.cpp and ReparsePoint.cpp share: the folded root is a prefix
-- and a separator follows it, `f.size() > r.size() && f.compare(0, r.size(), r) == 0 &&
-- f[r.size()] == L'\\'`.
unfoldable pub within : WString → WString → Bool
within folded_root [] = false
within [] (c ∷ s) = c == backslash
within (r ∷ folded_root) (c ∷ s) = r == c && within folded_root s

unfoldable pub to_utf8 : Win → WString → Bytes
to_utf8 w [] = []
to_utf8 w (c ∷ s) = elim (w.wide_to_utf8 (c ∷ s)) [ some out ↦ out | none ↦ [] ]

unfoldable pub from_utf8 : Win → Bytes → WString
from_utf8 w [] = []
from_utf8 w (b ∷ s) = elim (w.utf8_to_wide (b ∷ s)) [ some out ↦ out | none ↦ [] ]

-- The loop of `SanitizeFilePrefix`; `iswalnum` is the C library's.
unfoldable pub sanitize_loop : (ℕ → Bool) → Bool → WString → WString
sanitize_loop is_alnum gap [] = []
sanitize_loop is_alnum gap (c ∷ s) =
    let keep : Bool =
      if c == 45 then true else if c == 95 then true else if c == 46 then true else is_alnum c in
    let kept = sanitize_loop is_alnum false s in
    let dropped = sanitize_loop is_alnum true s in
    if keep then c ∷ kept else if gap then dropped else 95 ∷ dropped

unfoldable pub sanitize_file_prefix : (ℕ → Bool) → WString → ℕ → WString
unfolding sanitize_loop lit
sanitize_file_prefix is_alnum source max_chars =
    let out = sanitize_loop is_alnum false (take max_chars source) in
    if empty out then lit "backup" else out
