-- ===== src/Sync/Path/Laws.antt =====
-- Containment: what `ResolveWithinRoot` of src/Sync/SyncPath.cpp accepts, and what it returns.
use mathlib.Core.List.{map-append}
use check_sync_files.Common.{
  ℕ, ◌≡◌, ◌≢◌, refl, true, false, List, [], ◌∷◌, ◌++◌, map, arith, ◌==◌, if◌then◌else◌, All, inl,
  inr, Bool-cases,
}
use check_sync_files.Text.{WString, backslash, dot, empty}
use check_sync_files.Windows.{Win, IsCharwise}
use check_sync_files.Path.{normalize_root, fold_for_compare, within}
use check_sync_files.Path.Laws.{fold_for_compare-map}
use check_sync_files.Sync.Path.{
  is_separator, ends_with_separator, component_ok, scan_components, flatten_separator, rel_ok,
  resolve_within_root,
}

-- A path cut at each backslash; `cur` is what has been read of the first component.
abbrev pub components : WString → WString → List WString
components cur [] = cur ∷ []
components cur (c ∷ s) =
    if c == backslash then cur ∷ components [] s else components (cur ++ (c ∷ [])) s

-- A component that names an entry of its directory: not empty, not "." and not "..".
abbrev pub IsPlain : WString → Type 0
IsPlain s = (s ≢ []) × (s ≢ dot ∷ []) × (s ≢ dot ∷ dot ∷ [])

component_ok-IsPlain : (s : WString) → component_ok s ≡ true → IsPlain s
component_ok-IsPlain [] h = cc
component_ok-IsPlain (a ∷ []) h = ground arith
component_ok-IsPlain (a ∷ b ∷ []) h = ground arith
component_ok-IsPlain (a ∷ b ∷ c ∷ s) h = (λ e. cc, λ e. cc, λ e. cc)

flatten_separator_test : (c : ℕ) → (flatten_separator c == backslash) ≡ is_separator c
unfolding flatten_separator is_separator
flatten_separator_test c = ground arith

flatten_separator_other : (c : ℕ) → is_separator c ≡ false → flatten_separator c ≡ c
unfolding flatten_separator is_separator
flatten_separator_other c h = ground arith

-- The components of a path after a character that is, or is not, a separator.
components_cut :
    (cur s : WString) (c : ℕ)
    → is_separator c ≡ true
    → components cur (map flatten_separator (c ∷ s)) ≡ cur ∷ components [] (map flatten_separator s)
components_cut cur s c h = ground (arith, flatten_separator_test c)

components_grow :
    (cur s : WString) (c : ℕ)
    → is_separator c ≡ false
    → components cur (map flatten_separator (c ∷ s))
      ≡ components (cur ++ (c ∷ [])) (map flatten_separator s)
components_grow cur s c h = ground (arith, flatten_separator_test c, flatten_separator_other c h)

scan_components-IsPlain :
    (cur s : WString)
    → ends_with_separator s ≡ false
    → scan_components cur s ≡ true
    → All IsPlain (components cur (map flatten_separator s))
unfolding scan_components ends_with_separator
scan_components-IsPlain cur [] e h = (component_ok-IsPlain cur h, tt)
scan_components-IsPlain cur (c ∷ []) e h =
    rw (components_grow cur [] c e) (component_ok-IsPlain (cur ++ (c ∷ [])) (ground arith), tt)
scan_components-IsPlain cur (c ∷ d ∷ s) e h = elim (Bool-cases (is_separator c)) [
  | inl t ↦
      rw (components_cut cur (d ∷ s) c t) (
        component_ok-IsPlain cur (ground arith),
        scan_components-IsPlain [] (d ∷ s) e (ground arith),
      )
  | inr f ↦
      rw (components_grow cur (d ∷ s) c f)
        (scan_components-IsPlain (cur ++ (c ∷ [])) (d ∷ s) e (ground arith))
]

within-append : (r s : WString) → within r (r ++ (backslash ∷ s)) ≡ true
unfolding within
within-append [] s = refl
within-append (c ∷ r) s = ground (arith, within-append r s)

fold-within :
    (w : Win) (k : IsCharwise w) (r s : WString)
    → within (fold_for_compare w r) (fold_for_compare w (r ++ (backslash ∷ s))) ≡ true
fold-within w k r s =
    simp (fold_for_compare-map w k, map-append, k.upper-backslash)
      (within-append (map k.upper r) (map k.upper s))

-- With character-wise folding the folded prefix test passes, so `rel` alone decides.
pub resolve_within_root-charwise :
    (w : Win) (k : IsCharwise w) (root rel : WString)
    → resolve_within_root w root rel ≡ (
        if rel_ok rel
        then (if empty (normalize_root root)
            then []
            else normalize_root root ++ (backslash ∷ map flatten_separator rel))
        else [])
unfolding resolve_within_root
resolve_within_root-charwise w k root rel =
    rw (fold-within w k (normalize_root root) (map flatten_separator rel))

rel_ok-IsPlain :
    (rel : WString) → rel_ok rel ≡ true → All IsPlain (components [] (map flatten_separator rel))
unfolding rel_ok
rel_ok-IsPlain rel h = scan_components-IsPlain [] rel (ground arith) (ground arith)

-- A path that is not rejected is the root followed by components that each name an entry (none is
-- empty, "." or ".."), it has the folded root as a prefix, and a separator follows that prefix.
pub resolve_within_root_safe :
    (w : Win) (root rel : WString)
    → empty (resolve_within_root w root rel) ≡ false
    → (resolve_within_root w root rel
        ≡ normalize_root root ++ (backslash ∷ map flatten_separator rel))
      × All IsPlain (components [] (map flatten_separator rel))
      × (within
            (fold_for_compare w (normalize_root root))
            (fold_for_compare w (resolve_within_root w root rel))
          ≡ true)
unfolding resolve_within_root
resolve_within_root_safe w root rel h = ground (arith, rel_ok-IsPlain rel)
