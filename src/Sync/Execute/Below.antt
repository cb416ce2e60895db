-- ===== src/Sync/Execute/Below.antt =====
-- The paths below a root, and the parent that `EnsureParentDirs` (src/Sync/SyncExecutor.cpp) takes.
use mathlib.Core.Path.{subst}
use check_sync_files.Common.{
  ℕ, true, false, ◌≡◌, refl, ap, sym, none, some, [], ◌∷◌, ◌++◌, ◌⊎◌, inl, inr, arith, All, ◌==◌,
  Bool-cases, Option-cases, if◌then◌else◌, map,
}
use check_sync_files.Text.{WString, backslash, empty}
use check_sync_files.Windows.{Win}
use check_sync_files.Path.{normalize_root}
use check_sync_files.Sync.Path.{resolve_within_root, flatten_separator}
use check_sync_files.Sync.Path.Laws.{components, IsPlain, resolve_within_root_safe}
use check_sync_files.Sync.Execute.{parent_of}

-- A path below a root, by components that each name an entry: none is empty, "." or "..".
abbrev pub Below : WString → WString → Type 0
Below root path =
    (rest : WString) × (path ≡ normalize_root root ++ (backslash ∷ rest))
    × All IsPlain (components [] rest)

abbrev pub AtOrBelow : WString → WString → Type 0
AtOrBelow root path = (path ≡ normalize_root root) ⊎ Below root path

pub resolve_within_root-Below :
    (w : Win) (root rel : WString)
    → empty (resolve_within_root w root rel) ≡ false
    → Below root (resolve_within_root w root rel)
resolve_within_root-Below w root rel h =
    let (e, plain, _) = resolve_within_root_safe w root rel h in
    (map flatten_separator rel, e, plain)

parent_of-some :
    (c : ℕ) (s d parent : WString)
    → parent_of s ≡ some d
    → parent_of (c ∷ s) ≡ some parent
    → parent ≡ c ∷ d
unfolding parent_of
parent_of-some c s d parent e h = ground arith

parent_of-none :
    (c : ℕ) (s parent : WString)
    → parent_of s ≡ none
    → parent_of (c ∷ s) ≡ some parent
    → ((c == backslash) ≡ true) × (parent ≡ [])
unfolding parent_of
parent_of-none c s parent e h = ground arith

-- The components of a path without its last one.
components-parent :
    (P : WString → Type 0) (cur s parent : WString)
    → parent_of s ≡ some parent
    → All P (components cur s)
    → All P (components cur parent)
unfolding parent_of
components-parent P cur [] parent h k = cc
components-parent P cur (c ∷ s) parent h k = elim (Option-cases (parent_of s)) [
  | inl n ↦
      let (t, e) = parent_of-none c s parent n h in
      subst (λ d. All P (components cur d)) (sym e) (head_all t k, tt)
  | inr (d, e) ↦
      subst (λ p. All P (components cur p)) (sym (parent_of-some c s d parent e h))
        (elim (Bool-cases (c == backslash)) [
          | inl t ↦ rw t (head_all t k, components-parent P [] s d e (tail_all t k))
          | inr f ↦ rw f (components-parent P (cur ++ (c ∷ [])) s d e (grow_all f k))
        ])
]
  where
    head_all : (c == backslash) ≡ true → All P (components cur (c ∷ s)) → P cur
    head_all t k =
        (subst (λ b. All P (if b then cur ∷ components [] s else components (cur ++ (c ∷ [])) s)) t
          k).0

    tail_all : (c == backslash) ≡ true → All P (components cur (c ∷ s)) → All P (components [] s)
    tail_all t k =
        (subst (λ b. All P (if b then cur ∷ components [] s else components (cur ++ (c ∷ [])) s)) t
          k).1

    grow_all :
        (c == backslash) ≡ false
        → All P (components cur (c ∷ s))
        → All P (components (cur ++ (c ∷ [])) s)
    grow_all f k =
        subst (λ b. All P (if b then cur ∷ components [] s else components (cur ++ (c ∷ [])) s)) f k

parent_of-append :
    (root s : WString)
    → (parent_of s ≡ none → parent_of (root ++ (backslash ∷ s)) ≡ some root)
      × ((d : WString)
          → parent_of s ≡ some d
          → parent_of (root ++ (backslash ∷ s)) ≡ some (root ++ (backslash ∷ d)))
unfolding parent_of
parent_of-append [] s = (λ h. rw h refl, λ d h. rw h refl)
parent_of-append (c ∷ root) s =
    (λ h. rw ((parent_of-append root s).0 h) refl, λ d h. rw ((parent_of-append root s).1 d h) refl)

pub parent_of-Below :
    (root path parent : WString)
    → Below root path
    → parent_of path ≡ some parent
    → AtOrBelow root parent
parent_of-Below root path parent (rest, e, plain) h = elim (Option-cases (parent_of rest)) [
  | inl n ↦ inl (same _ ((parent_of-append (normalize_root root) rest).0 n))
  | inr (d, s) ↦ inr (
    d,
    same _ ((parent_of-append (normalize_root root) rest).1 d s),
    components-parent IsPlain [] rest d s plain,
  )
]
  where
    same :
        (p : WString) → parent_of (normalize_root root ++ (backslash ∷ rest)) ≡ some p → parent ≡ p
    same p k = grind (arith, ap parent_of e)
