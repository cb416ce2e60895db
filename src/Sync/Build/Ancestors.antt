-- ===== src/Sync/Build/Ancestors.antt =====
-- The ancestors that `AppendExtraLike` of src/Sync/SyncPlan.cpp schedules for guarded deletion.
use mathlib.Core.List.{append_assoc}
use mathlib.Core.Path.{subst}
use check_sync_files.Common.{
  ◌≡◌, refl, sym, true, false, List, [], ◌∷◌, ◌++◌, arith, All, All-map, All-append, length, ◌⊎◌,
  Bool-cases, inl, inr, ◌==◌, ==_iff,
}
use check_sync_files.Text.{WString, backslash, empty, sort_strings, unique}
use check_sync_files.Text.Order.{sort_strings-All, unique-All}
use check_sync_files.Sorting.{sort_by-All, larger}
use check_sync_files.Windows.{Win, IsCharwise}
use check_sync_files.Path.{normalize_root}
use check_sync_files.Result.{Status, missing, extra, FileResult}
use check_sync_files.Sync.Path.{
  is_separator, ends_with_separator, scan_components, rel_ok, resolve_within_root,
}
use check_sync_files.Sync.Path.Laws.{resolve_within_root-charwise}
use check_sync_files.Sync.Plan.{Draft, OneSide, append_extra_like, ancestors_from}
use check_sync_files.Sync.Build.{Build, dest_side, plan_status, plan_row, plan_rows, sort_ancestors}
use check_sync_files.Sync.Build.Fill.{Accepted}

-- Up to a backslash, the component scan of a path is that of its beginning, which is not empty and
-- does not end with a separator.
scan_components-cut :
    (cur a t : WString)
    → scan_components cur (a ++ (backslash ∷ t)) ≡ true
    → (scan_components cur a ≡ true) × (ends_with_separator a ≡ false)
unfolding scan_components ends_with_separator is_separator
scan_components-cut cur [] t h = (ground arith, refl)
scan_components-cut cur (c ∷ []) t h = (ground arith, ground arith)
scan_components-cut cur (c ∷ d ∷ a) t h =
    ground
      (arith, scan_components-cut [] (d ∷ a) t, scan_components-cut (cur ++ (c ∷ [])) (d ∷ a) t)

-- An ancestor of an acceptable path is an acceptable path.
rel_ok-cut : (a t : WString) → rel_ok (a ++ (backslash ∷ t)) ≡ true → rel_ok a ≡ true
unfolding rel_ok is_separator
rel_ok-cut [] t h = ground arith
rel_ok-cut (c ∷ []) t h = ground (arith, scan_components-cut [] (c ∷ []) t)
rel_ok-cut (c ∷ d ∷ a) t h = ground (arith, scan_components-cut [] (c ∷ d ∷ a) t)

ancestors_from-ok :
    (pre s : WString)
    → rel_ok (pre ++ s) ≡ true
    → All (λ dir. rel_ok dir ≡ true) (ancestors_from pre s)
unfolding ancestors_from
ancestors_from-ok pre [] h = tt
ancestors_from-ok pre (c ∷ s) h =
    let rest = ancestors_from-ok (pre ++ (c ∷ [])) s (rw append_assoc h) in
    elim (Bool-cases (c == backslash)) [
      | inl e ↦ rw e (
        rel_ok-cut pre s (subst (λ x. rel_ok (pre ++ (x ∷ s)) ≡ true) ((==_iff c backslash).0 e) h),
        rest,
      )
      | inr e ↦ rw e rest
    ]

module _ (w : Win) (k : IsCharwise w) (dest_root : WString) where
  accepted-rel_ok :
      (rel : WString)
      → empty (resolve_within_root w dest_root rel) ≡ false
      → (rel_ok rel ≡ true) × (empty (normalize_root dest_root) ≡ false)
  accepted-rel_ok rel h = ground (arith, resolve_within_root-charwise w k dest_root rel)

  rel_ok-accepted :
      (rel : WString)
      → empty (normalize_root dest_root) ≡ false
      → rel_ok rel ≡ true
      → empty (resolve_within_root w dest_root rel) ≡ false
  rel_ok-accepted rel n h =
      rw (resolve_within_root-charwise w k dest_root rel)
        (rw (h, n) (nonempty (normalize_root dest_root) _))
    where
      nonempty : (s t : WString) → empty (s ++ (backslash ∷ t)) ≡ false
      nonempty [] t = refl
      nonempty (c ∷ s) t = refl

  -- With character-wise folding, every ancestor of an accepted path is accepted.
  pub ancestors_from-accepted :
      (rel : WString)
      → empty (resolve_within_root w dest_root rel) ≡ false
      → All (λ dir. empty (resolve_within_root w dest_root dir) ≡ false) (ancestors_from [] rel)
  ancestors_from-accepted rel h =
      let ok = accepted-rel_ok rel h in
      All-map (λ dir. rel_ok dir ≡ true)
        (λ dir. empty (resolve_within_root w dest_root dir) ≡ false) (ancestors_from [] rel)
        (λ dir r. rel_ok-accepted dir ok.1 r) (ancestors_from-ok [] rel ok.0)

-- The ancestors to schedule stay as they are, or the row's are added.
append_extra_like-ancestors :
    (w : Win) (rel : WString) (dst : OneSide) (dirs : List WString) (d : Draft)
    → ((append_extra_like w rel dst dirs true d).1 ≡ dirs)
      ⊎ ((append_extra_like w rel dst dirs true d).1 ≡ dirs ++ ancestors_from [] rel)
unfolding append_extra_like
append_extra_like-ancestors w rel dst dirs d = ground arith

-- What the ancestors of the accepted rows satisfy holds of all that are scheduled.
module _ (Q : WString → Type 0) (w : Win) where
  plan_status-ancestors :
      (r : FileResult) (s : Status) (b : Build)
      → All Q (ancestors_from [] r.relative_path)
      → All Q b.dir_ancestors
      → All Q (plan_status w s r b).dir_ancestors
  unfolding plan_status
  plan_status-ancestors r extra b a h =
      elim (append_extra_like-ancestors w r.relative_path (dest_side r) b.dir_ancestors b.draft) [
        | inl e ↦ subst (All Q) (sym e) h
        | inr e ↦ subst (All Q) (sym e) (All-append Q b.dir_ancestors _ h a)
      ]
  plan_status-ancestors r missing b a h = h
  plan_status-ancestors r _ b a h = h

  module _ (dest_root : WString) where
    plan_row-ancestors :
        (r : FileResult) (b : Build)
        → (Accepted w dest_root r → All Q (ancestors_from [] r.relative_path))
        → All Q b.dir_ancestors
        → All Q (plan_row w dest_root r b).dir_ancestors
    unfolding plan_row
    plan_row-ancestors r b a h =
        elim (Bool-cases (empty (resolve_within_root w dest_root r.relative_path))) [
          | inl out ↦ rw out h
          | inr accepted ↦ rw accepted (plan_status-ancestors r r.status _ (a accepted) h)
        ]

    pub plan_rows-ancestors :
        (rows : List FileResult) (b : Build)
        → All (λ r. Accepted w dest_root r → All Q (ancestors_from [] r.relative_path)) rows
        → All Q b.dir_ancestors
        → All Q (plan_rows w dest_root rows b).dir_ancestors
    unfolding plan_rows
    plan_rows-ancestors [] b a h = h
    plan_rows-ancestors (r ∷ rows) b a h =
        plan_rows-ancestors rows (plan_row w dest_root r b) a.1 (plan_row-ancestors r b a.0 h)

  pub sort_ancestors-All : (dirs : List WString) → All Q dirs → All Q (sort_ancestors dirs)
  unfolding sort_ancestors
  sort_ancestors-All dirs h =
      sort_by-All (larger (λ (s : WString). length s)) Q (unique (sort_strings dirs))
        (unique-All Q (sort_strings dirs) (sort_strings-All Q dirs h))
