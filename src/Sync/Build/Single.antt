-- ===== src/Sync/Build/Single.antt =====
-- `BuildSingleActionPlan` of src/Sync/SyncPlan.cpp: the plan of one manual action on one row.
use check_sync_files.Common.{
  ℕ, ◌≤◌, ◌≡◌, refl, Bool, true, false, List, [], ◌∷◌, arith, All, if◌then◌else◌, Bool-cases, inl,
  inr, ◌⊎◌, length, length-append, sym,
}
use check_sync_files.Text.{WString, empty}
use check_sync_files.Windows.{Win}
use check_sync_files.Sorting.{sum_of}
use check_sync_files.Result.{FileResult}
use check_sync_files.Sync.Path.{resolve_within_root}
use check_sync_files.Sync.Plan.{
  dir_delete, SyncAction, OneSide, make_action, Groups, Draft, schedule, push_skip,
}
use check_sync_files.Sync.Build.{
  ManualOp, copy_to_dst, replace_to_dst, delete_at_dst, create_dir_dst, manual_action,
  build_single_action_plan, join_groups,
}
use check_sync_files.Sync.Build.Outcome.{
  Outcome, is_plain_dir, skip, single, cleared, removed, append_missing_like-Outcome,
  append_extra_like-Outcome, append_mismatch_replace-Outcome,
}
use check_sync_files.Sync.Build.Fill.{no_groups-InGroups, Outcome-Filled, join_unsorted-All}
use check_sync_files.Sync.Build.Contained.{IsContained}
use check_sync_files.Sync.Build.Counts.{groups_sum, place-sum, join_groups-sum}

manual_action-Outcome :
    (w : Win) (op : ManualOp) (rel : WString) (src dst : OneSide) (d : Draft)
    → Outcome w rel d (is_plain_dir dst) (manual_action w op rel src dst d)
unfolding manual_action
manual_action-Outcome w copy_to_dst rel src dst d = append_missing_like-Outcome w rel d _ src false
manual_action-Outcome w replace_to_dst rel src dst d =
    append_mismatch_replace-Outcome w rel d _ src dst λ e. e
manual_action-Outcome w delete_at_dst rel src dst d =
    append_extra_like-Outcome w rel d _ dst [] false λ e. e
manual_action-Outcome w create_dir_dst rel src dst d =
    append_missing_like-Outcome w rel d _ src true

-- An action at the row's path, which both roots accept.
abbrev pub IsAtRow : Win → WString → WString → WString → SyncAction → Type 0
IsAtRow w source_root dest_root rel a =
    (a.relative_path ≡ rel) × (IsContained w dest_root rel × IsContained w source_root rel)

module _ (w : Win) (row : FileResult) (op : ManualOp) (root_a root_b : WString) (to_a : Bool) where
  -- Every action of a manual plan has the row's path, and that path is one that `ResolveWithinRoot`
  -- accepts for the source root and for the destination root.
  pub build_single_action_plan-IsAtRow :
      All
        (IsAtRow w
          (if to_a then root_b else root_a)
          (if to_a then root_a else root_b)
          row.relative_path)
        (build_single_action_plan w row op root_a root_b to_a).actions
  unfolding build_single_action_plan push_skip
  build_single_action_plan-IsAtRow =
      let source_root = if to_a then root_b else root_a in
      let dest_root = if to_a then root_a else root_b in
      let P : SyncAction → Type 0 = IsAtRow w source_root dest_root row.relative_path in
      elim (Bool-cases (empty (resolve_within_root w dest_root row.relative_path))) [
        | inl e ↦ rw e tt
        | inr e ↦
            rw e (elim (Bool-cases (empty (resolve_within_root w source_root row.relative_path))) [
              | inl e' ↦ rw e' tt
              | inr e' ↦ rw e' (
                  join_unsorted-All (λ _. P) P (λ _ a h. h) _
                    (Outcome-Filled (λ _. P) w row.relative_path _ (λ o side _. (refl, (e, e')))
                      (manual_action-Outcome w op row.relative_path _ _ _)
                      (record { groups = no_groups-InGroups (λ _. P) })).groups)
            ])
      ]

length-sum : (xs : List SyncAction) → sum_of (λ (a : SyncAction). 1) xs ≡ length xs
length-sum [] = refl
length-sum (a ∷ xs) = omega (arith, length-sum xs)

-- One line in the report and no action, or one or two actions and no line.
abbrev pub IsOneOutcome : ℕ → ℕ → Type 0
IsOneOutcome actions skipped =
    ((actions ≡ 0) × (skipped ≡ 1)) ⊎ (((1 ≤ actions) × (actions ≤ 2)) × (skipped ≡ 0))

Outcome-one :
    (w : Win) (rel : WString) (d : Draft) {clears : Bool} {d' : Draft}
    → groups_sum (λ _. 1) d.groups ≡ 0
    → length d.plan.skipped ≡ 0
    → Outcome w rel d clears d'
    → IsOneOutcome (groups_sum (λ _. 1) d'.groups) (length d'.plan.skipped)
unfolding push_skip schedule
Outcome-one w rel d g s (skip reason) =
    inl (g, omega (arith, length-append d.plan.skipped (_ ∷ []), s))
Outcome-one w rel d g s (single op side _) =
    inr (ground (arith, place-sum (λ _. 1) op (make_action op rel side) d.groups))
Outcome-one w rel d g s (cleared op src dst _ _) = inr (
    ground (
      arith,
      place-sum (λ _. 1) dir_delete (make_action dir_delete rel dst) d.groups,
      place-sum (λ _. 1) op (make_action op rel src)
          (schedule (make_action dir_delete rel dst) d).groups,
    ))
Outcome-one w rel d g s (removed op dst _) =
    inr (ground (arith, place-sum (λ _. 1) op (make_action op rel dst) d.groups))

-- A manual plan holds one or two actions and skips nothing, or it holds no action and reports one
-- line: an action that cannot be planned never leaves a plan that does nothing silently.
pub build_single_action_plan-IsOneOutcome :
    (w : Win) (row : FileResult) (op : ManualOp) (root_a root_b : WString) (to_a : Bool)
    → let plan = build_single_action_plan w row op root_a root_b to_a in
      IsOneOutcome (length plan.actions) (length plan.skipped)
unfolding build_single_action_plan push_skip
build_single_action_plan-IsOneOutcome w row op root_a root_b to_a =
    elim (Bool-cases
      (empty (resolve_within_root w (if to_a then root_a else root_b) row.relative_path))) [
        | inl e ↦ rw e (inl (refl, refl))
        | inr e ↦
            rw e
              (elim (Bool-cases (
                empty
                  (resolve_within_root w (if to_a then root_b else root_a) row.relative_path))) [
                    | inl e' ↦ rw e' (inl (refl, refl))
                    | inr e' ↦ rw e' (
                        joined _ _ (
                          Outcome-one w row.relative_path _ refl refl
                            (manual_action-Outcome w op row.relative_path _ _ _)))
                  ])
      ]
  where
    joined :
        (g : Groups) (n : ℕ)
        → IsOneOutcome (groups_sum (λ _. 1) g) n
        → IsOneOutcome (length (join_groups g)) n
    joined g n h = rw (sym (length-sum (join_groups g)), join_groups-sum (λ _. 1) g) h
