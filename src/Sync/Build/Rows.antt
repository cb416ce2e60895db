-- ===== src/Sync/Build/Rows.antt =====
-- No row of the comparison is lost by `BuildSyncPlan` of src/Sync/SyncPlan.cpp.
use mathlib.Core.List.{append_assoc}
use check_sync_files.Common.{
  ℕ, ◌+◌, ◌≤◌, ◌≡◌, sym, Bool, true, List, [], ◌∷◌, ◌++◌, arith, All, All-map, if◌then◌else◌,
  Bool-cases, inl, inr,
}
use check_sync_files.Text.{WString, Bytes, empty, eqw, starts_with, lit}
use check_sync_files.Text.Laws.{eqw_refl, starts_with-append}
use check_sync_files.Windows.{Win}
use check_sync_files.Path.{to_utf8}
use check_sync_files.Sorting.{sum_of, sum_of-append}
use check_sync_files.Result.{FileResult, ResultSet}
use check_sync_files.Sync.Path.{resolve_within_root}
use check_sync_files.Sync.Plan.{
  SyncOp, SyncAction, OneSide, make_action, Draft, schedule, push_skip,
}
use check_sync_files.Sync.Build.{
  Build, build_draft, build_sync_plan, plan_row, plan_rows, plan_ancestors, new_build, sort_groups,
  join_groups,
}
use check_sync_files.Sync.Build.Outcome.{
  Outcome, skip, single, cleared, removed, plan_status-Outcome,
}
use check_sync_files.Sync.Build.Closed.{IsStepwise, plan_rows-stepwise, plan_ancestors-stepwise}
use check_sync_files.Sync.Build.Counts.{groups_sum, place-sum, join_groups-sum, sort_groups-sum}

module _ (w : Win) (rel : WString) where
  -- 1 for an action at the path, and for a report about it.
  abbrev pub acts_on : SyncAction → ℕ
  acts_on a = if eqw a.relative_path rel then 1 else 0

  abbrev pub reports : Bytes → ℕ
  reports line = if starts_with (to_utf8 w rel ++ lit ": ") line then 1 else 0

  abbrev IsHandled : Draft → Type 0
  IsHandled d = 1 ≤ groups_sum acts_on d.groups + sum_of reports d.plan.skipped

  scheduled_here :
      (op : SyncOp) (side : OneSide) (d : Draft) → IsHandled (schedule (make_action op rel side) d)
  unfolding schedule
  scheduled_here op side d =
      let a = make_action op rel side in
      ground (arith, place-sum acts_on op a d.groups, eqw_refl rel)

  skipped_here : (reason : Bytes) (d : Draft) → IsHandled (push_skip w rel reason d)
  unfolding push_skip
  skipped_here reason d =
      let line = to_utf8 w rel ++ (lit ": " ++ reason) in
      ground (arith, sum_of-append reports d.plan.skipped (line ∷ []), reported reason)
    where
      reported :
          (reason : Bytes)
          → starts_with (to_utf8 w rel ++ lit ": ") (to_utf8 w rel ++ (lit ": " ++ reason)) ≡ true
      reported reason =
          rw (sym (append_assoc (to_utf8 w rel) (lit ": ") reason))
            (starts_with-append (to_utf8 w rel ++ lit ": ") reason)

  IsHandled-stepwise : IsStepwise w IsHandled
  unfolding schedule push_skip
  IsHandled-stepwise = record {
    skips = λ other reason d h. omega (
      arith,
      sum_of-append reports d.plan.skipped ((to_utf8 w other ++ (lit ": " ++ reason)) ∷ []),
      h,
    );
    schedules = λ a d h. omega (arith, place-sum acts_on a.op a d.groups, h);
    allows = λ folded d h. h;
  }

  Outcome-IsHandled : {d d' : Draft} {clears : Bool} → Outcome w rel d clears d' → IsHandled d'
  Outcome-IsHandled (skip reason) = skipped_here reason _
  Outcome-IsHandled (single op side _) = scheduled_here op side _
  Outcome-IsHandled (cleared op src dst _ _) = scheduled_here op src _
  Outcome-IsHandled (removed op dst _) = scheduled_here op dst _

module _ (w : Win) (dest_root : WString) where
  plan_row-IsHandled :
      (r : FileResult) (b : Build) → IsHandled w r.relative_path (plan_row w dest_root r b).draft
  unfolding plan_row
  plan_row-IsHandled r b =
      elim (Bool-cases (empty (resolve_within_root w dest_root r.relative_path))) [
        | inl out ↦ rw out (skipped_here w r.relative_path _ b.draft)
        | inr accepted ↦
            rw accepted (Outcome-IsHandled w r.relative_path (plan_status-Outcome w r r.status _))
      ]

  plan_rows-IsHandled :
      (rows : List FileResult) (b : Build)
      → All (λ r. IsHandled w r.relative_path (plan_rows w dest_root rows b).draft) rows
  unfolding plan_rows
  plan_rows-IsHandled [] b = tt
  plan_rows-IsHandled (r ∷ rows) b =
      let next = plan_row w dest_root r b in
      (
        plan_rows-stepwise w (IsHandled w r.relative_path) (IsHandled-stepwise w r.relative_path)
            dest_root rows next (plan_row-IsHandled r b),
        plan_rows-IsHandled rows next,
      )

joined :
    (w : Win) (rel : WString) (d : Draft)
    → IsHandled w rel d
    → 1
      ≤ sum_of (acts_on w rel) (join_groups (sort_groups d.groups))
        + sum_of (reports w rel) d.plan.skipped
joined w rel d h =
    rw
      (
        join_groups-sum (acts_on w rel) (sort_groups d.groups),
        sort_groups-sum (acts_on w rel) d.groups,
      )
      h

-- Every row of the comparison is planned or reported: some action of the plan has its path, or some
-- line of the skipped ones begins with its path and a colon.
pub build_sync_plan-covers_rows :
    (w : Win) (results : ResultSet) (source_root dest_root : WString) (source_is_a : Bool)
    → let plan = build_sync_plan w results source_root dest_root source_is_a in
      All
        (λ r.
          1
          ≤ sum_of (acts_on w r.relative_path) plan.actions
            + sum_of (reports w r.relative_path) plan.skipped)
        results.problems
unfolding build_sync_plan build_draft
build_sync_plan-covers_rows w results source_root dest_root source_is_a =
    let start = new_build source_root dest_root source_is_a in
    All-map (λ r. IsHandled w r.relative_path (plan_rows w dest_root results.problems start).draft)
      _ results.problems
      (λ r h.
        joined w r.relative_path
          (plan_ancestors w _ _ (plan_rows w dest_root results.problems start).draft)
          (plan_ancestors-stepwise w (IsHandled w r.relative_path)
            (IsHandled-stepwise w r.relative_path) _ _
            (plan_rows w dest_root results.problems start).draft h))
      (plan_rows-IsHandled w dest_root results.problems start)
