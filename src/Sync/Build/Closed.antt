-- ===== src/Sync/Build/Closed.antt =====
-- What the steps of src/Sync/SyncPlan.cpp preserve in a plan that is being filled, the two loops
-- preserve: a row skips, schedules or allows, and an ancestor schedules and allows.
use check_sync_files.Common.{Bool, List, [], ◌∷◌, any, Bool-cases, inl, inr}
use check_sync_files.Text.{WString, Bytes, empty, eqw}
use check_sync_files.Windows.{Win}
use check_sync_files.Path.{fold_for_compare}
use check_sync_files.Result.{FileResult}
use check_sync_files.Sync.Path.{resolve_within_root}
use check_sync_files.Sync.Plan.{
  SyncAction, Draft, no_groups, new_plan, push_skip, allow_extra, is_claimed_by_source, schedule,
}
use check_sync_files.Sync.Build.{
  Build, new_build, build_draft, plan_row, plan_rows, plan_ancestor, plan_ancestors,
  ancestor_action,
}
use check_sync_files.Sync.Build.Outcome.{
  Outcome, skip, single, cleared, removed, plan_status-Outcome,
}

module _ (w : Win) where
  -- A predicate of drafts that every step preserves.
  pub record IsStepwise (K : Draft → Type 0) : Type 0 where
    pub skips : (rel : WString) (reason : Bytes) (d : Draft) → K d → K (push_skip w rel reason d)
    pub schedules : (a : SyncAction) (d : Draft) → K d → K (schedule a d)
    pub allows : (folded : WString) (d : Draft) → K d → K (allow_extra folded d)

  module _ (K : Draft → Type 0) (i : IsStepwise K) where
    pub Outcome-stepwise :
        (rel : WString) (d : Draft) {clears : Bool} {d' : Draft}
        → Outcome w rel d clears d'
        → K d
        → K d'
    Outcome-stepwise rel d (skip reason) h = i.skips rel reason d h
    Outcome-stepwise rel d (single op side _) h = i.schedules _ d h
    Outcome-stepwise rel d (cleared op src dst _ _) h = i.schedules _ _ (i.schedules _ d h)
    Outcome-stepwise rel d (removed op dst _) h = i.schedules _ _ (i.allows _ d h)

    module _ (dest_root : WString) where
      plan_row-stepwise :
          (r : FileResult) (b : Build) → K b.draft → K (plan_row w dest_root r b).draft
      unfolding plan_row
      plan_row-stepwise r b h =
          elim (Bool-cases (empty (resolve_within_root w dest_root r.relative_path))) [
            | inl out ↦ rw out (i.skips _ _ b.draft h)
            | inr accepted ↦
                rw accepted (Outcome-stepwise _ b.draft (plan_status-Outcome w r r.status _) h)
          ]

      pub plan_rows-stepwise :
          (rows : List FileResult) (b : Build) → K b.draft → K (plan_rows w dest_root rows b).draft
      unfolding plan_rows
      plan_rows-stepwise [] b h = h
      plan_rows-stepwise (r ∷ rows) b h =
          plan_rows-stepwise rows (plan_row w dest_root r b) (plan_row-stepwise r b h)

    plan_ancestor-stepwise :
        (non_extra : List WString) (dir : WString) (d : Draft)
        → K d
        → K (plan_ancestor w non_extra dir d)
    unfolding plan_ancestor
    plan_ancestor-stepwise non_extra dir d h =
        elim (Bool-cases (is_claimed_by_source non_extra (fold_for_compare w dir))) [
          | inl e ↦ rw e h
          | inr e ↦
              rw e
                (elim (Bool-cases
                  (any (λ (a : SyncAction). eqw a.relative_path dir) d.groups.delete_dirs)) [
                    | inl e ↦ rw e h
                    | inr e ↦ rw e (i.allows _ _ (i.schedules (ancestor_action dir) d h))
                  ])
        ]

    pub plan_ancestors-stepwise :
        (non_extra dirs : List WString) (d : Draft) → K d → K (plan_ancestors w non_extra dirs d)
    unfolding plan_ancestors
    plan_ancestors-stepwise non_extra [] d h = h
    plan_ancestors-stepwise non_extra (dir ∷ dirs) d h =
        plan_ancestors-stepwise non_extra dirs _ (plan_ancestor-stepwise non_extra dir d h)

    pub build_draft-stepwise :
        (rows : List FileResult) (source_root dest_root : WString) (source_is_a : Bool)
        → K (record { plan = new_plan source_root dest_root source_is_a; groups = no_groups })
        → K (build_draft w rows source_root dest_root source_is_a)
    unfolding build_draft
    build_draft-stepwise rows source_root dest_root source_is_a h =
        plan_ancestors-stepwise _ _ _
          (plan_rows-stepwise dest_root rows (new_build source_root dest_root source_is_a) h)
