-- ===== src/Sync/Build/Contained.antt =====
-- No action of a plan of src/Sync/SyncPlan.cpp leaves the destination root.
use check_sync_files.Common.{◌≡◌, Bool, false, All, All-of, All-map}
use check_sync_files.Text.{WString, empty}
use check_sync_files.Windows.{Win, IsCharwise}
use check_sync_files.Result.{ResultSet}
use check_sync_files.Sync.Path.{resolve_within_root}
use check_sync_files.Sync.Plan.{SyncAction}
use check_sync_files.Sync.Build.{build_sync_plan, new_build}
use check_sync_files.Sync.Build.Fill.{build_draft-Filled, join_groups-All}
use check_sync_files.Sync.Build.Ancestors.{
  ancestors_from-accepted, plan_rows-ancestors, sort_ancestors-All,
}

abbrev pub IsContained : Win → WString → WString → Type 0
IsContained w root rel = empty (resolve_within_root w root rel) ≡ false

-- With a case mapping that works character by character, every action of every plan, the deletions
-- of ancestors included, has a path that `ResolveWithinRoot` accepts for the destination root,
-- whatever rows the plan was built from.
pub build_sync_plan-IsContained :
    (w : Win) (k : IsCharwise w) (results : ResultSet) (source_root dest_root : WString)
    (source_is_a : Bool)
    → All
        (λ (a : SyncAction). IsContained w dest_root a.relative_path)
        (build_sync_plan w results source_root dest_root source_is_a).actions
unfolding build_sync_plan
build_sync_plan-IsContained w k results source_root dest_root source_is_a =
    let start = new_build source_root dest_root source_is_a in
    join_groups-All (λ _ a. IsContained w dest_root a.relative_path)
      (λ a. IsContained w dest_root a.relative_path) (λ _ a h. h) _
      (build_draft-Filled (λ _ a. IsContained w dest_root a.relative_path) w results.problems
        source_root dest_root source_is_a (All-of _ _ (λ r accepted op side _. accepted))
        (All-map (IsContained w dest_root) _ _ (λ dir inside free. inside)
          (sort_ancestors-All (IsContained w dest_root) w _ (
            plan_rows-ancestors (IsContained w dest_root) w dest_root results.problems start
              (All-of _ _
                (λ r accepted. ancestors_from-accepted w k dest_root r.relative_path accepted))
              tt)))).groups
