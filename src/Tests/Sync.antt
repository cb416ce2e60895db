-- ===== src/Tests/Sync.antt =====
-- The theorems on plans, at a plan from four rows.
use check_sync_files.Common.{◌≡◌, ◌≤◌, ◌+◌, refl, true, false, [], ◌∷◌, ◌++◌, All, map, length, any}
use check_sync_files.Text.{lit, eqw, starts_with, backslash, sort_strings, unique}
use check_sync_files.Sorting.{Pairwise, sum_of}
use check_sync_files.Path.{normalize_root, fold_for_compare, within}
use check_sync_files.Result.{FileResult, missing}
use check_sync_files.Sync.Path.{resolve_within_root, flatten_separator}
use check_sync_files.Sync.Path.Laws.{components, IsPlain, resolve_within_root_safe}
use check_sync_files.Sync.Plan.{SyncAction, is_claimed_by_source}
use check_sync_files.Sync.Build.{build_sync_plan, build_single_action_plan, replace_to_dst}
use check_sync_files.Sync.Build.Order.{InOrder, build_sync_plan-InOrder}
use check_sync_files.Sync.Build.Contained.{IsContained, build_sync_plan-IsContained}
use check_sync_files.Sync.Build.Claims.{
  IsJustified, build_sync_plan-IsJustified, at_or_under, is_claimed_by_source-any,
}
use check_sync_files.Sync.Build.Rows.{acts_on, reports, build_sync_plan-covers_rows}
use check_sync_files.Sync.Build.Counts.{IsSummaryOf, build_sync_plan-IsSummaryOf}
use check_sync_files.Sync.Build.Single.{
  IsAtRow, IsOneOutcome, build_single_action_plan-IsAtRow, build_single_action_plan-IsOneOutcome,
}
use check_sync_files.Tests.Data.{ascii, ascii-IsCharwise, left, right, row, results}

build_sync_plan-IsContained_example :
    All
      (λ (a : SyncAction). IsContained ascii right a.relative_path)
      (build_sync_plan ascii results left right true).actions
build_sync_plan-IsContained_example =
    build_sync_plan-IsContained ascii ascii-IsCharwise results left right true

build_sync_plan-IsJustified_example :
    All
      (IsJustified ascii right results.problems)
      (build_sync_plan ascii results left right true).actions
build_sync_plan-IsJustified_example = build_sync_plan-IsJustified ascii results left right true

build_sync_plan-covers_rows_example :
    All
      (λ (r : FileResult).
        1
        ≤ sum_of
            (acts_on ascii r.relative_path)
            (build_sync_plan ascii results left right true).actions
          + sum_of
              (reports ascii r.relative_path)
              (build_sync_plan ascii results left right true).skipped)
      results.problems
build_sync_plan-covers_rows_example = build_sync_plan-covers_rows ascii results left right true

build_sync_plan-InOrder_example :
    Pairwise InOrder (build_sync_plan ascii results left right true).actions
build_sync_plan-InOrder_example = build_sync_plan-InOrder ascii results left right true

build_sync_plan-IsSummaryOf_example :
    IsSummaryOf
      (build_sync_plan ascii results left right true).actions
      (build_sync_plan ascii results left right true).summary
build_sync_plan-IsSummaryOf_example = build_sync_plan-IsSummaryOf ascii results left right true

resolve_within_root_safe_example :
    (resolve_within_root ascii right (lit "a/b")
      ≡ normalize_root right ++ (backslash ∷ map flatten_separator (lit "a/b")))
    × All IsPlain (components [] (map flatten_separator (lit "a/b")))
    × (within
          (fold_for_compare ascii (normalize_root right))
          (fold_for_compare ascii (resolve_within_root ascii right (lit "a/b")))
        ≡ true)
unfolding resolve_within_root lit normalize_root eqw starts_with fold_for_compare
resolve_within_root_safe_example = resolve_within_root_safe ascii right (lit "a/b") refl

is_claimed_by_source-any_example :
    is_claimed_by_source (unique (sort_strings (lit "B\\X" ∷ lit "A" ∷ []))) (lit "B")
    ≡ any (at_or_under (lit "B")) (lit "B\\X" ∷ lit "A" ∷ [])
is_claimed_by_source-any_example = is_claimed_by_source-any (lit "B\\X" ∷ lit "A" ∷ []) (lit "B")

build_single_action_plan-IsAtRow_example :
    All
      (IsAtRow ascii left right (lit "b"))
      (build_single_action_plan ascii
        (row missing (lit "b") false)
        replace_to_dst
        left
        right
        false).actions
build_single_action_plan-IsAtRow_example =
    build_single_action_plan-IsAtRow ascii (row missing (lit "b") false) replace_to_dst left right
      false

build_single_action_plan-IsOneOutcome_example :
    IsOneOutcome
      (length
        (build_single_action_plan ascii
          (row missing (lit "b") false)
          replace_to_dst
          left
          right
          false).actions)
      (length
        (build_single_action_plan ascii
          (row missing (lit "b") false)
          replace_to_dst
          left
          right
          false).skipped)
build_single_action_plan-IsOneOutcome_example =
    build_single_action_plan-IsOneOutcome ascii (row missing (lit "b") false) replace_to_dst left
      right false
