-- ===== src/Session/Resume/Sides.antt =====
-- What src/Sync/SyncPlan.cpp plans for a row that src/Session/ResumePlan.cpp rebuilt from a saved
-- session: such a row does not say of which types its sides are.
use mathlib.Core.Path.{subst}
use check_sync_files.Common.{ℕ, ◌≡◌, sym, refl, false}
use check_sync_files.Text.{WString}
use check_sync_files.Windows.{Win}
use check_sync_files.Path.{fold_for_compare}
use check_sync_files.Entry.{plain}
use check_sync_files.Result.{missing, extra}
use check_sync_files.Session.{JournalEntry}
use check_sync_files.Session.Resume.{reused_row, reused_file_result}
use check_sync_files.Sync.Plan.{
  file_copy, file_delete, OneSide, make_action, schedule, allow_extra, append_missing_like,
  append_extra_like,
}
use check_sync_files.Sync.Build.{Build, plan_status}

-- A regular file of a size.
abbrev pub file_side : ℕ → OneSide
file_side size = record { is_dir = false; kind = plain; bytes = size }

module _ (w : Win) (root_a root_b : WString) (e : JournalEntry) (b : Build) where
  -- A reused row of a path that is missing at the destination is planned as the copy of a regular
  -- file, also where the saved entry is a directory.
  pub plan_status-reused_missing :
      e.verdict ≡ missing
      → (plan_status w missing (reused_file_result e root_a root_b) b).draft
        ≡ schedule (make_action file_copy e.relative_path (file_side e.size_a)) b.draft
  unfolding plan_status reused_file_result append_missing_like reused_row
  plan_status-reused_missing h =
      subst
        (λ v.
          (plan_status w missing (reused_row v e root_a root_b) b).draft
          ≡ schedule (make_action file_copy e.relative_path (file_side e.size_a)) b.draft)
        (sym h) refl

  -- A reused row of a path that only the destination has is planned as the deletion of a regular
  -- file, also where the saved entry is a directory.
  pub plan_status-reused_extra :
      e.verdict ≡ extra
      → (plan_status w extra (reused_file_result e root_a root_b) b).draft
        ≡ schedule
            (make_action file_delete e.relative_path (file_side 0))
            (allow_extra (fold_for_compare w e.relative_path) b.draft)
  unfolding plan_status reused_file_result append_extra_like reused_row
  plan_status-reused_extra h =
      subst
        (λ v.
          (plan_status w extra (reused_row v e root_a root_b) b).draft
          ≡ schedule (make_action file_delete e.relative_path (file_side 0))
              (allow_extra (fold_for_compare w e.relative_path) b.draft))
        (sym h) refl
