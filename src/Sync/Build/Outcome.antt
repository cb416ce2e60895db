-- ===== src/Sync/Build/Outcome.antt =====
-- What one row of the comparison does to a plan that is being filled (src/Sync/SyncPlan.cpp): it is
-- skipped with a reason, or it schedules one action, or a clearing deletion and then one action.
use check_sync_files.Common.{◌≡◌, refl, true, false, arith, Bool, ◌&&◌, not, List, if_split}
use check_sync_files.Text.{WString, Bytes}
use check_sync_files.Windows.{Win}
use check_sync_files.Path.{fold_for_compare}
use check_sync_files.Entry.{is_plain}
use check_sync_files.Result.{
  Status, missing, extra, size_mismatch, content_mismatch, content_mismatch_partial, FileResult,
}
use check_sync_files.Sync.Plan.{
  SyncOp, file_copy, file_replace, file_delete, dir_create, dir_delete, link_create, link_replace,
  link_delete, Draft, OneSide, make_action, is_unplannable, push_skip, allow_extra, schedule,
  append_missing_like, append_extra_like, append_mismatch_replace, clear_dir,
}
use check_sync_files.Sync.Build.{Build, dest_side, plan_status}

abbrev pub is_dir_delete : SyncOp → Bool
is_dir_delete dir_delete = true
is_dir_delete _ = false

-- A plain directory.
abbrev pub is_plain_dir : OneSide → Bool
is_plain_dir side = is_plain side.kind && side.is_dir

-- `clears` is whether a directory may go.
module _ (w : Win) (rel : WString) (d : Draft) (clears : Bool) where
  pub data Outcome : Draft → Type 0 where
    skip : (reason : Bytes) → Outcome (push_skip w rel reason d)
    single :
        (op : SyncOp) (side : OneSide)
        → is_dir_delete op ≡ false
        → Outcome (schedule (make_action op rel side) d)
    cleared :
        (op : SyncOp) (src dst : OneSide)
        → is_dir_delete op ≡ false
        → clears ≡ true
        → Outcome (schedule (make_action op rel src) (schedule (make_action dir_delete rel dst) d))
    removed :
        (op : SyncOp) (dst : OneSide)
        → (is_dir_delete op ≡ true → clears ≡ true)
        → Outcome (schedule (make_action op rel dst) (allow_extra (fold_for_compare w rel) d))

  pub append_missing_like-Outcome :
      (src : OneSide) (allow_dir : Bool) → Outcome (append_missing_like w rel src allow_dir d)
  unfolding append_missing_like
  append_missing_like-Outcome src allow_dir =
      if_split Outcome (is_unplannable src) (λ _. skip _)
        λ _.
          if_split Outcome (not (is_plain src.kind)) (λ _. single link_create src refl)
            λ _.
              if_split Outcome src.is_dir
                (λ _.
                  if_split Outcome (not allow_dir) (λ _. skip _) (λ _. single dir_create src refl))
                (λ _. single file_copy src refl)

  -- The same of a draft that comes with the ancestors to schedule.
  record OutcomePair (r : Draft × List WString) : Type 0 where
    outcome : Outcome r.0

  pair : (d' : Draft) (dirs : List WString) → Outcome d' → OutcomePair (d', dirs)
  pair d' dirs h = record { outcome = h }

  pub append_extra_like-Outcome :
      (dst : OneSide) (dirs : List WString) (up : Bool)
      → (is_plain_dir dst ≡ true → clears ≡ true)
      → Outcome (append_extra_like w rel dst dirs up d).0
  unfolding append_extra_like
  append_extra_like-Outcome dst dirs up ok =
      (if_split OutcomePair (is_unplannable dst) (λ _. pair _ _ (skip _))
        λ _.
          if_split OutcomePair (not (is_plain dst.kind))
            (λ _. pair _ _ (removed link_delete dst λ e. cc))
            λ p.
              if_split OutcomePair dst.is_dir
                (λ q. pair _ _ (removed dir_delete dst λ _. ok (ground arith)))
                (λ _. pair _ _ (removed file_delete dst λ e. cc))).outcome

  write-Outcome :
      (op : SyncOp) (src dst : OneSide)
      → is_dir_delete op ≡ false
      → (is_plain_dir dst ≡ true → clears ≡ true)
      → Outcome (schedule (make_action op rel src) (clear_dir rel dst d))
  unfolding clear_dir
  write-Outcome op src dst other ok =
      if_split (λ e. Outcome (schedule (make_action op rel src) e))
        (is_plain dst.kind && dst.is_dir) (λ t. cleared op src dst other (ok t))
        (λ _. single op src other)

  pub append_mismatch_replace-Outcome :
      (src dst : OneSide)
      → (is_plain_dir dst ≡ true → clears ≡ true)
      → Outcome (append_mismatch_replace w rel src dst d)
  unfolding append_mismatch_replace
  append_mismatch_replace-Outcome src dst ok =
      if_split Outcome (is_unplannable src) (λ _. skip _)
        λ _.
          if_split Outcome (is_unplannable dst) (λ _. skip _)
            λ _.
              if_split Outcome (not (is_plain src.kind))
                (λ _. write-Outcome link_replace src dst refl ok)
                λ _.
                  if_split Outcome src.is_dir (λ _. single dir_create src refl)
                    (λ _. write-Outcome file_replace src dst refl ok)

-- A row that lets the directory at its path go: the destination holds a plain directory there, and
-- the row is extra, or the two sides differ.
unfoldable pub clears_dir : Status → FileResult → Bool
clears_dir extra r = is_plain_dir (dest_side r)
clears_dir size_mismatch r = is_plain_dir (dest_side r)
clears_dir content_mismatch r = is_plain_dir (dest_side r)
clears_dir content_mismatch_partial r = is_plain_dir (dest_side r)
clears_dir _ r = false

pub plan_status-Outcome :
    (w : Win) (r : FileResult) (s : Status) (b : Build)
    → Outcome w r.relative_path b.draft (clears_dir s r) (plan_status w s r b).draft
unfolding plan_status clears_dir
plan_status-Outcome w r missing b = append_missing_like-Outcome w _ b.draft _ _ _
plan_status-Outcome w r extra b = append_extra_like-Outcome w _ b.draft _ _ _ _ λ e. e
plan_status-Outcome w r size_mismatch b = append_mismatch_replace-Outcome w _ b.draft _ _ _ λ e. e
plan_status-Outcome w r content_mismatch b =
    append_mismatch_replace-Outcome w _ b.draft _ _ _ λ e. e
plan_status-Outcome w r content_mismatch_partial b =
    append_mismatch_replace-Outcome w _ b.draft _ _ _ λ e. e
plan_status-Outcome w r _ b = skip _
