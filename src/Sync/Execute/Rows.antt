-- ===== src/Sync/Execute/Rows.antt =====
-- The rows of `ExecutePlan` (src/Sync/SyncExecutor.cpp): the row of an action is about that action.
use check_sync_files.Common.{Bool, true, false, ◌≡◌, refl, [], ◌&&◌}
use check_sync_files.Text.{WString}
use check_sync_files.Windows.{Win}
use check_sync_files.State.{Action, pure}
use check_sync_files.State.Laws.{
  Ensures, Anything, pure-Ensures, >>=-Ensures, attempt-Ensures, branch-Ensures,
}
use check_sync_files.Sync.Path.{resolve_within_root}
use check_sync_files.Sync.Plan.{
  SyncOp, file_copy, file_replace, file_delete, dir_create, dir_delete, link_create, link_replace,
  link_delete, SyncAction, SyncPlan,
}
use check_sync_files.Sync.Fs.{
  LiveKind, absent, file, dir, link_file, link_dir, unsupported_reparse, other, SyncFs,
}
use check_sync_files.Sync.Execute.{
  SyncActionResult, failed, done, skip, as_cancelled, next, Step, run_copy, write_link, run_link,
  copy_failed, replace_link,
}
use check_sync_files.Sync.Execute.Loop.{
  copy_step, delete_file_step, create_dir_step, delete_dir_step, delete_live_link, delete_link_step,
  run_op, run_action,
}

-- The row of an action: its operation and path, and not done and cancelled, or done and skipped.
pub record IsFor (a : SyncAction) (r : SyncActionResult) : Type 0 where
  pub op : r.op ≡ a.op
  pub path : r.relative_path ≡ a.relative_path
  pub one : (r.ok && r.cancelled) ≡ false
  pub other : (r.ok && r.skipped) ≡ false

abbrev StepFor : SyncAction → Step → Type 0
StepFor a step = IsFor a step.result

abbrev Ok : {S : Type 0} → S → Type 0
Ok s = Unit {0}

-- Nothing is said of what is called.
any-Ensures : {S A : Type 0} (m : Action S A) → Ensures Ok Anything m
any-Ensures m = record { returns = λ s i. tt; keeps = λ s i. tt }

failed_row : (a : SyncAction) (m : WString) → IsFor a (failed a m)
failed_row a m = record { op = refl; path = refl; one = refl; other = refl }

done_row : (a : SyncAction) (m : WString) → IsFor a (done a m)
done_row a m = record { op = refl; path = refl; one = refl; other = refl }

skip_row : (a : SyncAction) (m : WString) → IsFor a (skip a m)
skip_row a m = record { op = refl; path = refl; one = refl; other = refl }

cancelled_row : (a : SyncAction) (m : WString) → IsFor a (as_cancelled (failed a m))
cancelled_row a m = record { op = refl; path = refl; one = refl; other = refl }

module _ {S : Type 0} (w : Win) (fs : SyncFs S) (plan : SyncPlan) (a : SyncAction) where
  failed-Ensures : (err : WString) → Ensures {S = S} Ok (IsFor a) (pure (failed a err))
  failed-Ensures err = pure-Ensures _ (failed_row a err)

  run_copy-IsFor : (src dst : WString) → Ensures Ok (IsFor a) (run_copy w fs plan a src dst)
  unfolding run_copy copy_failed
  run_copy-IsFor src dst = attempt-Ensures (any-Ensures _) failed-Ensures (
      attempt-Ensures (any-Ensures _) failed-Ensures (
        attempt-Ensures (any-Ensures _)
          (λ err. >>=-Ensures (any-Ensures _) λ code _. >>=-Ensures (any-Ensures _) λ aborted _.
            branch-Ensures _ (pure-Ensures _ (cancelled_row a err)) (failed-Ensures err))
          (pure-Ensures _ (done_row a []))))

  run_link-IsFor :
      (src dst : WString) (replace : Bool)
      → Ensures Ok (IsFor a) (run_link w fs plan a src dst replace)
  unfolding run_link replace_link write_link
  run_link-IsFor src dst replace = >>=-Ensures (any-Ensures _) λ target _.
      branch-Ensures _ (failed-Ensures _) (
        branch-Ensures _ (failed-Ensures _) (
          >>=-Ensures (any-Ensures _) λ why _. branch-Ensures _ (failed-Ensures _) (
            attempt-Ensures (any-Ensures _) failed-Ensures (
              >>=-Ensures (any-Ensures _) λ clear _.
                attempt-Ensures (any-Ensures _) failed-Ensures (
                  attempt-Ensures (any-Ensures _) (λ err. failed-Ensures _)
                    (pure-Ensures _ (done_row a [])))))))

  next-failed : (err : WString) → Ensures {S = S} Ok (StepFor a) (pure (next (failed a err)))
  next-failed err = pure-Ensures _ (failed_row a err)

  next-done : (note : WString) → Ensures {S = S} Ok (StepFor a) (pure (next (done a note)))
  next-done note = pure-Ensures _ (done_row a note)

  copy_step-IsFor : (src dst : WString) → Ensures Ok (StepFor a) (copy_step w fs plan a src dst)
  unfolding copy_step
  copy_step-IsFor src dst =
      >>=-Ensures (run_copy-IsFor src dst)
        λ r h. >>=-Ensures (any-Ensures _) λ code _. pure-Ensures _ h

  delete_file_step-IsFor :
      (dst : WString) → Ensures Ok (StepFor a) (delete_file_step w fs plan a dst)
  unfolding delete_file_step
  delete_file_step-IsFor dst = attempt-Ensures (any-Ensures _) next-failed (next-done [])

  create_dir_step-IsFor : (dst : WString) → Ensures Ok (StepFor a) (create_dir_step w fs plan a dst)
  unfolding create_dir_step
  create_dir_step-IsFor dst =
      attempt-Ensures (any-Ensures _) next-failed
        (attempt-Ensures (any-Ensures _) next-failed (next-done []))

  delete_dir_step-IsFor : (dst : WString) → Ensures Ok (StepFor a) (delete_dir_step w fs plan a dst)
  unfolding delete_dir_step
  delete_dir_step-IsFor dst = >>=-Ensures (any-Ensures _) λ o _.
      branch-Ensures _ (pure-Ensures _ (cancelled_row a o.message)) (
        branch-Ensures _ (next-done [])
          (branch-Ensures _ (pure-Ensures _ (skip_row a o.message)) (next-failed o.message)))

  delete_live_link-IsFor :
      (dst : WString) (kind : LiveKind) → Ensures Ok (StepFor a) (delete_live_link w fs a dst kind)
  unfolding delete_live_link
  delete_live_link-IsFor dst absent = next-done _
  delete_live_link-IsFor dst link_file = attempt-Ensures (any-Ensures _) next-failed (next-done [])
  delete_live_link-IsFor dst link_dir = attempt-Ensures (any-Ensures _) next-failed (next-done [])
  delete_live_link-IsFor dst unsupported_reparse = next-failed _
  delete_live_link-IsFor dst file = next-failed _
  delete_live_link-IsFor dst dir = next-failed _
  delete_live_link-IsFor dst other = next-failed _

  delete_link_step-IsFor :
      (dst : WString) → Ensures Ok (StepFor a) (delete_link_step w fs plan a dst)
  unfolding delete_link_step
  delete_link_step-IsFor dst = >>=-Ensures (any-Ensures _) λ why _.
      branch-Ensures _ (next-failed _)
        (>>=-Ensures (any-Ensures _) λ kind _. delete_live_link-IsFor dst kind)

  run_op-IsFor :
      (op : SyncOp) (src dst : WString) → Ensures Ok (StepFor a) (run_op w fs op plan a src dst)
  unfolding run_op
  run_op-IsFor file_copy src dst = copy_step-IsFor src dst
  run_op-IsFor file_replace src dst = copy_step-IsFor src dst
  run_op-IsFor file_delete src dst = delete_file_step-IsFor dst
  run_op-IsFor dir_create src dst = create_dir_step-IsFor dst
  run_op-IsFor dir_delete src dst = delete_dir_step-IsFor dst
  run_op-IsFor link_create src dst =
      >>=-Ensures (run_link-IsFor src dst false) λ r h. pure-Ensures _ h
  run_op-IsFor link_replace src dst =
      >>=-Ensures (run_link-IsFor src dst true) λ r h. pure-Ensures _ h
  run_op-IsFor link_delete src dst = delete_link_step-IsFor dst

  pub run_action-IsFor : Ensures Ok (StepFor a) (run_action w fs plan a)
  unfolding run_action
  run_action-IsFor = branch-Ensures _ (next-failed _) (
      run_op-IsFor a.op (resolve_within_root w plan.source_root a.relative_path)
        (resolve_within_root w plan.dest_root a.relative_path))
