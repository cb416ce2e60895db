-- ===== src/Sync/Execute/Contained.antt =====
-- What the executor of src/Sync/SyncExecutor.cpp can reach: which paths it hands to the operations
-- that change the filesystem.
use check_sync_files.Common.{true, false, ◌≡◌, List, [], ◌∷◌, inl, inr, arith, Bool-cases}
use check_sync_files.Text.{WString}
use check_sync_files.Windows.{Win}
use check_sync_files.State.{Action}
use check_sync_files.State.Laws.{
  Ensures, Anything, >>=-Ensures, attempt-Ensures, branch-Ensures, branch_split,
}
use check_sync_files.Sync.Path.{resolve_within_root}
use check_sync_files.Sync.Plan.{
  SyncOp, file_copy, file_replace, file_delete, dir_create, dir_delete, link_create, link_replace,
  link_delete, SyncAction, SyncPlan,
}
use check_sync_files.Sync.Fs.{SyncFs}
use check_sync_files.Sync.Execute.{SyncActionResult, Verdict, go_on, stop_cancelled, stop_disk_full}
use check_sync_files.Sync.Execute.Loop.{
  SyncReport, new_report, is_delete, after, copy_step, delete_file_step, delete_dir_step,
  delete_link_step, run_op, run_action, execute_from, execute_plan,
}
use check_sync_files.Sync.Execute.Below.{Below, resolve_within_root-Below}
use check_sync_files.Sync.Execute.Spares.{
  Spares, pure-Keeps, run_copy-Keeps, run_link-Keeps, create_dir_step-Keeps, delete_live_link-Keeps,
}

module _ {S : Type 0} (w : Win) (fs : SyncFs S) (plan : SyncPlan) {I : S → Type 0}
    (k : Spares fs plan I) where
  module _ (dst : WString) (below : Below plan.dest_root dst) where
    -- The operations that take no source path.
    delete_op-Keeps :
        (a : SyncAction) (src : WString) (op : SyncOp)
        → is_delete op ≡ true
        → Ensures I Anything (run_op w fs op plan a src dst)
    unfolding run_op delete_file_step delete_dir_step delete_link_step
    delete_op-Keeps a src file_delete h =
        attempt-Ensures (k.delete_file_one dst below) (λ err. pure-Keeps _) (pure-Keeps _)
    delete_op-Keeps a src dir_delete h =
        >>=-Ensures (k.delete_dir_guarded dst plan.extra_folded_rels below) λ o _.
          branch-Ensures _ (pure-Keeps _)
            (branch-Ensures _ (pure-Keeps _) (branch-Ensures _ (pure-Keeps _) (pure-Keeps _)))
    delete_op-Keeps a src link_delete h =
        >>=-Ensures (k.check_parent_chain plan.dest_root dst) λ why _.
          branch-Ensures _ (pure-Keeps _) (
            >>=-Ensures (k.stat_live_kind dst)
              λ kind _. delete_live_link-Keeps w fs plan k dst below a kind)
    delete_op-Keeps a src file_copy h = cc
    delete_op-Keeps a src file_replace h = cc
    delete_op-Keeps a src dir_create h = cc
    delete_op-Keeps a src link_create h = cc
    delete_op-Keeps a src link_replace h = cc

    write_op-Keeps :
        (a : SyncAction) (src : WString) (op : SyncOp)
        → is_delete op ≡ false
        → Below plan.source_root src
        → Ensures I Anything (run_op w fs op plan a src dst)
    unfolding run_op copy_step
    write_op-Keeps a src file_copy h from =
        >>=-Ensures (run_copy-Keeps w fs plan k dst below a src from)
          λ r _. >>=-Ensures k.last_error λ code _. pure-Keeps _
    write_op-Keeps a src file_replace h from =
        >>=-Ensures (run_copy-Keeps w fs plan k dst below a src from)
          λ r _. >>=-Ensures k.last_error λ code _. pure-Keeps _
    write_op-Keeps a src dir_create h from = create_dir_step-Keeps w fs plan k dst below a
    write_op-Keeps a src link_create h from =
        >>=-Ensures (run_link-Keeps w fs plan k dst below a src false) λ r _. pure-Keeps _
    write_op-Keeps a src link_replace h from =
        >>=-Ensures (run_link-Keeps w fs plan k dst below a src true) λ r _. pure-Keeps _
    write_op-Keeps a src file_delete h from = cc
    write_op-Keeps a src dir_delete h from = cc
    write_op-Keeps a src link_delete h from = cc

  run_action-Keeps : (a : SyncAction) → Ensures I Anything (run_action w fs plan a)
  unfolding run_action
  run_action-Keeps a =
      branch_split _ (λ _. pure-Keeps _)
        (λ inside.
          let src = resolve_within_root w plan.source_root a.relative_path in
          let dst = resolve_within_root w plan.dest_root a.relative_path in
          let below : Below plan.dest_root dst =
            resolve_within_root-Below w plan.dest_root a.relative_path (ground arith) in
          elim (Bool-cases (is_delete a.op)) [
            | inl t ↦ delete_op-Keeps dst below a src a.op t
            | inr f ↦
                write_op-Keeps dst below a src a.op f
                  (resolve_within_root-Below w plan.source_root a.relative_path (ground arith))
          ])

  after-Keeps :
      (continue : SyncReport → Action S SyncReport) (rest : List SyncAction) (report : SyncReport)
      (r : SyncActionResult) (v : Verdict)
      → ((report' : SyncReport) → Ensures I Anything (continue report'))
      → Ensures I Anything (after w fs continue rest report r v)
  unfolding after
  after-Keeps continue rest report r go_on h = h _
  after-Keeps continue rest report r stop_cancelled h = pure-Keeps _
  after-Keeps continue rest report r stop_disk_full h = pure-Keeps _

  execute_from-Keeps :
      (actions : List SyncAction) (report : SyncReport)
      → Ensures I Anything (execute_from w fs plan actions report)
  unfolding execute_from
  execute_from-Keeps [] report = pure-Keeps _
  execute_from-Keeps (a ∷ rest) report = >>=-Ensures k.was_cancelled λ stopped _.
      branch-Ensures _ (pure-Keeps _) (
        >>=-Ensures (run_action-Keeps a)
          λ step _. after-Keeps _ rest report step.result step.verdict (execute_from-Keeps rest))

  -- What holds of the machine, and is kept by the operations on paths below the destination root,
  -- holds when the plan has been executed: the executor hands no other path to an operation that
  -- changes the filesystem, whatever the plan's actions and the answers of the machine are. Each
  -- path it hands over is the root followed by components that each name an entry.
  pub execute_plan-Keeps : (s : S) → I s → I ((execute_plan w fs plan s).1)
  unfolding execute_plan
  execute_plan-Keeps s =
      (branch-Ensures _
          (>>=-Ensures (k.free_bytes_on_volume plan.dest_root)
            λ free _. branch-Ensures _ (pure-Keeps _) (execute_from-Keeps plan.actions new_report))
          (execute_from-Keeps plan.actions new_report)).keeps
        s
