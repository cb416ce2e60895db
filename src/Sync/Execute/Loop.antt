-- ===== src/Sync/Execute/Loop.antt =====
-- `ExecutePlan` of src/Sync/SyncExecutor.cpp: the step of one action, and the loop.
use check_sync_files.Common.{
  ℕ, Bool, true, false, ◌&&◌, ◌||◌, not, List, [], ◌∷◌, ◌++◌, map, ltb, if◌then◌else◌,
}
use check_sync_files.Text.{WString, empty, lit}
use check_sync_files.Windows.{Win}
use check_sync_files.Entry.{inc64}
use check_sync_files.Numbers.{to_wstring}
use check_sync_files.State.{Action, Attempt, pure, ◌>>=◌, attempt, succeed, refuse, branch}
use check_sync_files.Sync.Path.{resolve_within_root}
use check_sync_files.Sync.Plan.{
  SyncOp, file_copy, file_replace, file_delete, dir_create, dir_delete, link_create, link_replace,
  link_delete, SyncAction, SyncPlan,
}
use check_sync_files.Sync.Fs.{
  LiveKind, absent, file, dir, link_file, link_dir, unsupported_reparse, other, SyncFs,
}
use check_sync_files.Sync.Execute.{
  SyncActionResult, is_disk_full_code, failed, done, skip, as_cancelled, is_link_dir, Verdict,
  go_on, stop_cancelled, stop_disk_full, Step, next, run_copy, run_link,
}

pub record SyncReport : Type 0 where
  pub items : List SyncActionResult
  pub done_count : ℕ
  pub failed_count : ℕ
  pub skipped_count : ℕ
  pub cancelled : Bool
  pub disk_full_abort : Bool

abbrev pub new_report : SyncReport
new_report = record {
  items = [];
  done_count = 0;
  failed_count = 0;
  skipped_count = 0;
  cancelled = false;
  disk_full_abort = false;
}

-- `finishItem`.
unfoldable pub finish_item : SyncActionResult → SyncReport → SyncReport
finish_item r report =
    let items' = report.items ++ (r ∷ []) in
    if r.ok
    then record report { items = items'; done_count = inc64 report.done_count }
    else if r.skipped
    then record report { items = items'; skipped_count = inc64 report.skipped_count }
    else record report { items = items'; failed_count = inc64 report.failed_count }

-- `abortRemaining`, over the actions that are left.
unfoldable pub abort_remaining : List SyncAction → Bool → Bool → WString → SyncReport → SyncReport
abort_remaining rest cancelled disk_full why report = record report {
  items = report.items ++ map (λ a. as_cancelled (failed a why)) rest;
  cancelled = cancelled;
  disk_full_abort = disk_full;
}

-- The operations that need no source path.
abbrev pub is_delete : SyncOp → Bool
is_delete file_delete = true
is_delete dir_delete = true
is_delete link_delete = true
is_delete _ = false

-- The report of a plan that is too big for the volume: one item, with the default operation.
unfoldable pub no_space_report : ℕ → ℕ → SyncReport
no_space_report needed free = record new_report {
  items =
      record {
        op = file_copy;
        relative_path = [];
        ok = false;
        skipped = false;
        cancelled = false;
        message =
            lit "spazio insufficiente: servono circa "
            ++ (to_wstring needed
                ++ (lit " byte, liberi "
                    ++ (to_wstring free ++ lit ". Sincronizzazione non avviata.")));
      }
      ∷ [];
  failed_count = 1;
  disk_full_abort = true;
}

module _ {S : Type 0} (w : Win) (fs : SyncFs S) where
  -- A failed copy ends the run when the disk is full.
  unfoldable pub copy_step : SyncPlan → SyncAction → WString → WString → Action S Step
  copy_step plan a src dst = run_copy w fs plan a src dst >>= λ r. fs.last_error >>= λ code.
      pure (record {
        result = r;
        verdict =
            if not r.ok && (not r.cancelled && is_disk_full_code code)
            then stop_disk_full
            else go_on;
      })

  -- `DeleteFileOne` clears the message when it succeeds, so the row has none.
  unfoldable pub delete_file_step : SyncPlan → SyncAction → WString → Action S Step
  delete_file_step plan a dst =
      attempt (fs.delete_file_one plan.dest_root dst) (λ err. pure (next (failed a err)))
        (pure (next (done a [])))

  -- `DeleteLink` with the kind of a second look.
  unfoldable pub unlink_live : WString → Attempt S
  unlink_live dst = do kind ← fs.stat_live_kind dst; fs.delete_link dst (is_link_dir kind)

  unfoldable pub clear_dir_kind : SyncPlan → WString → LiveKind → Attempt S
  clear_dir_kind plan dst absent = succeed
  clear_dir_kind plan dst dir = succeed
  clear_dir_kind plan dst file = fs.delete_file_one plan.dest_root dst
  clear_dir_kind plan dst link_file = unlink_live dst
  clear_dir_kind plan dst link_dir = unlink_live dst
  clear_dir_kind plan dst unsupported_reparse =
      refuse (lit "destinazione non supportata (preservata): " ++ dst)
  clear_dir_kind plan dst other = refuse (lit "destinazione non supportata (preservata): " ++ dst)

  -- What stands at the place of a directory that is to be created gives way, or refuses.
  unfoldable pub clear_dir_dest : SyncPlan → WString → Attempt S
  clear_dir_dest plan dst = do kind ← fs.stat_live_kind dst; clear_dir_kind plan dst kind

  unfoldable pub create_dir_step : SyncPlan → SyncAction → WString → Action S Step
  create_dir_step plan a dst =
      attempt (clear_dir_dest plan dst) (λ err. pure (next (failed a err)))
        (attempt (fs.create_dir_all plan.dest_root dst) (λ err. pure (next (failed a err)))
          (pure (next (done a []))))

  unfoldable pub delete_dir_step : SyncPlan → SyncAction → WString → Action S Step
  delete_dir_step plan a dst = do
    o ← fs.delete_dir_guarded plan.dest_root dst plan.extra_folded_rels
    branch o.cancelled
        (pure (record { result = as_cancelled (failed a o.message); verdict = stop_cancelled }))
        (branch o.ok (pure (next (done a [])))
          (branch o.skipped (pure (next (skip a o.message))) (pure (next (failed a o.message)))))

  unfoldable pub delete_live_link : SyncAction → WString → LiveKind → Action S Step
  delete_live_link a dst absent = pure (next (done a (lit "gia assente")))
  delete_live_link a dst link_file =
      attempt (fs.delete_link dst false) (λ err. pure (next (failed a err)))
        (pure (next (done a [])))
  delete_live_link a dst link_dir =
      attempt (fs.delete_link dst true) (λ err. pure (next (failed a err)))
        (pure (next (done a [])))
  delete_live_link a dst unsupported_reparse =
      pure (next (failed a (lit "reparse point non supportato (preservato): " ++ dst)))
  delete_live_link a dst file =
      pure (next (failed a (lit "non e piu un link, preservato: " ++ dst)))
  delete_live_link a dst dir = pure (next (failed a (lit "non e piu un link, preservato: " ++ dst)))
  delete_live_link a dst other =
      pure (next (failed a (lit "non e piu un link, preservato: " ++ dst)))

  unfoldable pub delete_link_step : SyncPlan → SyncAction → WString → Action S Step
  delete_link_step plan a dst = do
    why ← fs.check_parent_chain plan.dest_root dst
    branch (not (empty why))
        (pure (next (failed a (lit "link non raggiungibile in sicurezza: " ++ why))))
        (do kind ← fs.stat_live_kind dst; delete_live_link a dst kind)

  unfoldable pub run_op : SyncOp → SyncPlan → SyncAction → WString → WString → Action S Step
  run_op file_copy plan a src dst = copy_step plan a src dst
  run_op file_replace plan a src dst = copy_step plan a src dst
  run_op file_delete plan a src dst = delete_file_step plan a dst
  run_op dir_create plan a src dst = create_dir_step plan a dst
  run_op dir_delete plan a src dst = delete_dir_step plan a dst
  run_op link_create plan a src dst = run_link w fs plan a src dst false >>= λ r. pure (next r)
  run_op link_replace plan a src dst = run_link w fs plan a src dst true >>= λ r. pure (next r)
  run_op link_delete plan a src dst = delete_link_step plan a dst

  -- The body of the loop: an action whose paths leave the roots is refused.
  unfoldable pub run_action : SyncPlan → SyncAction → Action S Step
  run_action plan a =
      let src = resolve_within_root w plan.source_root a.relative_path in
      let dst = resolve_within_root w plan.dest_root a.relative_path in
      branch (not (is_delete a.op) && empty src || empty dst)
        (pure (next (failed a (lit "percorso fuori radice")))) (run_op a.op plan a src dst)

  -- What follows an action, by its verdict.
  unfoldable pub after :
      (SyncReport → Action S SyncReport)
      → List SyncAction
      → SyncReport
      → SyncActionResult
      → Verdict
      → Action S SyncReport
  after continue rest report r go_on = continue (finish_item r report)
  after continue rest report r stop_cancelled =
      pure (abort_remaining rest true false (lit "interrotta dall'utente") (finish_item r report))
  after continue rest report r stop_disk_full =
      pure (abort_remaining rest true true (lit "interrotta: disco pieno") (finish_item r report))

  -- The loop: the flag is read before each action.
  unfoldable pub execute_from : SyncPlan → List SyncAction → SyncReport → Action S SyncReport
  execute_from plan [] report = pure report
  execute_from plan (a ∷ rest) report =
      let continue = execute_from plan rest in
      do
        stopped ← fs.was_cancelled
        branch stopped
            (pure (abort_remaining (a ∷ rest) true false (lit "interrotta dall'utente") report))
            (do step ← run_action plan a; after continue rest report step.result step.verdict)

  -- The free-space test comes first, when there is something to copy.
  unfoldable pub execute_plan : SyncPlan → Action S SyncReport
  execute_plan plan =
      let needed = plan.summary.bytes_to_copy in
      let execute = execute_from plan plan.actions new_report in
      branch (ltb 0 needed)
        (do
          free ← fs.free_bytes_on_volume plan.dest_root
          branch (ltb 0 free && ltb free needed) (pure (no_space_report needed free)) execute)
        execute
