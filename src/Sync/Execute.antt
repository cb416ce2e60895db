-- ===== src/Sync/Execute.antt =====
-- src/Sync/SyncExecutor.cpp: the pieces of one action. The progress callback is left out.
pub mod Loop
pub mod Runs
pub mod Rows
pub mod Account
pub mod Below
pub mod Spares
pub mod Contained
use mathlib.Core.List.{reverse}
use check_sync_files.Common.{
  ℕ, ◌+◌, Bool, true, false, ◌&&◌, ◌||◌, not, Option, none, some, List, [], ◌∷◌, ◌++◌, map, ltb,
  ◌==◌, if◌then◌else◌, length,
}
use check_sync_files.Text.{WString, backslash, colon, empty, lit}
use check_sync_files.Windows.{Win}
use check_sync_files.Path.{add_long_path_prefix}
use check_sync_files.Entry.{ReparseKind, plain, junction}
use check_sync_files.Reparse.{rebase_link_target_for_write}
use check_sync_files.State.{Action, Attempt, pure, ◌>>=◌, ◌>>◌, attempt, succeed, refuse, branch}
use check_sync_files.Sync.Path.{resolve_within_root}
use check_sync_files.Sync.Plan.{
  SyncOp, file_copy, file_replace, file_delete, dir_create, dir_delete, link_create, link_replace,
  link_delete, SyncAction, SyncPlan,
}
use check_sync_files.Sync.Fs.{
  LiveKind, absent, file, dir, link_file, link_dir, unsupported_reparse, other, SyncFs,
}

pub record SyncActionResult : Type 0 where
  pub op : SyncOp
  pub relative_path : WString
  pub ok : Bool
  pub skipped : Bool
  pub cancelled : Bool
  pub message : WString

-- `SetLastError`'s and `GetLastError`'s codes: ERROR_SUCCESS, ERROR_ACCESS_DENIED,
-- ERROR_HANDLE_DISK_FULL, ERROR_DISK_FULL, ERROR_REQUEST_ABORTED.
abbrev pub is_disk_full_code : ℕ → Bool
is_disk_full_code code = code == 112 || code == 39

-- `Fail`, `Done` and `Skip`.
abbrev pub failed : SyncAction → WString → SyncActionResult
failed a message = record {
  op = a.op;
  relative_path = a.relative_path;
  ok = false;
  skipped = false;
  cancelled = false;
  message = message;
}

abbrev pub done : SyncAction → WString → SyncActionResult
done a message = record {
  op = a.op;
  relative_path = a.relative_path;
  ok = true;
  skipped = false;
  cancelled = false;
  message = message;
}

abbrev pub skip : SyncAction → WString → SyncActionResult
skip a message = record {
  op = a.op;
  relative_path = a.relative_path;
  ok = false;
  skipped = true;
  cancelled = false;
  message = message;
}

abbrev pub as_cancelled : SyncActionResult → SyncActionResult
as_cancelled r = record r { cancelled = true }

-- `find_last_of(L'\\')` with the `substr` before it.
unfoldable pub parent_of : WString → Option WString
parent_of [] = none
parent_of (c ∷ s) = elim (parent_of s) [
  | some parent ↦ some (c ∷ parent)
  | none ↦ if c == backslash then some [] else none
]

-- `target.size() >= 2 && target[1] == L':'`.
abbrev pub is_drive_path : WString → Bool
is_drive_path (c ∷ d ∷ s) = d == colon
is_drive_path s = false

abbrev pub is_junction : ReparseKind → Bool
is_junction junction = true
is_junction _ = false

abbrev pub is_link_dir : LiveKind → Bool
is_link_dir link_dir = true
is_link_dir _ = false

abbrev pub is_absent : LiveKind → Bool
is_absent absent = true
is_absent _ = false

-- What an action leads to: the next action, or the end of the run.
pub data Verdict : Type 0 where
  go_on stop_cancelled stop_disk_full : Verdict

pub record Step : Type 0 where
  pub result : SyncActionResult
  pub verdict : Verdict

abbrev pub next : SyncActionResult → Step
next r = record { result = r; verdict = go_on }

module _ {S : Type 0} (w : Win) (fs : SyncFs S) where
  -- `IsCancelCode`: the flag is read only for ERROR_REQUEST_ABORTED.
  unfoldable pub is_cancel_code : ℕ → Action S Bool
  is_cancel_code code = branch (code == 1235) fs.was_cancelled (pure false)

  -- A directory at the place of a file gives way when it is empty.
  unfoldable pub replace_empty_dir : WString → Attempt S
  replace_empty_dir dst = do
    removed ← fs.remove_directory (add_long_path_prefix dst)
    branch removed (fs.set_last_error 0 >> succeed) (do
      code ← fs.last_error
      fs.set_last_error code
      refuse (lit "la destinazione e una cartella non vuota: " ++ dst))

  -- The link at the place of a file is removed; a failure has an error code in any case.
  unfoldable pub unlink_dest : WString → Attempt S
  unlink_dest dst = do
    kind ← fs.stat_live_kind dst
    attempt (fs.delete_link dst (is_link_dir kind))
        (λ err. do
          code ← fs.last_error
          branch (code == 0) (fs.set_last_error 5) (pure tt)
          refuse err)
        succeed

  unfoldable pub prepare_kind : WString → LiveKind → Attempt S
  prepare_kind dst absent = fs.set_last_error 0 >> succeed
  prepare_kind dst file = do
    fs.clear_attributes (add_long_path_prefix dst)
    fs.set_last_error 0
    succeed
  prepare_kind dst link_file = unlink_dest dst
  prepare_kind dst link_dir = unlink_dest dst
  prepare_kind dst dir = replace_empty_dir dst
  prepare_kind dst unsupported_reparse = do
    fs.set_last_error 5
    refuse (lit "destinazione e un reparse point non supportato (preservato): " ++ dst)
  prepare_kind dst other = do fs.set_last_error 5; refuse (lit "destinazione illeggibile: " ++ dst)

  unfoldable pub prepare_file_dest : WString → Attempt S
  prepare_file_dest dst = do kind ← fs.stat_live_kind dst; prepare_kind dst kind

  abbrev pub ensure_dir : SyncPlan → WString → Option WString → Attempt S
  ensure_dir plan dst none = refuse (lit "percorso senza cartella: " ++ dst)
  ensure_dir plan dst (some parent) = fs.create_dir_all plan.dest_root parent

  unfoldable pub ensure_parent_dirs : SyncPlan → WString → Attempt S
  ensure_parent_dirs plan dst = ensure_dir plan dst (parent_of dst)

  -- A copy that the user interrupted is marked.
  unfoldable pub copy_failed : SyncAction → WString → Action S SyncActionResult
  copy_failed a err = do
    code ← fs.last_error
    aborted ← is_cancel_code code
    branch aborted (pure (as_cancelled (failed a err))) (pure (failed a err))

  unfoldable pub run_copy : SyncPlan → SyncAction → WString → WString → Action S SyncActionResult
  run_copy plan a src dst =
      attempt (ensure_parent_dirs plan dst) (λ err. pure (failed a err))
        (attempt (prepare_file_dest dst) (λ err. pure (failed a err))
          (attempt (fs.copy_file_direct plan.source_root src plan.dest_root dst) (copy_failed a)
            (pure (done a []))))

  unfoldable pub clear_link_kind : SyncPlan → WString → LiveKind → Attempt S
  clear_link_kind plan dst link_file = fs.delete_link dst false
  clear_link_kind plan dst link_dir = fs.delete_link dst true
  clear_link_kind plan dst file = fs.delete_file_one plan.dest_root dst
  clear_link_kind plan dst dir = do
    removed ← fs.remove_directory (add_long_path_prefix dst)
    branch removed succeed (refuse (lit "la destinazione e una cartella non vuota: " ++ dst))
  clear_link_kind plan dst absent = refuse (lit "destinazione non supportata (preservata): " ++ dst)
  clear_link_kind plan dst unsupported_reparse =
      refuse (lit "destinazione non supportata (preservata): " ++ dst)
  clear_link_kind plan dst other = refuse (lit "destinazione non supportata (preservata): " ++ dst)

  -- "Delete-first replace": what stands at the place of the link is removed.
  unfoldable pub clear_link_dest : SyncPlan → WString → Attempt S
  clear_link_dest plan dst = do kind ← fs.stat_live_kind dst; clear_link_kind plan dst kind

  -- `replace || StatLiveKind(dst) != LiveKind::Absent`.
  unfoldable pub must_clear : Bool → WString → Action S Bool
  must_clear replace dst =
      branch replace (pure true) (do kind ← fs.stat_live_kind dst; pure (not (is_absent kind)))

  unfoldable pub write_link : SyncPlan → SyncAction → WString → WString → Action S SyncActionResult
  write_link plan a target dst =
      attempt
        (fs.create_link dst (rebase_link_target_for_write w target plan.source_root plan.dest_root)
          a.link_kind)
        (λ err. pure (
          failed a
            (lit "link rimosso ma ricreazione fallita (rieseguire la sincronizzazione): " ++ err)))
        (pure (done a []))

  -- The part of `RunLink` that changes the destination.
  unfoldable pub replace_link :
      SyncPlan → SyncAction → WString → WString → Bool → Action S SyncActionResult
  replace_link plan a target dst replace =
      attempt (ensure_parent_dirs plan dst) (λ err. pure (failed a err))
        (do
          clear ← must_clear replace dst
          attempt (branch clear (clear_link_dest plan dst) succeed) (λ err. pure (failed a err))
              (write_link plan a target dst))

  unfoldable pub run_link :
      SyncPlan → SyncAction → WString → WString → Bool → Action S SyncActionResult
  run_link plan a src dst replace = do
    target ← fs.read_link_target src
    branch (empty target) (pure (failed a (lit "target del link sorgente illeggibile: " ++ src))) (
        branch (is_junction a.link_kind && not (is_drive_path target))
          (pure (failed a (lit "junction con target relativo non creabile: " ++ src)))
          (do
            why ← fs.check_parent_chain plan.source_root src
            branch (not (empty why))
                (pure (failed a (lit "sorgente non raggiungibile in sicurezza: " ++ why)))
                (replace_link plan a target dst replace)))
