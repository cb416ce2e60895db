-- ===== src/Sync/Fs.antt =====
-- The operations on the live filesystem that the executor calls: src/Sync/SyncFs.h,
-- src/Sync/SyncPath.h, the links of src/Filesystem/ReparsePoint.h, and the few calls it makes to
-- Windows itself. `S` is the state of the machine, with the last error of the thread and the cancel
-- flag, which another thread may set between two calls.
use check_sync_files.Common.{ℕ, Bool, List}
use check_sync_files.Text.{WString}
use check_sync_files.Entry.{ReparseKind}
use check_sync_files.State.{Action, Attempt}

pub data LiveKind : Type 0 where
  absent file dir link_file link_dir unsupported_reparse other : LiveKind

pub record DeleteDirOutcome : Type 0 where
  pub ok : Bool
  pub skipped : Bool
  pub cancelled : Bool
  pub message : WString

-- Roots stand before the path, as in the source. `clear_attributes` and `remove_directory` are
-- `SetFileAttributesW(_, FILE_ATTRIBUTE_NORMAL)` and `RemoveDirectoryW`; `was_cancelled` is
-- `WasCancelled(cancel)`.
pub record SyncFs (S : Type 0) : Type 0 where
  pub was_cancelled : Action S Bool
  pub last_error : Action S ℕ
  pub set_last_error : ℕ → Action S (Unit {0})
  pub stat_live_kind : WString → Action S LiveKind
  pub check_parent_chain : WString → WString → Action S WString
  pub read_link_target : WString → Action S WString
  pub free_bytes_on_volume : WString → Action S ℕ
  pub clear_attributes : WString → Action S (Unit {0})
  pub remove_directory : WString → Action S Bool
  pub delete_link : WString → Bool → Attempt S
  pub create_link : WString → WString → ReparseKind → Attempt S
  pub copy_file_direct : WString → WString → WString → WString → Attempt S
  pub create_dir_all : WString → WString → Attempt S
  pub delete_file_one : WString → WString → Attempt S
  pub delete_dir_guarded : WString → WString → List WString → Action S DeleteDirOutcome
