-- ===== src/Sync/Execute/Spares.antt =====
-- What the pieces of an action of src/Sync/SyncExecutor.cpp keep true of the machine.
use check_sync_files.Common.{ℕ, Bool, true, false, List, inl, inr, Option-cases}
use check_sync_files.Text.{WString}
use check_sync_files.Windows.{Win}
use check_sync_files.Path.{add_long_path_prefix}
use check_sync_files.Entry.{ReparseKind}
use check_sync_files.State.{pure}
use check_sync_files.State.Laws.{
  Ensures, Anything, pure-Ensures, >>=-Ensures, >>-Ensures, attempt-Ensures, branch-Ensures,
}
use check_sync_files.Sync.Plan.{SyncAction, SyncPlan}
use check_sync_files.Sync.Fs.{
  LiveKind, absent, file, dir, link_file, link_dir, unsupported_reparse, other, SyncFs,
}
use check_sync_files.Sync.Execute.{
  parent_of, is_cancel_code, replace_empty_dir, unlink_dest, prepare_kind, prepare_file_dest,
  ensure_parent_dirs, copy_failed, run_copy, clear_link_kind, clear_link_dest, must_clear,
  write_link, replace_link, run_link,
}
use check_sync_files.Sync.Execute.Loop.{
  unlink_live, clear_dir_kind, clear_dir_dest, create_dir_step, delete_live_link,
}
use check_sync_files.Sync.Execute.Below.{Below, AtOrBelow, parent_of-Below}

-- A property of the state that the operations keep: those that read the machine, for any path; those
-- that change it, only for the roots of the plan and for paths below the destination root (a copy
-- also reads below the source root).
pub record Spares {S : Type 0} (fs : SyncFs S) (plan : SyncPlan) (I : S → Type 0) : Type 0 where
  pub was_cancelled : Ensures I Anything fs.was_cancelled
  pub last_error : Ensures I Anything fs.last_error
  pub set_last_error : (code : ℕ) → Ensures I Anything (fs.set_last_error code)
  pub stat_live_kind : (path : WString) → Ensures I Anything (fs.stat_live_kind path)
  pub check_parent_chain :
      (root path : WString) → Ensures I Anything (fs.check_parent_chain root path)
  pub read_link_target : (path : WString) → Ensures I Anything (fs.read_link_target path)
  pub free_bytes_on_volume : (path : WString) → Ensures I Anything (fs.free_bytes_on_volume path)
  pub clear_attributes :
      (path : WString)
      → Below plan.dest_root path
      → Ensures I Anything (fs.clear_attributes (add_long_path_prefix path))
  pub remove_directory :
      (path : WString)
      → Below plan.dest_root path
      → Ensures I Anything (fs.remove_directory (add_long_path_prefix path))
  pub delete_link :
      (path : WString) (is_dir : Bool)
      → Below plan.dest_root path
      → Ensures I Anything (fs.delete_link path is_dir)
  pub create_link :
      (path target : WString) (kind : ReparseKind)
      → Below plan.dest_root path
      → Ensures I Anything (fs.create_link path target kind)
  pub copy_file_direct :
      (src dst : WString)
      → Below plan.source_root src
      → Below plan.dest_root dst
      → Ensures I Anything (fs.copy_file_direct plan.source_root src plan.dest_root dst)
  pub create_dir_all :
      (path : WString)
      → AtOrBelow plan.dest_root path
      → Ensures I Anything (fs.create_dir_all plan.dest_root path)
  pub delete_file_one :
      (path : WString)
      → Below plan.dest_root path
      → Ensures I Anything (fs.delete_file_one plan.dest_root path)
  pub delete_dir_guarded :
      (path : WString) (allowed : List WString)
      → Below plan.dest_root path
      → Ensures I Anything (fs.delete_dir_guarded plan.dest_root path allowed)

pub pure-Keeps : {S A : Type 0} {I : S → Type 0} (a : A) → Ensures {S = S} I Anything (pure a)
pure-Keeps a = pure-Ensures a tt

module _ {S : Type 0} (w : Win) (fs : SyncFs S) (plan : SyncPlan) {I : S → Type 0}
    (k : Spares fs plan I) where
  module _ (dst : WString) (below : Below plan.dest_root dst) where
    unlink-Keeps : Ensures I Anything (unlink_dest w fs dst)
    unfolding unlink_dest
    unlink-Keeps = >>=-Ensures (k.stat_live_kind dst) λ kind _.
        attempt-Ensures (k.delete_link dst _ below)
          (λ err. >>=-Ensures k.last_error λ code _.
            >>-Ensures (branch-Ensures _ (k.set_last_error 5) (pure-Keeps _)) (pure-Keeps _))
          (pure-Keeps _)

    prepare_kind-Keeps : (kind : LiveKind) → Ensures I Anything (prepare_kind w fs dst kind)
    unfolding prepare_kind replace_empty_dir
    prepare_kind-Keeps absent = >>-Ensures (k.set_last_error 0) (pure-Keeps _)
    prepare_kind-Keeps file =
        >>-Ensures (k.clear_attributes dst below) (>>-Ensures (k.set_last_error 0) (pure-Keeps _))
    prepare_kind-Keeps link_file = unlink-Keeps
    prepare_kind-Keeps link_dir = unlink-Keeps
    prepare_kind-Keeps dir = >>=-Ensures (k.remove_directory dst below) λ removed _.
        branch-Ensures _ (>>-Ensures (k.set_last_error 0) (pure-Keeps _))
          (>>=-Ensures k.last_error λ code _. >>-Ensures (k.set_last_error code) (pure-Keeps _))
    prepare_kind-Keeps unsupported_reparse = >>-Ensures (k.set_last_error 5) (pure-Keeps _)
    prepare_kind-Keeps other = >>-Ensures (k.set_last_error 5) (pure-Keeps _)

    ensure_parent_dirs-Keeps : Ensures I Anything (ensure_parent_dirs w fs plan dst)
    unfolding ensure_parent_dirs
    ensure_parent_dirs-Keeps = elim (Option-cases (parent_of dst)) [
      | inl n ↦ rw n (pure-Keeps _)
      | inr (parent, e) ↦
          rw e (k.create_dir_all parent (parent_of-Below plan.dest_root dst parent below e))
    ]

    pub run_copy-Keeps :
        (a : SyncAction) (src : WString)
        → Below plan.source_root src
        → Ensures I Anything (run_copy w fs plan a src dst)
    unfolding run_copy copy_failed is_cancel_code prepare_file_dest
    run_copy-Keeps a src from =
        attempt-Ensures ensure_parent_dirs-Keeps (λ err. pure-Keeps _)
          (attempt-Ensures (>>=-Ensures (k.stat_live_kind dst) λ kind _. prepare_kind-Keeps kind)
            (λ err. pure-Keeps _)
            (attempt-Ensures (k.copy_file_direct src dst from below)
              (λ err. >>=-Ensures k.last_error λ code _.
                >>=-Ensures (branch-Ensures _ k.was_cancelled (pure-Keeps _))
                  λ aborted _. branch-Ensures _ (pure-Keeps _) (pure-Keeps _))
              (pure-Keeps _)))

    clear_link_kind-Keeps :
        (kind : LiveKind) → Ensures I Anything (clear_link_kind w fs plan dst kind)
    unfolding clear_link_kind
    clear_link_kind-Keeps link_file = k.delete_link dst false below
    clear_link_kind-Keeps link_dir = k.delete_link dst true below
    clear_link_kind-Keeps file = k.delete_file_one dst below
    clear_link_kind-Keeps dir =
        >>=-Ensures (k.remove_directory dst below)
          λ removed _. branch-Ensures _ (pure-Keeps _) (pure-Keeps _)
    clear_link_kind-Keeps absent = pure-Keeps _
    clear_link_kind-Keeps unsupported_reparse = pure-Keeps _
    clear_link_kind-Keeps other = pure-Keeps _

    replace_link-Keeps :
        (a : SyncAction) (target : WString) (replace : Bool)
        → Ensures I Anything (replace_link w fs plan a target dst replace)
    unfolding replace_link must_clear clear_link_dest write_link
    replace_link-Keeps a target replace =
        attempt-Ensures ensure_parent_dirs-Keeps (λ err. pure-Keeps _)
          (>>=-Ensures
            (branch-Ensures _ (pure-Keeps _)
              (>>=-Ensures (k.stat_live_kind dst) λ kind _. pure-Keeps _))
            λ clear _.
              attempt-Ensures
                (branch-Ensures _
                  (>>=-Ensures (k.stat_live_kind dst) λ kind _. clear_link_kind-Keeps kind)
                  (pure-Keeps _))
                (λ err. pure-Keeps _)
                (attempt-Ensures (k.create_link dst _ a.link_kind below) (λ err. pure-Keeps _)
                  (pure-Keeps _)))

    pub run_link-Keeps :
        (a : SyncAction) (src : WString) (replace : Bool)
        → Ensures I Anything (run_link w fs plan a src dst replace)
    unfolding run_link
    run_link-Keeps a src replace = >>=-Ensures (k.read_link_target src) λ target _.
        branch-Ensures _ (pure-Keeps _) (
          branch-Ensures _ (pure-Keeps _) (
            >>=-Ensures (k.check_parent_chain plan.source_root src)
              λ why _. branch-Ensures _ (pure-Keeps _) (replace_link-Keeps a target replace)))

    clear_dir_kind-Keeps :
        (kind : LiveKind) → Ensures I Anything (clear_dir_kind w fs plan dst kind)
    unfolding clear_dir_kind unlink_live
    clear_dir_kind-Keeps absent = pure-Keeps _
    clear_dir_kind-Keeps dir = pure-Keeps _
    clear_dir_kind-Keeps file = k.delete_file_one dst below
    clear_dir_kind-Keeps link_file =
        >>=-Ensures (k.stat_live_kind dst) λ kind _. k.delete_link dst _ below
    clear_dir_kind-Keeps link_dir =
        >>=-Ensures (k.stat_live_kind dst) λ kind _. k.delete_link dst _ below
    clear_dir_kind-Keeps unsupported_reparse = pure-Keeps _
    clear_dir_kind-Keeps other = pure-Keeps _

    pub create_dir_step-Keeps :
        (a : SyncAction) → Ensures I Anything (create_dir_step w fs plan a dst)
    unfolding create_dir_step clear_dir_dest
    create_dir_step-Keeps a =
        attempt-Ensures (>>=-Ensures (k.stat_live_kind dst) λ kind _. clear_dir_kind-Keeps kind)
          (λ err. pure-Keeps _)
          (attempt-Ensures (k.create_dir_all dst (inr below)) (λ err. pure-Keeps _) (pure-Keeps _))

    pub delete_live_link-Keeps :
        (a : SyncAction) (kind : LiveKind) → Ensures I Anything (delete_live_link w fs a dst kind)
    unfolding delete_live_link
    delete_live_link-Keeps a link_file =
        attempt-Ensures (k.delete_link dst false below) (λ err. pure-Keeps _) (pure-Keeps _)
    delete_live_link-Keeps a link_dir =
        attempt-Ensures (k.delete_link dst true below) (λ err. pure-Keeps _) (pure-Keeps _)
    delete_live_link-Keeps a absent = pure-Keeps _
    delete_live_link-Keeps a file = pure-Keeps _
    delete_live_link-Keeps a dir = pure-Keeps _
    delete_live_link-Keeps a unsupported_reparse = pure-Keeps _
    delete_live_link-Keeps a other = pure-Keeps _
