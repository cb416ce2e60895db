-- ===== src/Sync/Disk/Write.antt =====
-- src/Sync/SyncFs.cpp: the operations that copy, create and delete.
use check_sync_files.Common.{
  ℕ, Bool, true, false, not, ◌||◌, Option, none, some, [], ◌∷◌, ◌++◌, ◌==◌, if◌then◌else◌, length,
  drop,
}
use check_sync_files.Text.{WString, backslash, empty, lit}
use check_sync_files.Windows.{Win}
use check_sync_files.Path.{normalize_root, add_long_path_prefix}
use check_sync_files.Numbers.{to_wstring}
use check_sync_files.State.{Attempt, pure, ◌>>=◌, ◌>>◌, attempt, branch, succeed, refuse}
use check_sync_files.Sync.Path.{is_separator}
use check_sync_files.Sync.Fs.{LiveKind, file}
use check_sync_files.Sync.Guarded.{is_directory_attr, is_reparse_attr, is_gone_code}
use check_sync_files.Sync.Disk.{
  Disk, normal, without_reparse, skip_separators, check_parent_chain, stat_live_kind,
}

module _ {S T : Type 0} (w : Win) (disk : Disk S T) where
  abbrev pub is_file : LiveKind → Bool
  is_file file = true
  is_file _ = false

  unfoldable pub restore_attributes : WString → Option ℕ → Attempt S
  restore_attributes dst none = succeed
  restore_attributes dst (some attrs) = do disk.set_attributes dst (without_reparse attrs); succeed

  unfoldable pub write_times : WString → WString → Option T → Attempt S
  write_times src_abs dst_abs none = refuse (lit "lettura date sorgente fallita: " ++ src_abs)
  write_times src_abs dst_abs (some times) =
      let dst = add_long_path_prefix dst_abs in
      do
        attrs ← disk.attributes (add_long_path_prefix src_abs)
        disk.set_attributes dst normal
        opened ← disk.open_dest dst
        branch (not opened)
            (refuse (lit "apertura destinazione per i metadati fallita: " ++ dst_abs))
            (do
              written ← disk.set_file_times dst times
              branch written (restore_attributes dst attrs)
                  (refuse (lit "scrittura date destinazione fallita: " ++ dst_abs)))

  unfoldable pub preserve_times_and_attrs : WString → WString → Attempt S
  preserve_times_and_attrs src_abs dst_abs = do
    opened ← disk.open_source (add_long_path_prefix src_abs)
    branch (not opened) (refuse (lit "lettura metadati sorgente fallita: " ++ src_abs)) (do
      times ← disk.file_times (add_long_path_prefix src_abs)
      write_times src_abs dst_abs times)

  -- The message of a failed copy; the code is set again for the executor.
  unfoldable pub copy_refused : WString → WString → ℕ → Attempt S
  copy_refused src_abs dst_abs code = do
    aborted ← branch (code == 1235) disk.was_cancelled (pure false)
    disk.set_last_error code
    refuse (
        if aborted
        then lit "copia annullata: " ++ src_abs
        else if code == 112 || code == 39
        then lit "spazio insufficiente durante la copia: " ++ dst_abs
        else lit "copia fallita (codice " ++ (to_wstring code ++ (lit "): " ++ src_abs)))

  unfoldable pub copy_checked : WString → WString → Attempt S
  copy_checked src_abs dst_abs = do
    kind ← stat_live_kind w disk src_abs
    branch (not (is_file kind))
        (refuse (lit "sorgente non piu un file regolare (rinominata/link?): " ++ src_abs))
        (do
          copied ← disk.copy_file (add_long_path_prefix src_abs) (add_long_path_prefix dst_abs)
          branch (not copied) (do code ← disk.last_error; copy_refused src_abs dst_abs code)
              (attempt (preserve_times_and_attrs src_abs dst_abs) refuse
                (disk.set_last_error 0 >> succeed)))

  unfoldable pub copy_file_direct : WString → WString → WString → WString → Attempt S
  copy_file_direct src_root src_abs dst_root dst_abs = do
    stopped ← disk.was_cancelled
    branch stopped (refuse (lit "operazione annullata prima della copia.")) (do
      src_why ← check_parent_chain w disk src_root src_abs
      branch (not (empty src_why))
          (refuse (lit "sorgente non raggiungibile in sicurezza: " ++ src_why))
          (do
            dst_why ← check_parent_chain w disk dst_root dst_abs
            branch (not (empty dst_why))
                (refuse (lit "destinazione non raggiungibile in sicurezza: " ++ dst_why))
                (copy_checked src_abs dst_abs)))

  -- Whatever is in the way must be a plain directory.
  unfoldable pub verify_level : WString → Attempt S → Option ℕ → Attempt S
  verify_level cur continue none = refuse (lit "cartella illeggibile dopo la creazione: " ++ cur)
  verify_level cur continue (some attrs) =
      branch (not (is_directory_attr attrs))
        (refuse (lit "un file blocca la creazione della cartella: " ++ cur))
        (branch (is_reparse_attr attrs)
          (refuse
            (lit "un reparse point blocca la creazione della cartella (non seguito): " ++ cur))
          continue)

  -- One level; an existing one is no failure.
  unfoldable pub make_level : WString → Attempt S → Attempt S
  make_level cur continue =
      let verify = disk.attributes (add_long_path_prefix cur) >>= verify_level cur continue in
      do
        created ← disk.create_directory (add_long_path_prefix cur)
        branch created verify (do
          code ← disk.last_error
          branch (code == 183) verify (
              refuse (
                lit "creazione cartella fallita (codice "
                ++ (to_wstring code ++ (lit "): " ++ cur)))))

  -- The loop of `CreateDirAll`: `cur` is the path up to the component that is read.
  unfoldable pub make_levels : WString → WString → Attempt S
  make_levels cur [] = make_level cur succeed
  make_levels cur (c ∷ s) =
      let next = make_levels (cur ++ (backslash ∷ [])) s in
      let longer = make_levels (cur ++ (c ∷ [])) s in
      branch (is_separator c) (make_level cur (branch (empty s) succeed next)) longer

  unfoldable pub create_dir_all : WString → WString → Attempt S
  create_dir_all root dir_abs =
      let n_root = normalize_root root in
      let rest = skip_separators (drop (length n_root) dir_abs) in
      do
        why ← check_parent_chain w disk root dir_abs
        branch (not (empty why)) (refuse (lit "cartella non raggiungibile in sicurezza: " ++ why))
            (branch (empty rest) succeed (make_levels (n_root ++ (backslash ∷ [])) rest))

  unfoldable pub delete_refused : WString → ℕ → Attempt S
  delete_refused abs code = branch (is_gone_code code) succeed (do
    disk.set_last_error code
    refuse (lit "eliminazione file fallita (codice " ++ (to_wstring code ++ (lit "): " ++ abs))))

  unfoldable pub delete_file_one : WString → WString → Attempt S
  delete_file_one root abs = do
    why ← check_parent_chain w disk root abs
    branch (not (empty why)) (refuse (lit "file non raggiungibile in sicurezza: " ++ why)) (do
      disk.set_attributes (add_long_path_prefix abs) normal
      deleted ← disk.delete_file (add_long_path_prefix abs)
      branch deleted succeed (do code ← disk.last_error; delete_refused abs code))
