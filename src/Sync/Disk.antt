-- ===== src/Sync/Disk.antt =====
-- src/Sync/SyncFs.cpp, CheckParentChain of src/Sync/SyncPath.cpp and DeleteLink of
-- src/Filesystem/ReparsePoint.cpp, over the calls of Windows that they make.
pub mod Write
use check_sync_files.Common.{
  ℕ, suc, ◌+◌, ◌-◌, ◌/◌, ◌%◌, Bool, true, false, not, ◌&&◌, ◌||◌, Option, none, some, List, [], ◌∷◌,
  ◌++◌, inl, inr, ◌==◌, ltb, leb, if◌then◌else◌, length, drop,
}
use check_sync_files.Text.{WString, Bytes, backslash, slash, empty, eqw, lit}
use check_sync_files.Windows.{Win}
use check_sync_files.Path.{normalize_root, add_long_path_prefix, fold_for_compare}
use check_sync_files.Numbers.{to_wstring}
use check_sync_files.Entry.{ReparseKind, plain, unknown, is_supported_link}
use check_sync_files.Reparse.Payload.{parse_reparse_payload}
use check_sync_files.State.{Action, Attempt, pure, ◌>>=◌, ◌>>◌, attempt, branch, succeed, refuse}
use check_sync_files.Sync.Path.{is_separator}
use check_sync_files.Sync.Fs.{
  LiveKind, absent, file, dir, link_file, link_dir, unsupported_reparse, other,
}
use check_sync_files.Sync.Guarded.{is_directory_attr, is_reparse_attr, is_gone_code}

-- The calls, by the long-path form of a path; `none` or `false` where a call fails. `attributes` is
-- `GetFileAttributesW`, `attributes_ex` `GetFileAttributesExW`, `copy_file` `CopyFileExW` with the
-- callback that reads the cancel flag; `T` holds the three times of a file. `open_link` is
-- `OpenLinkItself`, for writing or not; the reparse calls are `DeviceIoControl` on its handle.
pub record Disk (S T : Type 0) : Type 0 where
  pub was_cancelled : Action S Bool
  pub last_error : Action S ℕ
  pub set_last_error : ℕ → Action S (Unit {0})
  pub attributes : WString → Action S (Option ℕ)
  pub attributes_ex : WString → Action S (Option ℕ)
  pub open_source : WString → Action S Bool
  pub file_times : WString → Action S (Option T)
  pub open_dest : WString → Action S Bool
  pub set_file_times : WString → T → Action S Bool
  pub set_attributes : WString → ℕ → Action S (Unit {0})
  pub copy_file : WString → WString → Action S Bool
  pub create_directory : WString → Action S Bool
  pub remove_directory : WString → Action S Bool
  pub delete_file : WString → Action S Bool
  pub open_link : WString → Bool → Action S Bool
  pub get_reparse_point : WString → Action S (Option Bytes)

-- FILE_ATTRIBUTE_NORMAL.
abbrev pub normal : ℕ
normal = 128

-- `attrs & ~FILE_ATTRIBUTE_REPARSE_POINT`.
abbrev pub without_reparse : ℕ → ℕ
without_reparse attrs = if is_reparse_attr attrs then attrs - 1024 else attrs

abbrev pub skip_separators : WString → WString
skip_separators [] = []
skip_separators (c ∷ s) = let rest = skip_separators s in if is_separator c then rest else c ∷ s

module _ {S T : Type 0} (w : Win) (disk : Disk S T) where
  -- The loop of `CheckParentChain`: `cur` is the path up to the component that is read, which ends
  -- at a backslash; the last component is not tested.
  unfoldable pub chain_component :
      (Unit {0} → Action S WString) → WString → Option ℕ → Action S WString
  chain_component continue cur none = do
    code ← disk.last_error
    branch (is_gone_code code) (pure []) (pure (lit "componente intermedio illeggibile: " ++ cur))
  chain_component continue cur (some attrs) =
      branch (not (is_directory_attr attrs))
        (pure (lit "componente intermedio non cartella: " ++ cur))
        (branch (is_reparse_attr attrs)
          (pure (lit "componente intermedio e un reparse point (non seguito): " ++ cur))
          (continue tt))

  unfoldable pub check_components : WString → WString → Action S WString
  check_components cur [] = pure []
  check_components cur (c ∷ s) =
      let below = check_components (cur ++ (c ∷ [])) s in
      branch (c == backslash)
        (do
          attrs ← disk.attributes (add_long_path_prefix cur)
          chain_component (λ _. below) cur attrs)
        below

  unfoldable pub check_rest : WString → WString → Action S WString
  check_rest n_root [] = pure (lit "percorso fuori radice")
  check_rest n_root (c ∷ rest) =
      branch (not (c == backslash)) (pure (lit "percorso fuori radice"))
        (check_components (n_root ++ (backslash ∷ [])) rest)

  -- The empty string, or why a component above the path is not a plain directory.
  unfoldable pub check_parent_chain : WString → WString → Action S WString
  check_parent_chain root abs =
      let n_root = normalize_root root in
      branch (empty n_root) (pure (lit "percorso fuori radice")) (
        branch (eqw (fold_for_compare w abs) (fold_for_compare w n_root)) (pure []) (
          branch (leb (length abs) (length n_root)) (pure (lit "percorso fuori radice"))
            (check_rest n_root (drop (length n_root) abs))))

  -- `Prefixed` of src/Filesystem/ReparsePoint.cpp.
  abbrev pub link_path : WString → WString
  link_path abs = add_long_path_prefix (normalize_root abs)

  -- `ReadReparseBuffer`.
  unfoldable pub read_reparse_buffer : WString → Action S (Option Bytes)
  read_reparse_buffer abs = do
    opened ← disk.open_link (link_path abs) false
    branch opened (disk.get_reparse_point (link_path abs)) (pure none)

  -- ERROR_NOT_A_REPARSE_POINT means that there is no link.
  unfoldable pub kind_of_buffer : Bool → Option Bytes → Action S ReparseKind
  kind_of_buffer is_dir none = do
    code ← disk.last_error
    branch (code == 4390) (pure plain) (pure unknown)
  kind_of_buffer is_dir (some buf) = pure (parse_reparse_payload buf is_dir).kind

  unfoldable pub get_reparse_kind : WString → Bool → Action S ReparseKind
  get_reparse_kind abs is_dir = do buf ← read_reparse_buffer abs; kind_of_buffer is_dir buf

  unfoldable pub target_of_buffer : Option Bytes → WString
  target_of_buffer none = []
  target_of_buffer (some buf) = elim ((parse_reparse_payload buf false).target) [
    | none ↦ []
    | some target ↦ target
  ]

  -- `ReadLinkTarget`; the executor does not look at the kind.
  unfoldable pub read_link_target : WString → Action S WString
  read_link_target abs = do buf ← read_reparse_buffer abs; pure (target_of_buffer buf)

  abbrev pub link_kind_of : Bool → ReparseKind → LiveKind
  link_kind_of is_dir kind =
      if is_supported_link kind
      then (if is_dir then link_dir else link_file)
      else unsupported_reparse

  unfoldable pub live_kind_of : WString → Option ℕ → Action S LiveKind
  live_kind_of abs none = do
    code ← disk.last_error
    branch (is_gone_code code) (pure absent) (pure other)
  live_kind_of abs (some attrs) =
      let is_dir = is_directory_attr attrs in
      branch (not (is_reparse_attr attrs)) (pure (if is_dir then dir else file))
        (do kind ← get_reparse_kind abs is_dir; pure (link_kind_of is_dir kind))

  unfoldable pub stat_live_kind : WString → Action S LiveKind
  stat_live_kind abs = do
    attrs ← disk.attributes_ex (add_long_path_prefix abs)
    live_kind_of abs attrs

  unfoldable pub delete_link : WString → Bool → Attempt S
  delete_link abs is_dir = do
    ok ← branch is_dir (disk.remove_directory (link_path abs)) (disk.delete_file (link_path abs))
    branch ok succeed (refuse (lit "eliminazione link fallita: " ++ abs))
