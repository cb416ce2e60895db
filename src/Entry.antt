-- ===== src/Entry.antt =====
-- The records that a scan collects: src/Filesystem/FileEntry.h, the kinds of
-- src/Filesystem/ReparsePoint.h and the modes of src/Comparison/ScanMode.h.
use check_sync_files.Common.{ℕ, Bool, true, false, ◌+◌, ◌-◌, ◌%◌, u64_mod}
use check_sync_files.Text.{WString}

pub data ReparseKind : Type 0 where
  plain symlink_file symlink_dir junction other unknown : ReparseKind

pub record FileEntry : Type 0 where
  pub relative_path : WString
  pub size : ℕ  -- uint64_t
  pub last_write_time : ℕ  -- uint64_t
  pub attributes : ℕ  -- uint32_t
  pub file_id : ℕ  -- uint64_t
  pub is_directory : Bool
  pub reparse_kind : ReparseKind
  pub link_target : WString

pub data ScanMode : Type 0 where
  presence size_only content : ScanMode

pub data PartialPattern : Type 0 where
  edges center random : PartialPattern

-- Equality of the enumerations, as `==` compares them.
abbrev pub kind_index : ReparseKind → ℕ
kind_index plain = 0
kind_index symlink_file = 1
kind_index symlink_dir = 2
kind_index junction = 3
kind_index other = 4
kind_index unknown = 5

abbrev pub is_plain : ReparseKind → Bool
is_plain plain = true
is_plain _ = false

-- `IsSupportedLink`, which ClassifyUtil.cpp and SyncPlan.cpp each define.
abbrev pub is_supported_link : ReparseKind → Bool
is_supported_link symlink_file = true
is_supported_link symlink_dir = true
is_supported_link junction = true
is_supported_link _ = false

-- `uint64_t` arithmetic.
abbrev pub inc64 : ℕ → ℕ
inc64 n = (n + 1) % u64_mod

abbrev pub dec64 : ℕ → ℕ
dec64 n = (n + u64_mod - 1) % u64_mod

abbrev pub add64 : ℕ → ℕ → ℕ
add64 a b = (a + b) % u64_mod

abbrev pub sub64 : ℕ → ℕ → ℕ
sub64 a b = (a + u64_mod - b) % u64_mod
