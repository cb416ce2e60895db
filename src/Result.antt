-- ===== src/Result.antt =====
-- src/Comparison/ComparisonResult.h: verdicts, result rows and counters; and the rows and candidates
-- of src/Comparison/ClassifyUtil.h and src/Comparison/RowCapture.h.
use check_sync_files.Common.{ℕ, Bool, false, List, [], replicate}
use check_sync_files.Text.{WString, Bytes}
use check_sync_files.Entry.{FileEntry, ReparseKind, plain, PartialPattern, edges, add64}

pub data Status : Type 0 where
  identical missing extra size_mismatch content_mismatch : Status
  identical_partial content_mismatch_partial : Status
  read_error access_denied changed_during_scan : Status

abbrev pub zero_digest : Bytes
zero_digest = replicate 32 0

pub record FileResult : Type 0 where
  pub status : Status
  pub relative_path : WString
  pub full_path : WString
  pub size_source : ℕ
  pub size_dest : ℕ
  pub error_message : WString
  pub is_directory : Bool
  pub reparse_kind : ReparseKind
  pub src_is_directory : Bool
  pub src_reparse_kind : ReparseKind
  pub dst_is_directory : Bool
  pub has_hash_source : Bool
  pub has_hash_dest : Bool
  pub hash_source : Bytes
  pub hash_dest : Bytes
  pub verified_percent : ℕ
  pub verified_pattern : PartialPattern

-- The default member initialisers.
abbrev pub new_result : FileResult
new_result = record {
  status = identical;
  relative_path = [];
  full_path = [];
  size_source = 0;
  size_dest = 0;
  error_message = [];
  is_directory = false;
  reparse_kind = plain;
  src_is_directory = false;
  src_reparse_kind = plain;
  dst_is_directory = false;
  has_hash_source = false;
  has_hash_dest = false;
  hash_source = zero_digest;
  hash_dest = zero_digest;
  verified_percent = 100;
  verified_pattern = edges;
}

pub record Stats : Type 0 where
  pub source_files : ℕ
  pub source_dirs : ℕ
  pub dest_files : ℕ
  pub dest_dirs : ℕ
  pub identical_files : ℕ
  pub identical_dirs : ℕ
  pub missing_files : ℕ
  pub missing_dirs : ℕ
  pub extra_files : ℕ
  pub extra_dirs : ℕ
  pub size_mismatch : ℕ
  pub content_mismatch : ℕ
  pub identical_partial_files : ℕ
  pub content_mismatch_partial : ℕ
  pub read_errors : ℕ
  pub access_denied : ℕ
  pub changed_during_scan : ℕ
  pub bytes_source : ℕ
  pub bytes_dest : ℕ

abbrev pub zero_stats : Stats
zero_stats = record {
  source_files = 0;
  source_dirs = 0;
  dest_files = 0;
  dest_dirs = 0;
  identical_files = 0;
  identical_dirs = 0;
  missing_files = 0;
  missing_dirs = 0;
  extra_files = 0;
  extra_dirs = 0;
  size_mismatch = 0;
  content_mismatch = 0;
  identical_partial_files = 0;
  content_mismatch_partial = 0;
  read_errors = 0;
  access_denied = 0;
  changed_during_scan = 0;
  bytes_source = 0;
  bytes_dest = 0;
}

-- `Stats::operator+=`.
unfoldable pub add_stats : Stats → Stats → Stats
add_stats a b = record {
  source_files = add64 a.source_files b.source_files;
  source_dirs = add64 a.source_dirs b.source_dirs;
  dest_files = add64 a.dest_files b.dest_files;
  dest_dirs = add64 a.dest_dirs b.dest_dirs;
  identical_files = add64 a.identical_files b.identical_files;
  identical_dirs = add64 a.identical_dirs b.identical_dirs;
  missing_files = add64 a.missing_files b.missing_files;
  missing_dirs = add64 a.missing_dirs b.missing_dirs;
  extra_files = add64 a.extra_files b.extra_files;
  extra_dirs = add64 a.extra_dirs b.extra_dirs;
  size_mismatch = add64 a.size_mismatch b.size_mismatch;
  content_mismatch = add64 a.content_mismatch b.content_mismatch;
  identical_partial_files = add64 a.identical_partial_files b.identical_partial_files;
  content_mismatch_partial = add64 a.content_mismatch_partial b.content_mismatch_partial;
  read_errors = add64 a.read_errors b.read_errors;
  access_denied = add64 a.access_denied b.access_denied;
  changed_during_scan = add64 a.changed_during_scan b.changed_during_scan;
  bytes_source = add64 a.bytes_source b.bytes_source;
  bytes_dest = add64 a.bytes_dest b.bytes_dest;
}

pub record ResultSet : Type 0 where
  pub stats : Stats
  pub problems : List FileResult

abbrev pub empty_results : ResultSet
empty_results = record { stats = zero_stats; problems = [] }

pub record ContentCandidate : Type 0 where
  pub relative_path : WString
  pub size_source : ℕ
  pub size_dest : ℕ
  pub src_mtime : ℕ
  pub dst_mtime : ℕ

pub record ClassifiedRow : Type 0 where
  pub relative_path : WString
  pub has_a : Bool
  pub has_b : Bool
  pub entry_a : FileEntry
  pub entry_b : FileEntry
  pub verdict : Status
  pub has_hash_a : Bool
  pub has_hash_b : Bool
  pub hash_a : Bytes
  pub hash_b : Bytes
  pub verified_percent : ℕ
  pub verified_pattern : PartialPattern
  pub is_directory : Bool
