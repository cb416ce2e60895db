-- ===== src/Compare.antt =====
-- src/Comparison/FileComparator.cpp: the serial comparison of a source index with the entries of a
-- destination, streamed.
pub mod Laws
pub mod Run
use check_sync_files.Common.{
  ℕ, Bool, true, false, ◌&&◌, not, Option, none, some, List, [], ◌∷◌, ◌++◌, map, ◌==◌, eq_bool,
  if◌then◌else◌,
}
use check_sync_files.Text.{WString, empty, ltw, sort_strings, unique}
use check_sync_files.Windows.{Win}
use check_sync_files.Path.{make_absolute, fold_for_compare, has_descendant}
use check_sync_files.Map.{Map}
use check_sync_files.Entry.{FileEntry, plain, ScanMode, presence, size_only, content, inc64, add64}
use check_sync_files.Index.{FileIndex, try_erase}
use check_sync_files.Result.{
  Status, missing, extra, size_mismatch, read_error, access_denied, FileResult, new_result, Stats,
  ResultSet, ContentCandidate,
}
use check_sync_files.Classify.{
  LinkDecision, try_classify_links, inc_identical_files, inc_identical_dirs, inc_size_mismatch,
  inc_link_verdict,
}

-- What `classifyMatched` changes: `out` and `pendingHashes_`.
pub record Matched : Type 0 where
  pub results : ResultSet
  pub pending : List ContentCandidate

abbrev pub count : (Stats → Stats) → Matched → Matched
count f m = record m {
  results = record { stats = f m.results.stats; problems = m.results.problems };
}

abbrev pub push : FileResult → Matched → Matched
push r m = record m {
  results = record { stats = m.results.stats; problems = m.results.problems ++ (r ∷ []) };
}

-- The row of a pair of different types.
unfoldable pub type_mismatch_row : FileEntry → FileEntry → WString → FileResult
type_mismatch_row src dst dest_root = record new_result {
  status = size_mismatch;
  full_path = make_absolute dest_root dst.relative_path;
  relative_path = dst.relative_path;
  size_source = src.size;
  size_dest = dst.size;
  is_directory = src.is_directory;
  src_is_directory = src.is_directory;
  src_reparse_kind = plain;
  dst_is_directory = dst.is_directory;
}

-- The row of two files of different sizes.
unfoldable pub file_mismatch_row : FileEntry → FileEntry → WString → FileResult
file_mismatch_row src dst dest_root = record new_result {
  status = size_mismatch;
  full_path = make_absolute dest_root dst.relative_path;
  relative_path = dst.relative_path;
  size_source = src.size;
  size_dest = dst.size;
  is_directory = src.is_directory;
  src_is_directory = false;
  src_reparse_kind = plain;
  dst_is_directory = false;
}

unfoldable pub compare_link : LinkDecision → Matched → Matched
compare_link link m =
    if link.identical
    then (if link.identical_is_dir then count inc_identical_dirs m else count inc_identical_files m)
    else push link.row (count (inc_link_verdict link.row.status) m)

unfoldable pub compare_files : FileEntry → FileEntry → ScanMode → WString → Matched → Matched
unfolding file_mismatch_row
compare_files src dst presence dest_root m = count inc_identical_files m
compare_files src dst size_only dest_root m =
    if src.size == dst.size
    then count inc_identical_files m
    else push (file_mismatch_row src dst dest_root) (count inc_size_mismatch m)
compare_files src dst content dest_root m =
    if src.size == dst.size
    then record m {
      pending =
          m.pending
          ++ (record {
            relative_path = dst.relative_path;
            size_source = src.size;
            size_dest = dst.size;
            src_mtime = src.last_write_time;
            dst_mtime = dst.last_write_time;
          }
              ∷ []);
    }
    else push (file_mismatch_row src dst dest_root) (count inc_size_mismatch m)

-- `FileComparator::classifyMatched`.
unfoldable pub compare_matched :
    Win → FileEntry → FileEntry → ScanMode → WString → WString → Matched → Matched
unfolding compare_link compare_files type_mismatch_row
compare_matched w src dst mode source_root dest_root m =
    let link = try_classify_links w src dst source_root dest_root in
    if link.handled
    then compare_link link m
    else if src.is_directory && dst.is_directory
    then count inc_identical_dirs m
    else if not (eq_bool src.is_directory dst.is_directory)
    then push (type_mismatch_row src dst dest_root) (count inc_size_mismatch m)
    else compare_files src dst mode dest_root m
