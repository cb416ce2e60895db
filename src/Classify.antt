-- ===== src/Classify.antt =====
-- src/Comparison/ClassifyUtil.cpp: the verdict on a pair of entries with one path, with links
-- compared by kind and target.
pub mod OneMore
pub mod Laws
use check_sync_files.Common.{
  ℕ, Bool, true, false, ◌&&◌, ◌||◌, not, Option, none, some, List, [], ◌∷◌, ◌++◌, ◌==◌, eq_bool,
  if◌then◌else◌, length,
}
use check_sync_files.Text.{WString, Bytes, empty, eqw, lit}
use check_sync_files.Windows.{Win}
use check_sync_files.Path.{make_absolute, to_utf8}
use check_sync_files.Entry.{
  FileEntry, ReparseKind, plain, other, unknown, ScanMode, presence, size_only, content, kind_index,
  is_plain, edges, inc64,
}
use check_sync_files.Reparse.{normalize_link_target_for_compare}
use check_sync_files.Result.{
  Status, identical, size_mismatch, content_mismatch, read_error, FileResult, new_result, Stats,
  ResultSet, ContentCandidate, ClassifiedRow, zero_digest,
}

pub record LinkDecision : Type 0 where
  pub handled : Bool
  pub identical : Bool
  pub identical_is_dir : Bool
  pub row : FileResult

-- The digest that `Sha256Bytes` leaves in its output, all zero when it fails.
abbrev pub digest_of : Option Bytes → Bytes
digest_of none = zero_digest
digest_of (some d) = d

abbrev pub has_digest : Option Bytes → Bool
has_digest none = false
has_digest (some d) = true

abbrev pub is_unsupported : ReparseKind → Bool
is_unsupported other = true
is_unsupported unknown = true
is_unsupported _ = false

-- The fields that every row of a link decision has.
unfoldable pub link_row : FileEntry → FileEntry → WString → FileResult
link_row src dst dest_root = record new_result {
  relative_path = dst.relative_path;
  full_path = make_absolute dest_root dst.relative_path;
  is_directory = false;
  reparse_kind = dst.reparse_kind;
  src_is_directory = src.is_directory;
  src_reparse_kind = src.reparse_kind;
  dst_is_directory = dst.is_directory;
}

abbrev pub differing : FileResult → LinkDecision
differing row = record { handled = true; identical = false; identical_is_dir = false; row = row }

module _ (w : Win) where
  -- Two links of one kind with readable targets.
  unfoldable pub compare_targets : FileEntry → FileEntry → WString → WString → LinkDecision
  unfolding link_row
  compare_targets src dst source_root dest_root =
      let row = link_row src dst dest_root in
      let src_norm = normalize_link_target_for_compare w src.link_target source_root in
      let dst_norm = normalize_link_target_for_compare w dst.link_target dest_root in
      let src_u8 = to_utf8 w src_norm in
      let dst_u8 = to_utf8 w dst_norm in
      let src_digest = w.sha256 src_u8 in
      let dst_digest = w.sha256 dst_u8 in
      if eqw src_norm dst_norm
      then record {
        handled = true;
        identical = true;
        identical_is_dir = src.is_directory && dst.is_directory;
        row = row;
      }
      else differing (record row {
        status = content_mismatch;
        is_directory = src.is_directory;
        size_source = length src_u8;
        size_dest = length dst_u8;
        has_hash_source = has_digest src_digest;
        has_hash_dest = has_digest dst_digest;
        hash_source = digest_of src_digest;
        hash_dest = digest_of dst_digest;
      })

  unfoldable pub try_classify_links : FileEntry → FileEntry → WString → WString → LinkDecision
  unfolding compare_targets link_row
  try_classify_links src dst source_root dest_root =
      let row = link_row src dst dest_root in
      if is_plain src.reparse_kind && is_plain dst.reparse_kind
      then record { handled = false; identical = false; identical_is_dir = false; row = new_result }
      else if is_unsupported src.reparse_kind || is_unsupported dst.reparse_kind
      then differing (record row {
        status = read_error;
        error_message = lit "reparse point non supportato o non determinato";
      })
      else if not (kind_index src.reparse_kind == kind_index dst.reparse_kind)
      then differing (record row {
        status = size_mismatch;
        size_source = src.size;
        size_dest = dst.size;
        is_directory = src.is_directory;
      })
      else if empty src.link_target || empty dst.link_target
      then differing (record row {
        status = read_error;
        error_message = lit "impossibile leggere il target del link";
      })
      else compare_targets src dst source_root dest_root

-- The state that `ClassifyMatched` changes: the sink's counters and problems, the vector of content
-- candidates, and the rows that the observer has been given.
pub record Sink : Type 0 where
  pub results : ResultSet
  pub candidates : List ContentCandidate
  pub rows : List ClassifiedRow

-- `emit`: the observer is optional.
unfoldable pub emit : Bool → FileEntry → FileEntry → Status → Bool → Sink → Sink
emit observed src dst verdict is_dir s =
    if observed
    then record s {
      rows =
          s.rows
          ++ (record {
            relative_path = dst.relative_path;
            has_a = true;
            has_b = true;
            entry_a = src;
            entry_b = dst;
            verdict = verdict;
            has_hash_a = false;
            has_hash_b = false;
            hash_a = zero_digest;
            hash_b = zero_digest;
            verified_percent = 100;
            verified_pattern = edges;
            is_directory = is_dir;
          }
              ∷ []);
    }
    else s

abbrev pub sink_stats : (Stats → Stats) → Sink → Sink
sink_stats f s = record s {
  results = record { stats = f s.results.stats; problems = s.results.problems };
}

abbrev pub add_problem : FileResult → Sink → Sink
add_problem r s = record s {
  results = record { stats = s.results.stats; problems = s.results.problems ++ (r ∷ []) };
}

-- Increments of one counter.
abbrev pub inc_identical_files : Stats → Stats
inc_identical_files st = record st { identical_files = inc64 st.identical_files }

abbrev pub inc_identical_dirs : Stats → Stats
inc_identical_dirs st = record st { identical_dirs = inc64 st.identical_dirs }

abbrev pub inc_size_mismatch : Stats → Stats
inc_size_mismatch st = record st { size_mismatch = inc64 st.size_mismatch }

abbrev pub inc_content_mismatch : Stats → Stats
inc_content_mismatch st = record st { content_mismatch = inc64 st.content_mismatch }

abbrev pub inc_read_errors : Stats → Stats
inc_read_errors st = record st { read_errors = inc64 st.read_errors }

-- The `switch` on the verdict of a link row.
abbrev pub inc_link_verdict : Status → Stats → Stats
inc_link_verdict content_mismatch st = inc_content_mismatch st
inc_link_verdict read_error st = inc_read_errors st
inc_link_verdict _ st = inc_size_mismatch st

-- The branch for a pair with a link.
unfoldable pub classify_link : Bool → FileEntry → FileEntry → LinkDecision → Sink → Sink
unfolding emit
classify_link observed src dst link s =
    if link.identical
    then (if link.identical_is_dir
        then emit observed src dst identical true (sink_stats inc_identical_dirs s)
        else emit observed src dst identical false (sink_stats inc_identical_files s))
    else emit observed src dst link.row.status false
        (add_problem link.row (sink_stats (inc_link_verdict link.row.status) s))

-- The row of a pair of different types, and of a pair of files of different sizes.
unfoldable pub mismatch_row : FileEntry → FileEntry → WString → FileResult
mismatch_row src dst dest_root = record new_result {
  status = size_mismatch;
  full_path = make_absolute dest_root dst.relative_path;
  relative_path = dst.relative_path;
  size_source = src.size;
  size_dest = dst.size;
  is_directory = src.is_directory;
  src_is_directory = src.is_directory;
  src_reparse_kind = plain;
  dst_is_directory = dst.is_directory;
}

unfoldable pub record_size_mismatch : Bool → FileEntry → FileEntry → WString → Sink → Sink
unfolding emit mismatch_row
record_size_mismatch observed src dst dest_root s =
    emit observed src dst size_mismatch false
      (add_problem (mismatch_row src dst dest_root) (sink_stats inc_size_mismatch s))

abbrev pub content_candidate : FileEntry → FileEntry → ContentCandidate
content_candidate src dst = record {
  relative_path = dst.relative_path;
  size_source = src.size;
  size_dest = dst.size;
  src_mtime = src.last_write_time;
  dst_mtime = dst.last_write_time;
}

-- The `switch` on the mode, for two plain files.
unfoldable pub classify_files :
    Bool → FileEntry → FileEntry → ScanMode → WString → Sink → Sink × Bool
unfolding record_size_mismatch emit
classify_files observed src dst presence dest_root s =
    (emit observed src dst identical false (sink_stats inc_identical_files s), false)
classify_files observed src dst size_only dest_root s =
    if src.size == dst.size
    then (emit observed src dst identical false (sink_stats inc_identical_files s), false)
    else (record_size_mismatch observed src dst dest_root s, false)
classify_files observed src dst content dest_root s =
    if src.size == dst.size
    then (record s { candidates = s.candidates ++ (content_candidate src dst ∷ []) }, true)
    else (record_size_mismatch observed src dst dest_root s, false)

-- `ClassifyMatched`: the sink afterwards, and whether a content candidate was added.
unfoldable pub classify_matched :
    Win → FileEntry → FileEntry → ScanMode → WString → WString → Bool → Sink → Sink × Bool
unfolding classify_link classify_files record_size_mismatch emit
classify_matched w src dst mode dest_root source_root observed s =
    let link = try_classify_links w src dst source_root dest_root in
    if link.handled
    then (classify_link observed src dst link s, false)
    else if src.is_directory && dst.is_directory
    then (emit observed src dst identical true (sink_stats inc_identical_dirs s), false)
    else if not (eq_bool src.is_directory dst.is_directory)
    then (record_size_mismatch observed src dst dest_root s, false)
    else classify_files observed src dst mode dest_root s
