-- ===== src/Session/Resume.antt =====
-- src/Session/ResumePlan.cpp: which rows of a saved session are reused, and which paths are verified
-- again.
pub mod Plan
pub mod Laws
pub mod Sides
use check_sync_files.Common.{
  ℕ, suc, Bool, true, false, ◌&&◌, ◌||◌, not, Option, none, some, List, [], ◌∷◌, ◌++◌,
  if◌then◌else◌, leb, ltb, ◌==◌, length, drop, any, eq_bool,
}
use check_sync_files.Text.{WString, Bytes, backslash, empty, eqw, starts_with, lit}
use check_sync_files.Windows.{Win}
use check_sync_files.Path.{make_absolute}
use check_sync_files.Map.{Map, lookup, insert}
use check_sync_files.Entry.{FileEntry, plain, inc64, dec64, add64}
use check_sync_files.Index.{FileIndex, new_index, index_key, add_entry, find}
use check_sync_files.Result.{
  Status, identical, missing, extra, size_mismatch, content_mismatch, identical_partial,
  content_mismatch_partial, read_error, access_denied, changed_during_scan, FileResult, new_result,
  Stats, zero_stats, ClassifiedRow,
}
use check_sync_files.Session.{JournalEntry, fingerprint_stale, needs_reverify}

pub record ResumePlan : Type 0 where
  pub remainder_a : FileIndex
  pub remainder_b : FileIndex
  pub reused_entries : List JournalEntry
  pub reused_problems : List FileResult
  pub reused_stats : Stats
  pub reused : ℕ
  pub stale : ℕ
  pub dropped_both_gone : ℕ
  pub error_rows : ℕ

abbrev pub new_resume_plan : Bool → ResumePlan
new_resume_plan case_sensitive = record {
  remainder_a = new_index case_sensitive;
  remainder_b = new_index case_sensitive;
  reused_entries = [];
  reused_problems = [];
  reused_stats = zero_stats;
  reused = 0;
  stale = 0;
  dropped_both_gone = 0;
  error_rows = 0;
}

-- The pointers may be null.
pub record ResumeInput : Type 0 where
  pub journal : Option (List JournalEntry)
  pub current_a : Option FileIndex
  pub current_b : Option FileIndex
  pub root_a : WString
  pub root_b : WString
  pub error_dirs_a : List WString
  pub error_dirs_b : List WString

abbrev pub is_error_verdict : Status → Bool
is_error_verdict read_error = true
is_error_verdict access_denied = true
is_error_verdict changed_during_scan = true
is_error_verdict _ = false

abbrev pub head_is_backslash : WString → Bool
head_is_backslash [] = false
head_is_backslash (c ∷ s) = c == backslash

unfoldable pub at_or_under : WString → WString → Bool
at_or_under rel dir =
    if empty dir
    then true
    else if ltb (length rel) (length dir)
    then false
    else if not (starts_with dir rel)
    then false
    else length rel == length dir || head_is_backslash (drop (length dir) rel)

unfoldable pub under_any_error_dir : WString → List WString → Bool
unfolding at_or_under
under_any_error_dir rel error_dirs = any (at_or_under rel) error_dirs

-- The verdict's counter of `AccumulateJournalStats`.
unfoldable pub count_verdict : Status → Bool → Stats → Stats
count_verdict identical is_dir st =
    if is_dir
    then record st { identical_dirs = inc64 st.identical_dirs }
    else record st { identical_files = inc64 st.identical_files }
count_verdict identical_partial is_dir st = record st {
  identical_partial_files = inc64 st.identical_partial_files;
}
count_verdict size_mismatch is_dir st = record st { size_mismatch = inc64 st.size_mismatch }
count_verdict content_mismatch is_dir st = record st {
  content_mismatch = inc64 st.content_mismatch;
}
count_verdict content_mismatch_partial is_dir st = record st {
  content_mismatch_partial = inc64 st.content_mismatch_partial;
}
count_verdict missing is_dir st =
    if is_dir
    then record st { missing_dirs = inc64 st.missing_dirs }
    else record st { missing_files = inc64 st.missing_files }
count_verdict extra is_dir st =
    if is_dir
    then record st { extra_dirs = inc64 st.extra_dirs }
    else record st { extra_files = inc64 st.extra_files }
count_verdict _ is_dir st = st

-- The counters of the source side and of the destination side, for a side that is there.
unfoldable pub count_side_a : Bool → Bool → ℕ → Stats → Stats
count_side_a has is_dir size st =
    if not has
    then st
    else if is_dir
    then record st { source_dirs = inc64 st.source_dirs }
    else record st {
      source_files = inc64 st.source_files;
      bytes_source = add64 st.bytes_source size;
    }

unfoldable pub count_side_b : Bool → Bool → ℕ → Stats → Stats
count_side_b has is_dir size st =
    if not has
    then st
    else if is_dir
    then record st { dest_dirs = inc64 st.dest_dirs }
    else record st { dest_files = inc64 st.dest_files; bytes_dest = add64 st.bytes_dest size }

unfoldable pub accumulate_journal_stats :
    JournalEntry → Bool → Bool → ℕ → Bool → Bool → ℕ → Stats → Stats
unfolding count_verdict count_side_a count_side_b
accumulate_journal_stats e has_a a_is_dir a_size has_b b_is_dir b_size st =
    count_verdict e.verdict e.is_directory
      (count_side_b has_b b_is_dir b_size (count_side_a has_a a_is_dir a_size st))

-- The row of a reused entry, from its verdict.
abbrev pub base_row : JournalEntry → FileResult
base_row e = record new_result { relative_path = e.relative_path; is_directory = e.is_directory }

unfoldable pub reused_row : Status → JournalEntry → WString → WString → FileResult
reused_row missing e root_a root_b = record (base_row e) {
  status = missing;
  full_path = make_absolute root_a e.relative_path;
  size_source = e.size_a;
}
reused_row extra e root_a root_b = record (base_row e) {
  status = extra;
  full_path = make_absolute root_b e.relative_path;
  size_dest = e.size_b;
}
reused_row size_mismatch e root_a root_b = record (base_row e) {
  status = size_mismatch;
  full_path = make_absolute root_b e.relative_path;
  size_source = e.size_a;
  size_dest = e.size_b;
  is_directory = false;
}
reused_row content_mismatch e root_a root_b = record (base_row e) {
  status = content_mismatch;
  full_path = make_absolute root_a e.relative_path;
  size_source = e.size_a;
  size_dest = e.size_b;
  has_hash_source = e.has_hash_a;
  has_hash_dest = e.has_hash_b;
  hash_source = e.hash_a;
  hash_dest = e.hash_b;
  is_directory = false;
}
reused_row content_mismatch_partial e root_a root_b = record (base_row e) {
  status = content_mismatch_partial;
  full_path = make_absolute root_a e.relative_path;
  size_source = e.size_a;
  size_dest = e.size_b;
  has_hash_source = e.has_hash_a;
  has_hash_dest = e.has_hash_b;
  hash_source = e.hash_a;
  hash_dest = e.hash_b;
  verified_percent = e.verified_percent;
  verified_pattern = e.verified_pattern;
  is_directory = false;
}
reused_row _ e root_a root_b = base_row e

unfoldable pub reused_file_result : JournalEntry → WString → WString → FileResult
unfolding reused_row
reused_file_result e root_a root_b = reused_row e.verdict e root_a root_b
