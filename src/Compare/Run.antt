-- ===== src/Compare/Run.antt =====
-- `FileComparator::run` and `recordMissing` of src/Comparison/FileComparator.cpp.
pub mod Source
pub mod Missing
use check_sync_files.Common.{
  ℕ, Bool, true, false, ◌&&◌, not, Option, none, some, List, [], ◌∷◌, ◌++◌, map, ◌==◌,
  if◌then◌else◌, select,
}
use check_sync_files.Text.{WString, ltw, sort_strings, unique}
use check_sync_files.Windows.{Win}
use check_sync_files.Path.{make_absolute, fold_for_compare, has_descendant}
use check_sync_files.Map.{Map}
use check_sync_files.Entry.{FileEntry, ScanMode, inc64, add64}
use check_sync_files.Index.{FileIndex, try_erase}
use check_sync_files.Result.{
  Status, missing, extra, read_error, access_denied, FileResult, new_result, Stats,
}
use check_sync_files.Compare.{Matched, count, push, compare_matched}

pub record ScanError : Type 0 where
  pub path : WString
  pub message : WString
  pub win_error : ℕ
  pub lost_device : Bool

-- What the enumerator of the destination hands over: an entry, with the value of the cancel flag
-- that the callback reads, or an error.
pub data Event : Type 0 where
  entry : FileEntry → Bool → Event
  failed : ScanError → Event

pub record Run : Type 0 where
  pub source : FileIndex
  pub matched : Matched
  pub extra_folded : List WString

abbrev pub error_access_denied : ℕ
error_access_denied = 5

abbrev pub is_extra : Status → Bool
is_extra extra = true
is_extra _ = false

-- The counters of the destination side.
unfoldable pub count_dest : FileEntry → Stats → Stats
count_dest e st =
    if e.is_directory
    then record st { dest_dirs = inc64 st.dest_dirs }
    else record st { dest_files = inc64 st.dest_files; bytes_dest = add64 st.bytes_dest e.size }

unfoldable pub count_extra : FileEntry → Stats → Stats
count_extra e st =
    if e.is_directory
    then record st { extra_dirs = inc64 st.extra_dirs }
    else record st { extra_files = inc64 st.extra_files }

unfoldable pub extra_row : FileEntry → WString → FileResult
extra_row e dest_root = record new_result {
  status = extra;
  full_path = make_absolute dest_root e.relative_path;
  relative_path = e.relative_path;
  size_dest = e.size;
  is_directory = e.is_directory;
  reparse_kind = e.reparse_kind;
  dst_is_directory = e.is_directory;
}

unfoldable pub error_row : ScanError → WString → FileResult
error_row err dest_root = record new_result {
  is_directory = true;
  full_path = make_absolute dest_root err.path;
  relative_path = err.path;
  error_message = err.message;
  status = if err.win_error == error_access_denied then access_denied else read_error;
}

unfoldable pub count_error : ScanError → Stats → Stats
count_error err st =
    if err.win_error == error_access_denied
    then record st { access_denied = inc64 st.access_denied }
    else record st { read_errors = inc64 st.read_errors }

module _ (w : Win) (mode : ScanMode) (source_root dest_root : WString) where
  -- The entry callback, for an entry that the index found and took out, or did not find.
  unfoldable pub on_found : Option FileEntry × FileIndex → FileEntry → Run → Run
  on_found (some src, source) e r = record r {
    source = source;
    matched = compare_matched w src e mode source_root dest_root r.matched;
  }
  on_found (none, source) e r = record r {
    matched = push (extra_row e dest_root) (count (count_extra e) r.matched);
    extra_folded = r.extra_folded ++ (fold_for_compare w e.relative_path ∷ []);
  }

  unfoldable pub on_entry : FileEntry → Run → Run
  unfolding on_found
  on_entry e r =
      on_found (try_erase w e.relative_path r.source) e
        (record r { matched = count (count_dest e) r.matched })

  unfoldable pub on_error : ScanError → Run → Run
  on_error err r = record r {
    matched = push (error_row err dest_root) (count (count_error err) r.matched);
  }

  -- The enumeration: a callback that reads the cancel flag as set stops it.
  unfoldable pub stream : List Event → Run → Run
  unfolding on_entry on_error
  stream [] r = r
  stream (entry e cancelled ∷ events) r =
      let rest = stream events (on_entry e r) in if cancelled then r else rest
  stream (failed err ∷ events) r = stream events (on_error err r)

abbrev pub no_strings : List WString → Bool
no_strings [] = true
no_strings (x ∷ xs) = false

-- An extra directory with an extra descendant is not reported itself.
unfoldable pub is_redundant : Win → List WString → FileResult → Bool
is_redundant w keys r =
    is_extra r.status && r.is_directory && has_descendant keys (fold_for_compare w r.relative_path)

unfoldable pub filter_extra : Win → List WString → List FileResult → List FileResult
unfolding is_redundant
filter_extra w extra_folded problems =
    if no_strings extra_folded
    then problems
    else select (λ r. not (is_redundant w (unique (sort_strings extra_folded)) r)) problems

-- `items`, sorted by key. The keys of an index are distinct, so the order is determined.
unfoldable pub insert_item : WString × FileEntry → Map FileEntry → Map FileEntry
insert_item x [] = x ∷ []
insert_item x (y ∷ items) =
    let rest = insert_item x items in if ltw y.0 x.0 then y ∷ rest else x ∷ y ∷ items

unfoldable pub sort_items : Map FileEntry → Map FileEntry
unfolding insert_item
sort_items [] = []
sort_items (x ∷ items) = insert_item x (sort_items items)

unfoldable pub missing_file_row : FileEntry → WString → FileResult
missing_file_row e source_root = record new_result {
  status = missing;
  full_path = make_absolute source_root e.relative_path;
  relative_path = e.relative_path;
  size_source = e.size;
  is_directory = false;
  reparse_kind = e.reparse_kind;
  src_is_directory = e.is_directory;
  src_reparse_kind = e.reparse_kind;
}

unfoldable pub missing_dir_row : FileEntry → WString → FileResult
missing_dir_row e source_root = record new_result {
  status = missing;
  full_path = make_absolute source_root e.relative_path;
  relative_path = e.relative_path;
  is_directory = true;
  reparse_kind = e.reparse_kind;
  src_is_directory = true;
  src_reparse_kind = e.reparse_kind;
}

module _ (source_root : WString) where
  unfoldable pub missing_file : FileEntry → Matched → Matched
  unfolding missing_file_row
  missing_file e m =
      if e.is_directory
      then count (λ st. record st { missing_dirs = inc64 st.missing_dirs }) m
      else push (missing_file_row e source_root)
          (count (λ st. record st { missing_files = inc64 st.missing_files }) m)

  -- The first loop of `recordMissing`: every entry is counted, and the files are reported.
  unfoldable pub missing_files_loop : Map FileEntry → Matched → Matched
  unfolding missing_file
  missing_files_loop [] m = m
  missing_files_loop ((k, e) ∷ items) m = missing_files_loop items (missing_file e m)

  unfoldable pub missing_dir : List WString → WString → FileEntry → Matched → Matched
  unfolding missing_dir_row
  missing_dir keys key e m =
      if e.is_directory && not (has_descendant keys key)
      then push (missing_dir_row e source_root) m
      else m

  -- The second loop: the directories with no entry below them are reported.
  unfoldable pub missing_dirs_loop : List WString → Map FileEntry → Matched → Matched
  unfolding missing_dir
  missing_dirs_loop keys [] m = m
  missing_dirs_loop keys ((k, e) ∷ items) m = missing_dirs_loop keys items (missing_dir keys k e m)

  unfoldable pub record_missing : FileIndex → Matched → Matched
  unfolding missing_files_loop missing_dirs_loop sort_items
  record_missing source m =
      let items = sort_items source.entries in
      missing_dirs_loop (map (λ x. x.0) items) items (missing_files_loop items m)

-- `run`: the enumeration reports whether the root could be read. Without it nothing is reported as
-- missing.
unfoldable pub run : Win → ScanMode → WString → WString → List Event → Bool → Run → Run × Bool
unfolding stream filter_extra record_missing
run w mode source_root dest_root events dest_ok r =
    let s = stream w mode source_root dest_root events r in
    let m = s.matched in
    let kept = filter_extra w s.extra_folded m.results.problems in
    if dest_ok
    then (
      record s {
        matched =
            record_missing source_root s.source
              (record m { results = record { stats = m.results.stats; problems = kept } });
      },
      true,
    )
    else (s, false)
