-- ===== src/Tests/Data.antt =====
-- Concrete parameters and data.
use check_sync_files.Common.{ℕ, refl, Bool, false, some, [], ◌∷◌, map}
use check_sync_files.Text.{WString, lit}
use check_sync_files.Windows.{Win, IsCharwise}
use check_sync_files.Path.{ascii_upper}
use check_sync_files.Entry.{FileEntry, ReparseKind, edges}
use check_sync_files.Result.{
  Status, missing, extra, content_mismatch, FileResult, new_result, ResultSet, zero_stats,
  zero_digest,
}
use check_sync_files.Session.{JournalEntry}

-- A case mapping of the ASCII letters, and texts that stand for themselves.
abbrev pub ascii : Win
ascii = record {
  lc_map_upper = λ s. some (map ascii_upper s);
  wide_to_utf8 = λ s. some s;
  utf8_to_wide = λ s. some s;
  sha256 = λ s. some zero_digest;
}

pub ascii-IsCharwise : IsCharwise ascii
unfolding ascii_upper
ascii-IsCharwise = record {
  upper = ascii_upper;
  upper-backslash = refl;
  lc_map_upper_lem = λ c s. refl;
}

abbrev pub left : WString
left = lit "C:\\left"

abbrev pub right : WString
right = lit "D:\\right"

abbrev pub row : Status → WString → Bool → FileResult
row status rel is_dir = record new_result {
  status = status;
  relative_path = rel;
  is_directory = is_dir;
  src_is_directory = is_dir;
  dst_is_directory = is_dir;
  size_source = 5;
}

-- A new file, a changed file, an extra file two directories deep, and a path that climbs.
abbrev pub results : ResultSet
results = record {
  stats = zero_stats;
  problems =
      row missing (lit "a\\new") false
      ∷ row content_mismatch (lit "b") false
      ∷ row extra (lit "old\\x\\y") false
      ∷ row missing (lit "..\\up") false
      ∷ [];
}

abbrev pub entry : WString → ℕ → ReparseKind → FileEntry
entry rel size kind = record {
  relative_path = rel;
  size = size;
  last_write_time = 9;
  attributes = 0;
  file_id = 1;
  is_directory = false;
  reparse_kind = kind;
  link_target = lit "target";
}

abbrev pub saved : Status → Bool → JournalEntry
saved verdict is_dir = record {
  relative_path = lit "dir";
  size_a = 7;
  mtime_a = 9;
  has_hash_a = false;
  hash_a = zero_digest;
  size_b = 7;
  mtime_b = 9;
  has_hash_b = false;
  hash_b = zero_digest;
  verdict = verdict;
  verified_percent = 100;
  verified_pattern = edges;
  is_directory = is_dir;
}
