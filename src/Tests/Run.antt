-- ===== src/Tests/Run.antt =====
-- The theorems on the streaming comparison, at concrete data.
use check_sync_files.Common.{
  ◌≡◌, ◌+◌, ◌%◌, refl, false, none, List, [], ◌∷◌, ◌++◌, map, if◌then◌else◌, u64_mod,
}
use check_sync_files.Text.{lit, eqw, sort_strings}
use check_sync_files.Map.{total, lookup}
use check_sync_files.Entry.{plain, content}
use check_sync_files.Index.{FileIndex, find}
use check_sync_files.Index.Laws.{file_weight, dir_weight}
use check_sync_files.Result.{empty_results}
use check_sync_files.Compare.{Matched}
use check_sync_files.Compare.Run.{Event, Run, entry, stream, sort_items, record_missing}
use check_sync_files.Compare.Run.Source.{is_matched, find-stream}
use check_sync_files.Compare.Run.Missing.{
  file_rows, dir_rows, record_missing-problems, record_missing-counts,
}
use check_sync_files.Tests.Data
use check_sync_files.Tests.Data.{ascii, left, right}

abbrev matched : Matched
matched = record { results = empty_results; pending = [] }

-- Two files, of which the destination holds one under another case.
abbrev source : FileIndex
source = record {
  entries = (lit "A", Data.entry (lit "a") 5 plain) ∷ (lit "B", Data.entry (lit "b") 6 plain) ∷ [];
  hashes = [];
  stats = record { files = 2; dirs = 0; bytes = 11 };
  case_sensitive = false;
  collision_count = 0;
}

abbrev start : Run
start = record { source = source; matched = matched; extra_folded = [] }

abbrev events : List Event
events =
    entry (Data.entry (lit "A") 5 plain) false ∷ entry (Data.entry (lit "c") 1 plain) false ∷ []

find-stream_example : find ascii (lit "b") (stream ascii content left right events start).source ≡ (
    if is_matched ascii content left right false (lit "b") events
    then none
    else find ascii (lit "b") source)
unfolding lookup eqw lit
find-stream_example = find-stream ascii content left right events start (lit "b") (refl, (refl, tt))

record_missing-problems_example :
    (record_missing left source matched).results.problems
    ≡ matched.results.problems
      ++ (file_rows left (sort_items source.entries)
          ++ dir_rows left
              (sort_strings (map (λ x. x.0) source.entries))
              (sort_items source.entries))
record_missing-problems_example = record_missing-problems left source matched

record_missing-counts_example :
    let st = (record_missing left source matched).results.stats in
    (st.missing_files % u64_mod
      ≡ (matched.results.stats.missing_files + total file_weight source.entries) % u64_mod)
    × (st.missing_dirs % u64_mod
        ≡ (matched.results.stats.missing_dirs + total dir_weight source.entries) % u64_mod)
record_missing-counts_example = record_missing-counts left source matched
