-- ===== src/Compare/Laws.antt =====
-- The serial and the concurrent classifier agree (src/Comparison/FileComparator.cpp and
-- src/Comparison/ClassifyUtil.cpp).
use check_sync_files.Common.{◌≡◌, Bool, arith}
use check_sync_files.Text.{WString}
use check_sync_files.Windows.{Win}
use check_sync_files.Entry.{FileEntry, ScanMode}
use check_sync_files.Classify.{Sink, LinkDecision, classify_link, classify_matched}
use check_sync_files.Compare.{Matched, compare_link, compare_matched}

abbrev pub matched_of : Sink → Matched
matched_of s = record { results = s.results; pending = s.candidates }

compare_link-classify_link :
    (observed : Bool) (src dst : FileEntry) (link : LinkDecision) (s : Sink)
    → compare_link link (matched_of s) ≡ matched_of (classify_link observed src dst link s)
unfolding compare_link classify_link
compare_link-classify_link observed src dst link s = ground arith

-- On every pair, in every mode and with or without an observer, the serial classifier leaves the
-- counters, the problems and the pending content candidates that the concurrent one leaves.
pub compare_matched-classify_matched :
    (w : Win) (src dst : FileEntry) (mode : ScanMode) (source_root dest_root : WString)
    (observed : Bool) (s : Sink)
    → compare_matched w src dst mode source_root dest_root (matched_of s)
      ≡ matched_of (classify_matched w src dst mode dest_root source_root observed s).0
unfolding compare_matched classify_matched
compare_matched-classify_matched w src dst mode source_root dest_root observed s = ground arith
