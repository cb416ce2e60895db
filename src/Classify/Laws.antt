-- ===== src/Classify/Laws.antt =====
-- What `ClassifyMatched` of src/Comparison/ClassifyUtil.cpp does to counters, rows and candidates.
use check_sync_files.Common.{
  List, ◌++◌, if◌then◌else◌, ℕ, ◌+◌, ◌<◌, ◌≡◌, ◌↔◌, Bool, true, false, [], ◌∷◌, arith, length,
  length-append, u64_mod, not, ◌&&◌, ◌==◌, ◌≢◌,
}
use check_sync_files.Text.{WString, eqw}
use check_sync_files.Text.Laws.{eqw_iff}
use check_sync_files.Windows.{Win}
use check_sync_files.Entry.{
  FileEntry, ScanMode, presence, size_only, content, is_plain, is_supported_link,
}
use check_sync_files.Reparse.{normalize_link_target_for_compare}
use check_sync_files.Result.{Stats, Status}
use check_sync_files.Classify.OneMore.{OneMore, AtLeast, AtLeast-OneMore}
use check_sync_files.Classify.{
  Sink, LinkDecision, try_classify_links, classify_link, classify_files, classify_matched, emit,
  compare_targets, content_candidate,
}

-- The matched pairs that the counters have seen.
abbrev pub matched_total : Stats → ℕ
matched_total st =
    st.identical_files + st.identical_dirs + st.size_mismatch + st.content_mismatch + st.read_errors

-- None of these counters is at the top of its range.
abbrev pub HasRoom : Stats → Type 0
HasRoom st =
    (st.identical_files + 1 < u64_mod)
    × (st.identical_dirs + 1 < u64_mod)
    × (st.size_mismatch + 1 < u64_mod)
    × (st.content_mismatch + 1 < u64_mod)
    × (st.read_errors + 1 < u64_mod)

abbrev pub accounted : Sink → ℕ
accounted s = matched_total s.results.stats + length s.candidates

emit-results :
    (observed : Bool) (src dst : FileEntry) (v : Status) (d : Bool) (s : Sink)
    → ((emit observed src dst v d s).results ≡ s.results)
      × ((emit observed src dst v d s).candidates ≡ s.candidates)
unfolding emit
emit-results observed src dst v d s = ground arith

classify_link-accounted :
    (observed : Bool) (src dst : FileEntry) (link : LinkDecision) (s : Sink)
    → HasRoom s.results.stats
    → accounted (classify_link observed src dst link s) ≡ accounted s + 1
unfolding classify_link
classify_link-accounted observed src dst link s h = ground arith

classify_files-accounted :
    (observed : Bool) (src dst : FileEntry) (mode : ScanMode) (dest_root : WString) (s : Sink)
    → HasRoom s.results.stats
    → accounted (classify_files observed src dst mode dest_root s).0 ≡ accounted s + 1
unfolding classify_files
classify_files-accounted observed src dst presence dest_root s h = ground arith
classify_files-accounted observed src dst size_only dest_root s h = ground arith
classify_files-accounted observed src dst content dest_root s h =
    ground (arith, length-append s.candidates (content_candidate src dst ∷ []))

-- The five counters of matched pairs, and the number of content candidates.
abbrev pub tallies : Sink → List ℕ
tallies s =
    s.results.stats.identical_files
    ∷ s.results.stats.identical_dirs
    ∷ s.results.stats.size_mismatch
    ∷ s.results.stats.content_mismatch
    ∷ s.results.stats.read_errors
    ∷ length s.candidates
    ∷ []

classify_link-AtLeast :
    (observed : Bool) (src dst : FileEntry) (link : LinkDecision) (s : Sink)
    → HasRoom s.results.stats
    → AtLeast (tallies s) (tallies (classify_link observed src dst link s))
unfolding classify_link
classify_link-AtLeast observed src dst link s h = ground arith

classify_files-AtLeast :
    (observed : Bool) (src dst : FileEntry) (mode : ScanMode) (dest_root : WString) (s : Sink)
    → HasRoom s.results.stats
    → AtLeast (tallies s) (tallies (classify_files observed src dst mode dest_root s).0)
unfolding classify_files
classify_files-AtLeast observed src dst presence dest_root s h = ground arith
classify_files-AtLeast observed src dst size_only dest_root s h = ground arith
classify_files-AtLeast observed src dst content dest_root s h =
    ground (arith, length-append s.candidates (content_candidate src dst ∷ []))

classify_matched-AtLeast :
    (w : Win) (src dst : FileEntry) (mode : ScanMode) (dest_root source_root : WString)
    (observed : Bool) (s : Sink)
    → HasRoom s.results.stats
    → AtLeast
        (tallies s)
        (tallies (classify_matched w src dst mode dest_root source_root observed s).0)
unfolding classify_matched
classify_matched-AtLeast w src dst mode dest_root source_root observed s h = ground (
  arith,
  classify_link-AtLeast observed src dst (try_classify_links w src dst source_root dest_root) s h,
  classify_files-AtLeast observed src dst mode dest_root s h,
)

classify_matched-sum :
    (w : Win) (src dst : FileEntry) (mode : ScanMode) (dest_root source_root : WString)
    (observed : Bool) (s : Sink)
    → HasRoom s.results.stats
    → accounted (classify_matched w src dst mode dest_root source_root observed s).0
      ≡ accounted s + 1
unfolding classify_matched
classify_matched-sum w src dst mode dest_root source_root observed s h = ground (
  arith,
  classify_link-accounted observed src dst (try_classify_links w src dst source_root dest_root) s h,
  classify_files-accounted observed src dst mode dest_root s h,
)

-- Every matched pair is accounted for exactly once: of the five counters of matched pairs and the
-- number of content candidates, one grows by one and the others stay, as long as no counter is at the
-- top of its range.
pub classify_matched-accounted :
    (w : Win) (src dst : FileEntry) (mode : ScanMode) (dest_root source_root : WString)
    (observed : Bool) (s : Sink)
    → HasRoom s.results.stats
    → OneMore
        (tallies s)
        (tallies (classify_matched w src dst mode dest_root source_root observed s).0)
classify_matched-accounted w src dst mode dest_root source_root observed s h =
    let r = (classify_matched w src dst mode dest_root source_root observed s).0 in
    AtLeast-OneMore (tallies s) (tallies r)
      (classify_matched-AtLeast w src dst mode dest_root source_root observed s h)
      (omega (arith, classify_matched-sum w src dst mode dest_root source_root observed s h))

try_classify_links-handled :
    (w : Win) (src dst : FileEntry) (source_root dest_root : WString)
    → (try_classify_links w src dst source_root dest_root).handled
      ≡ not (is_plain src.reparse_kind && is_plain dst.reparse_kind)
unfolding try_classify_links
try_classify_links-handled w src dst source_root dest_root = ground arith

-- Two plain files of one size.
abbrev pub same_size_files : FileEntry → FileEntry → Bool
same_size_files src dst =
    is_plain src.reparse_kind
    && is_plain dst.reparse_kind
    && not src.is_directory
    && not dst.is_directory
    && src.size == dst.size

abbrev pub is_content : ScanMode → Bool
is_content content = true
is_content _ = false

-- What deferral does: the flag, and the candidate that is added at the end.
abbrev pub IsDeferredWhen : Bool → FileEntry → FileEntry → Sink → Sink × Bool → Type 0
IsDeferredWhen deferred src dst s r =
    (r.1 ≡ deferred)
    × (r.0.candidates
        ≡ (if deferred then s.candidates ++ (content_candidate src dst ∷ []) else s.candidates))

classify_files-deferred :
    (observed : Bool) (src dst : FileEntry) (mode : ScanMode) (dest_root : WString) (s : Sink)
    → IsDeferredWhen
        (is_content mode && src.size == dst.size)
        src
        dst
        s
        (classify_files observed src dst mode dest_root s)
unfolding classify_files
classify_files-deferred observed src dst mode dest_root s = ground arith

classify_link-candidates :
    (observed : Bool) (src dst : FileEntry) (link : LinkDecision) (s : Sink)
    → (classify_link observed src dst link s).candidates ≡ s.candidates
unfolding classify_link
classify_link-candidates observed src dst link s = ground arith

-- A pair is deferred to the hash phase exactly when the mode is Content and both entries are plain
-- files of one size: never a directory, a link, or a pair of which one side is a link. Then the pair's
-- candidate is added behind the others and the function returns true; in all other cases the
-- candidates stay as they are and it returns false.
pub classify_matched-deferred :
    (w : Win) (src dst : FileEntry) (mode : ScanMode) (dest_root source_root : WString)
    (observed : Bool) (s : Sink)
    → IsDeferredWhen
        (is_content mode && same_size_files src dst)
        src
        dst
        s
        (classify_matched w src dst mode dest_root source_root observed s)
unfolding classify_matched
classify_matched-deferred w src dst mode dest_root source_root observed s = ground (
  arith,
  try_classify_links-handled w src dst source_root dest_root,
  classify_link-candidates observed src dst (try_classify_links w src dst source_root dest_root) s,
  classify_files-deferred observed src dst mode dest_root s,
)

compare_targets-identical :
    (w : Win) (src dst : FileEntry) (source_root dest_root : WString)
    → (compare_targets w src dst source_root dest_root).identical
      ≡ eqw
          (normalize_link_target_for_compare w src.link_target source_root)
          (normalize_link_target_for_compare w dst.link_target dest_root)
unfolding compare_targets
compare_targets-identical w src dst source_root dest_root = ground arith

-- Two entries are taken for identical links exactly when both are supported links of one kind, both
-- targets could be read, and the targets agree once each is taken relative to its own root.
pub try_classify_links-identical :
    (w : Win) (src dst : FileEntry) (source_root dest_root : WString)
    → ((try_classify_links w src dst source_root dest_root).identical ≡ true) ↔ (
        (is_supported_link src.reparse_kind ≡ true)
        × (src.reparse_kind ≡ dst.reparse_kind)
        × (src.link_target ≢ [])
        × (dst.link_target ≢ [])
        × (normalize_link_target_for_compare w src.link_target source_root
            ≡ normalize_link_target_for_compare w dst.link_target dest_root))
unfolding try_classify_links
try_classify_links-identical w src dst source_root dest_root = ground (
  arith,
  compare_targets-identical w src dst source_root dest_root,
  eqw_iff (normalize_link_target_for_compare w src.link_target source_root)
      (normalize_link_target_for_compare w dst.link_target dest_root),
)
