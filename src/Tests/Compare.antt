-- ===== src/Tests/Compare.antt =====
-- The theorems on paths, indexes and the comparison of entries, at concrete data.
use check_sync_files.Common.{
  ◌≡◌, ◌≢◌, ◌+◌, ◌↔◌, refl, true, false, ◌&&◌, none, some, [], ◌∷◌, ◌++◌, any, arith, if◌then◌else◌,
  ◌==◌, ◌/◌, ◌*◌, pos, clamp_one,
}
use check_sync_files.Text.{lit, eqw, backslash, starts_with, sort_strings}
use check_sync_files.Text.Order.{sort_strings-Sorted}
use check_sync_files.Path.{
  fold_for_compare, ascii_upper, strip_long_prefix, add_long_path_prefix, has_descendant,
}
use check_sync_files.Path.Laws.{has_descendant-any, strip_long_prefix-add_long_path_prefix}
use check_sync_files.Map.{NodupKeys, insert, lookup}
use check_sync_files.Entry.{plain, symlink_file, is_supported_link, content, edges}
use check_sync_files.Index.{FileIndex, new_index, index_key, add_entry, find, try_erase, build}
use check_sync_files.Index.Laws.{
  IsValid, new_index-IsValid, add_entry-IsValid, find-add_entry, try_erase_lem, build-IsValid,
}
use check_sync_files.Result.{empty_results}
use check_sync_files.Reparse.{normalize_link_target_for_compare}
use check_sync_files.Classify.{Sink, classify_matched, try_classify_links}
use check_sync_files.Classify.OneMore.{OneMore}
use check_sync_files.Classify.Laws.{
  tallies, IsDeferredWhen, is_content, same_size_files, classify_matched-accounted,
  classify_matched-deferred, try_classify_links-identical,
}
use check_sync_files.Compare.{compare_matched}
use check_sync_files.Compare.Laws.{matched_of, compare_matched-classify_matched}
use check_sync_files.Partial.{percent_unit, target_blocks, compute_partial_read_plan}
use check_sync_files.Partial.Laws.{
  IsSample, compute_partial_read_plan-IsSample, target_blocks-exact,
}
use check_sync_files.Tests.Data.{ascii, left, right, entry}

abbrev sink : Sink
sink = record { results = empty_results; candidates = []; rows = [] }

compare_matched-classify_matched_example :
    compare_matched ascii
      (entry (lit "a") 5 plain)
      (entry (lit "A") 5 plain)
      content
      left
      right
      (matched_of sink)
    ≡ matched_of
        (classify_matched ascii
          (entry (lit "a") 5 plain)
          (entry (lit "A") 5 plain)
          content
          right
          left
          true
          sink).0
compare_matched-classify_matched_example =
    compare_matched-classify_matched ascii (entry (lit "a") 5 plain) (entry (lit "A") 5 plain)
      content left right true sink

classify_matched-accounted_example : OneMore (tallies sink) (
    tallies
      (classify_matched ascii
        (entry (lit "a") 5 plain)
        (entry (lit "A") 6 plain)
        content
        right
        left
        true
        sink).0)
classify_matched-accounted_example =
    classify_matched-accounted ascii (entry (lit "a") 5 plain) (entry (lit "A") 6 plain) content
      right left true sink (omega arith, omega arith, omega arith, omega arith, omega arith)

classify_matched-deferred_example :
    IsDeferredWhen
      (is_content content && same_size_files (entry (lit "a") 5 plain) (entry (lit "A") 5 plain))
      (entry (lit "a") 5 plain)
      (entry (lit "A") 5 plain)
      sink
      (classify_matched ascii
        (entry (lit "a") 5 plain)
        (entry (lit "A") 5 plain)
        content
        right
        left
        true
        sink)
classify_matched-deferred_example =
    classify_matched-deferred ascii (entry (lit "a") 5 plain) (entry (lit "A") 5 plain) content
      right left true sink

try_classify_links-identical_example :
    ((try_classify_links ascii
        (entry (lit "a") 0 symlink_file)
        (entry (lit "a") 0 symlink_file)
        left
        right).identical
      ≡ true)
    ↔ ((is_supported_link symlink_file ≡ true)
        × (symlink_file ≡ symlink_file)
        × (lit "target" ≢ [])
        × (lit "target" ≢ [])
        × (normalize_link_target_for_compare ascii (lit "target") left
            ≡ normalize_link_target_for_compare ascii (lit "target") right))
try_classify_links-identical_example =
    try_classify_links-identical ascii (entry (lit "a") 0 symlink_file)
      (entry (lit "a") 0 symlink_file) left right

add_entry-IsValid_example :
    IsValid ascii (add_entry ascii (entry (lit "a") 5 plain) (new_index false))
add_entry-IsValid_example =
    add_entry-IsValid ascii (entry (lit "a") 5 plain) (new_index false)
      (new_index-IsValid ascii false) (omega arith)

build-IsValid_example : IsValid ascii (
    build ascii
      ((entry (lit "a") 5 plain, false) ∷ (entry (lit "A") 6 plain, false) ∷ [])
      (new_index false))
build-IsValid_example =
    build-IsValid ascii ((entry (lit "a") 5 plain, false) ∷ (entry (lit "A") 6 plain, false) ∷ [])
      (new_index false) (omega arith, (omega arith, tt))

find-add_entry_example :
    find ascii (lit "A") (add_entry ascii (entry (lit "a") 5 plain) (new_index false)) ≡ (
      if eqw (index_key ascii false (lit "a")) (index_key ascii false (lit "A"))
      then some (entry (lit "a") 5 plain)
      else find ascii (lit "A") (new_index false))
find-add_entry_example = find-add_entry ascii (entry (lit "a") 5 plain) (lit "A") (new_index false)

-- An index of two files, of which one is erased under a path of another case.
abbrev two_files : FileIndex
two_files =
    add_entry ascii (entry (lit "b") 6 plain)
      (add_entry ascii (entry (lit "a") 5 plain) (new_index false))

two_files-NodupKeys : NodupKeys two_files.entries
unfolding add_entry insert lookup index_key fold_for_compare ascii_upper lit eqw
two_files-NodupKeys = (refl, (refl, tt))

two_files-found : find ascii (lit "A") two_files ≡ some (entry (lit "a") 5 plain)
unfolding add_entry insert lookup index_key fold_for_compare ascii_upper lit eqw find
two_files-found = refl

try_erase_lem_example :
    let (out, idx) = try_erase ascii (lit "A") two_files in
    (out ≡ find ascii (lit "A") two_files)
    × (find ascii (lit "b") idx ≡ (
        if eqw
          (index_key ascii two_files.case_sensitive (lit "A"))
          (index_key ascii two_files.case_sensitive (lit "b"))
        then none
        else find ascii (lit "b") two_files))
    × NodupKeys idx.entries
    × (idx.stats ≡ two_files.stats)
    × (idx.case_sensitive ≡ two_files.case_sensitive)
try_erase_lem_example = try_erase_lem ascii (lit "A") (lit "b") two_files two_files-NodupKeys

has_descendant-any_example :
    has_descendant (sort_strings (lit "A\\B" ∷ lit "A" ∷ [])) (lit "A")
    ≡ any (starts_with (lit "A" ++ (backslash ∷ []))) (sort_strings (lit "A\\B" ∷ lit "A" ∷ []))
has_descendant-any_example =
    has_descendant-any (sort_strings (lit "A\\B" ∷ lit "A" ∷ [])) (lit "A")
      (sort_strings-Sorted (lit "A\\B" ∷ lit "A" ∷ []))

strip_long_prefix-add_long_path_prefix_example :
    strip_long_prefix (add_long_path_prefix (lit "\\\\server\\share")) ≡ lit "\\\\server\\share"
unfolding lit starts_with
strip_long_prefix-add_long_path_prefix_example =
    strip_long_prefix-add_long_path_prefix (lit "\\\\server\\share") refl refl

-- Ten percent of 50 MiB and a half.
compute_partial_read_plan-IsSample_example :
    IsSample 52953088
      (target_blocks 52953088 (clamp_one (pos 10)))
      (compute_partial_read_plan 52953088 (pos 10) edges)
compute_partial_read_plan-IsSample_example =
    compute_partial_read_plan-IsSample 52953088 (pos 10) edges (omega arith)

target_blocks-exact_example : target_blocks 52953088 10 ≡ (
    if (52953088 * 10 + percent_unit / 2) / percent_unit == 0
    then 1
    else (52953088 * 10 + percent_unit / 2) / percent_unit)
target_blocks-exact_example = target_blocks-exact 52953088 10 (omega arith) (omega arith)
