-- ===== src/Tests/Session.antt =====
-- The theorems on resumed sessions, at concrete data.
use check_sync_files.Common.{◌≡◌, ◌↔◌, refl, true, false, some, [], ◌∷◌}
use check_sync_files.Text.{lit, eqw}
use check_sync_files.Path.{fold_for_compare, ascii_upper}
use check_sync_files.Map.{lookup, insert}
use check_sync_files.Entry.{plain, content, edges}
use check_sync_files.Index.{FileIndex, new_index, add_entry, find, index_key}
use check_sync_files.Result.{missing, extra, identical}
use check_sync_files.Sync.Plan.{file_copy, file_delete, make_action, schedule, allow_extra}
use check_sync_files.Sync.Build.{plan_status, new_build}
use check_sync_files.Session.{ScanSettings, check_resume_compatible, needs_reverify}
use check_sync_files.Session.Laws.{IsCompatible, check_resume_compatible_iff}
use check_sync_files.Session.Resume.{
  ResumePlan, new_resume_plan, ResumeInput, reused_file_result, under_any_error_dir,
}
use check_sync_files.Session.Resume.Plan.{
  Resumed, refused, planned, plan_resume, decide, is_stale, reuse, plan_indexes,
}
use check_sync_files.Session.Resume.Laws.{IsSound, plan_resume-IsSound}
use check_sync_files.Session.Resume.Sides.{
  file_side, plan_status-reused_missing, plan_status-reused_extra,
}
use check_sync_files.Tests.Data.{ascii, left, right, entry, saved}

abbrev settings : ScanSettings
settings = record {
  mode = content;
  case_sensitive = false;
  backend = lit "auto";
  verify = record {
    percent_requested = 10;
    percent_effective = 10;
    pattern = edges;
    pattern_random = false;
  };
  hash_threads = 4;
}

check_resume_compatible_iff_example :
    ((check_resume_compatible settings (record settings { hash_threads = 8 })).ok ≡ true)
    ↔ IsCompatible settings (record settings { hash_threads = 8 })
check_resume_compatible_iff_example =
    check_resume_compatible_iff settings (record settings { hash_threads = 8 })

-- Both sides hold the file that the journal found identical.
current : FileIndex
current = add_entry ascii (entry (lit "dir") 7 plain) (new_index false)

abbrev input : ResumeInput
input = record {
  journal = some (saved identical false ∷ []);
  current_a = some current;
  current_b = some current;
  root_a = left;
  root_b = right;
  error_dirs_a = [];
  error_dirs_b = [];
}

abbrev plan_of : Resumed → ResumePlan
plan_of (refused detail) = new_resume_plan false
plan_of (planned p) = p

one_row_reused : (plan_of (plan_resume ascii input)).reused ≡ 1
unfolding current plan_resume decide is_stale reuse under_any_error_dir needs_reverify add_entry
    find lookup insert index_key fold_for_compare ascii_upper lit eqw plan_indexes
one_row_reused = refl

plan_resume-IsSound_example :
    IsSound ascii input current current (plan_of (plan_resume ascii input))
unfolding current plan_resume decide is_stale reuse under_any_error_dir needs_reverify add_entry
    find lookup insert index_key fold_for_compare ascii_upper lit eqw plan_indexes
plan_resume-IsSound_example =
    plan_resume-IsSound ascii input (saved identical false ∷ []) current current
      (plan_of (plan_resume ascii input)) refl refl refl refl

plan_status-reused_missing_example :
    (plan_status ascii missing
      (reused_file_result (saved missing true) left right)
      (new_build left right true)).draft
    ≡ schedule (make_action file_copy (lit "dir") (file_side 7)) (new_build left right true).draft
plan_status-reused_missing_example =
    plan_status-reused_missing ascii left right (saved missing true) (new_build left right true)
      refl

plan_status-reused_extra_example :
    (plan_status ascii extra
      (reused_file_result (saved extra true) left right)
      (new_build left right true)).draft
    ≡ schedule
        (make_action file_delete (lit "dir") (file_side 0))
        (allow_extra (fold_for_compare ascii (lit "dir")) (new_build left right true).draft)
plan_status-reused_extra_example =
    plan_status-reused_extra ascii left right (saved extra true) (new_build left right true) refl
