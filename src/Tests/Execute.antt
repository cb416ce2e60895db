-- ===== src/Tests/Execute.antt =====
-- The theorems on the execution of a plan, on a machine that keeps the paths that it was asked to
-- change.
use check_sync_files.Common.{
  ℕ, ◌<◌, ◌≡◌, refl, true, false, List, [], ◌∷◌, ◌⊎◌, inl, inr, All, arith, ltb, if◌then◌else◌,
}
use check_sync_files.Text.{WString, lit, eqw, starts_with}
use check_sync_files.Path.{
  add_long_path_prefix, normalize_root, fold_for_compare, strip_long_prefix, trim_back, within,
  ascii_upper,
}
use check_sync_files.State.{Action, branch, ◌>>=◌, ◌>>◌, pure, attempt}
use check_sync_files.State.Laws.{Ensures, Anything}
use check_sync_files.Sync.Fs.{SyncFs, absent, DeleteDirOutcome}
use check_sync_files.Sync.Plan.{SyncPlan, SyncAction, make_action, new_plan, dir_create, file_copy}
use check_sync_files.Entry.{plain}
use check_sync_files.Sync.Build.{build_sync_plan}
use check_sync_files.Sync.Execute.Loop.{
  new_report, no_space_report, execute_plan, execute_from, after, run_action, run_op,
  create_dir_step, clear_dir_dest, clear_dir_kind, finish_item,
}
use check_sync_files.Sync.Execute.Runs.{IsTooBig, RunOf, execute_plan-RunOf}
use check_sync_files.Sync.Execute.Account.{IsAccountOf, execute_plan-IsAccount}
use check_sync_files.Sync.Execute.Below.{AtOrBelow}
use check_sync_files.Sync.Execute.Spares.{Spares}
use check_sync_files.Sync.Execute.Contained.{execute_plan-Keeps}
use check_sync_files.Sync.Path.{
  resolve_within_root, rel_ok, scan_components, ends_with_separator, flatten_separator,
  is_separator,
}
use check_sync_files.Tests.Data.{ascii, left, right, results}

abbrev pub Log : Type 0
Log = List WString

abbrev pub answer : {A : Type 0} → A → Action Log A
answer a log = (a, log)

abbrev pub change : {A : Type 0} → WString → A → Action Log A
change path a log = (a, path ∷ log)

abbrev emptied : DeleteDirOutcome
emptied = record { ok = true; skipped = false; cancelled = false; message = [] }

-- Nothing stands at any place, and every change succeeds.
abbrev pub machine : SyncFs Log
machine = record {
  was_cancelled = answer false;
  last_error = answer 0;
  set_last_error = λ code. answer tt;
  stat_live_kind = λ path. answer absent;
  check_parent_chain = λ root path. answer [];
  read_link_target = λ path. answer [];
  free_bytes_on_volume = λ path. answer 100;
  clear_attributes = λ path. change path tt;
  remove_directory = λ path. change path true;
  delete_link = λ path is_dir. change path (inr tt);
  create_link = λ path target kind. change path (inr tt);
  copy_file_direct = λ src_root src dst_root dst. change dst (inr tt);
  create_dir_all = λ root path. change path (inr tt);
  delete_file_one = λ root path. change path (inr tt);
  delete_dir_guarded = λ root path allowed. change path emptied;
}

abbrev plan : SyncPlan
plan = build_sync_plan ascii results left right true

-- A changed path, with or without the long-path prefix, is the destination root or below it.
abbrev Inside : WString → Type 0
Inside path =
    (p : WString) × AtOrBelow plan.dest_root p × ((path ≡ p) ⊎ (path ≡ add_long_path_prefix p))

answer-Keeps : {A : Type 0} (a : A) → Ensures (All Inside) Anything (answer a)
answer-Keeps a = record { returns = λ s i. tt; keeps = λ s i. i }

change-Keeps :
    {A : Type 0} (path : WString) (a : A)
    → Inside path
    → Ensures (All Inside) Anything (change path a)
change-Keeps path a h = record { returns = λ s i. tt; keeps = λ s i. (h, i) }

machine-Spares : Spares machine plan (All Inside)
machine-Spares = record {
  was_cancelled = answer-Keeps false;
  last_error = answer-Keeps 0;
  set_last_error = λ code. answer-Keeps tt;
  stat_live_kind = λ path. answer-Keeps absent;
  check_parent_chain = λ root path. answer-Keeps [];
  read_link_target = λ path. answer-Keeps [];
  free_bytes_on_volume = λ path. answer-Keeps 100;
  clear_attributes = λ path h. change-Keeps _ tt (path, inr h, inr refl);
  remove_directory = λ path h. change-Keeps _ true (path, inr h, inr refl);
  delete_link = λ path is_dir h. change-Keeps path (inr tt) (path, inr h, inl refl);
  create_link = λ path target kind h. change-Keeps path (inr tt) (path, inr h, inl refl);
  copy_file_direct = λ src dst from h. change-Keeps dst (inr tt) (dst, inr h, inl refl);
  create_dir_all = λ path h. change-Keeps path (inr tt) (path, h, inl refl);
  delete_file_one = λ path h. change-Keeps path (inr tt) (path, inr h, inl refl);
  delete_dir_guarded = λ path allowed h. change-Keeps path emptied (path, inr h, inl refl);
}

execute_plan-Keeps_example : All Inside ((execute_plan ascii machine plan []).1)
execute_plan-Keeps_example = execute_plan-Keeps ascii machine plan machine-Spares [] tt

execute_plan-RunOf_example :
    (IsTooBig plan.summary.bytes_to_copy 100
      × (execute_plan ascii machine plan [] ≡ (no_space_report plan.summary.bytes_to_copy 100, [])))
    ⊎ ((¬ (IsTooBig plan.summary.bytes_to_copy 100))
        × RunOf ascii machine plan
            (if ltb 0 plan.summary.bytes_to_copy then [] else [])
            plan.actions
            new_report
            ((execute_plan ascii machine plan []).0)
            ((execute_plan ascii machine plan []).1))
execute_plan-RunOf_example = execute_plan-RunOf ascii machine plan []

-- A directory, and a copy with a path that climbs.
abbrev two_actions : List SyncAction
two_actions =
    make_action dir_create (lit "a") (record { is_dir = true; kind = plain; bytes = 0 })
    ∷ make_action file_copy (lit "..\\up") (record { is_dir = false; kind = plain; bytes = 5 })
    ∷ []

abbrev two_plan : SyncPlan
two_plan = record (new_plan left right true) { actions = two_actions }

execute_plan-IsAccount_example :
    ((free : ℕ) × (free < 0)
      × ((execute_plan ascii machine two_plan []).0 ≡ no_space_report 0 free))
    ⊎ IsAccountOf two_actions ((execute_plan ascii machine two_plan []).0)
execute_plan-IsAccount_example = execute_plan-IsAccount ascii machine two_plan [] (omega arith)

-- The directory is created; the copy is refused.
two_plan_runs :
    let report = (execute_plan ascii machine two_plan []).0 in
    (report.done_count ≡ 1) × (report.failed_count ≡ 1) × (report.cancelled ≡ false)
unfolding branch ◌>>=◌ ◌>>◌ pure attempt execute_plan execute_from after run_action run_op
    create_dir_step clear_dir_dest clear_dir_kind finish_item resolve_within_root rel_ok
    scan_components ends_with_separator flatten_separator is_separator lit eqw starts_with
    normalize_root fold_for_compare strip_long_prefix trim_back within ascii_upper
two_plan_runs = (refl, refl, refl)
