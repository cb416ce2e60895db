-- ===== src/Sync/Execute/Account.antt =====
-- The report of `ExecutePlan` (src/Sync/SyncExecutor.cpp) against the actions of the plan.
use mathlib.Core.List.{map-append, append_assoc}
use mathlib.Core.Path.{subst}
use check_sync_files.Common.{
  append-nil, ℕ, ◌+◌, ◌≤◌, ◌<◌, Bool, true, false, ◌≡◌, refl, sym, ap, ◌∙◌, List, [], ◌∷◌, ◌++◌,
  map, ◌⊎◌, inl, inr, arith, if◌then◌else◌, not, ◌&&◌, length, length-append, length-map, u64_mod,
}
use check_sync_files.Sorting.{sum_of, sum_of-append}
use check_sync_files.Text.{WString}
use check_sync_files.Windows.{Win}
use check_sync_files.Sync.Plan.{SyncOp, SyncAction, SyncPlan}
use check_sync_files.Sync.Fs.{SyncFs}
use check_sync_files.Sync.Execute.{SyncActionResult, failed, as_cancelled}
use check_sync_files.Sync.Execute.Loop.{
  SyncReport, new_report, finish_item, abort_remaining, no_space_report, run_action, execute_plan,
}
use check_sync_files.Sync.Execute.Rows.{IsFor, run_action-IsFor}
use check_sync_files.Sync.Execute.Runs.{
  Ending, completed, by_user, by_full_disk, finish_all, report_of, Run, no_action, stopped, started,
  interrupted, filled, execute_plan-RunOf,
}

abbrev pub row_key : SyncActionResult → SyncOp × WString
row_key r = (r.op, r.relative_path)

abbrev pub action_key : SyncAction → SyncOp × WString
action_key a = (a.op, a.relative_path)

abbrev pub as_number : Bool → ℕ
as_number b = if b then 1 else 0

abbrev pub rows_done : List SyncActionResult → ℕ
rows_done rs = sum_of (λ (r : SyncActionResult). as_number r.ok) rs

abbrev pub rows_skipped : List SyncActionResult → ℕ
rows_skipped rs = sum_of (λ (r : SyncActionResult). as_number (not r.ok && r.skipped)) rs

abbrev pub rows_failed : List SyncActionResult → ℕ
rows_failed rs = sum_of (λ (r : SyncActionResult). as_number (not r.ok && not r.skipped)) rs

-- One row for each action, in the plan's order, with its operation and path; the counters count the
-- rows that were done and the rows that were skipped, and the failures leave out the actions that
-- an ending left untouched; without an ending the three sum up to the number of actions, and a full
-- disk is an ending.
pub record IsAccountOf (actions : List SyncAction) (report : SyncReport) : Type 0 where
  pub keys : map row_key report.items ≡ map action_key actions
  pub done_rows : report.done_count ≡ rows_done report.items
  pub skipped_rows : report.skipped_count ≡ rows_skipped report.items
  pub failed_rows : report.failed_count ≤ rows_failed report.items
  pub whole :
      report.cancelled ≡ false
      → report.done_count + report.skipped_count + report.failed_count ≡ length actions
  pub full_disk : report.disk_full_abort ≡ true → report.cancelled ≡ true

rows_total :
    (rs : List SyncActionResult) → rows_done rs + rows_skipped rs + rows_failed rs ≡ length rs
rows_total [] = refl
rows_total (r ∷ rs) = ground (arith, rows_total rs)

finish_item-items :
    (r : SyncActionResult) (report : SyncReport)
    → (finish_item r report).items ≡ report.items ++ (r ∷ [])
unfolding finish_item
finish_item-items r report = ground arith

finish_all-items :
    (rs : List SyncActionResult) (report : SyncReport)
    → (finish_all rs report).items ≡ report.items ++ rs
unfolding finish_all
finish_all-items [] report = sym (append-nil report.items)
finish_all-items (r ∷ rs) report =
    finish_all-items rs (finish_item r report)
    ∙ ap (λ xs. xs ++ rs) (finish_item-items r report)
    ∙ append_assoc report.items (r ∷ []) rs

finish_all-done :
    (rs : List SyncActionResult) (report : SyncReport)
    → report.done_count + length rs < u64_mod
    → (finish_all rs report).done_count ≡ report.done_count + rows_done rs
unfolding finish_all finish_item
finish_all-done [] report h = omega arith
finish_all-done (r ∷ rs) report h = ground (arith, finish_all-done rs (finish_item r report))

finish_all-skipped :
    (rs : List SyncActionResult) (report : SyncReport)
    → report.skipped_count + length rs < u64_mod
    → (finish_all rs report).skipped_count ≡ report.skipped_count + rows_skipped rs
unfolding finish_all finish_item
finish_all-skipped [] report h = omega arith
finish_all-skipped (r ∷ rs) report h = ground (arith, finish_all-skipped rs (finish_item r report))

finish_all-failed :
    (rs : List SyncActionResult) (report : SyncReport)
    → report.failed_count + length rs < u64_mod
    → (finish_all rs report).failed_count ≡ report.failed_count + rows_failed rs
unfolding finish_all finish_item
finish_all-failed [] report h = omega arith
finish_all-failed (r ∷ rs) report h = ground (arith, finish_all-failed rs (finish_item r report))

finish_item-flags :
    (r : SyncActionResult) (report : SyncReport)
    → ((finish_item r report).cancelled ≡ report.cancelled)
      × ((finish_item r report).disk_full_abort ≡ report.disk_full_abort)
unfolding finish_item
finish_item-flags r report = ground arith

finish_all-flags :
    (rs : List SyncActionResult) (report : SyncReport)
    → ((finish_all rs report).cancelled ≡ report.cancelled)
      × ((finish_all rs report).disk_full_abort ≡ report.disk_full_abort)
unfolding finish_all
finish_all-flags [] report = (refl, refl)
finish_all-flags (r ∷ rs) report =
    ground (arith, finish_all-flags rs (finish_item r report), finish_item-flags r report)

-- The rows of the actions that are left untouched.
abbrev aborted : WString → List SyncAction → List SyncActionResult
aborted why rest = map (λ a. as_cancelled (failed a why)) rest

map_key-aborted :
    (why : WString) (rest : List SyncAction) → map row_key (aborted why rest) ≡ map action_key rest
map_key-aborted why [] = refl
map_key-aborted why (a ∷ rest) = ap (λ ks. action_key a ∷ ks) (map_key-aborted why rest)

aborted-counts :
    (why : WString) (rest : List SyncAction)
    → (rows_done (aborted why rest) ≡ 0) × (rows_skipped (aborted why rest) ≡ 0)
aborted-counts why [] = (refl, refl)
aborted-counts why (a ∷ rest) = ground (arith, aborted-counts why rest)

-- The report of a run, when its results and the untouched actions make up the actions.
module _ (actions untouched : List SyncAction) (rs : List SyncActionResult)
    (keys : map row_key rs ++ map action_key untouched ≡ map action_key actions)
    (small : length actions < u64_mod) where
  lengths : length rs + length untouched ≡ length actions
  lengths = omega (
    arith,
    ap length keys,
    length-append (map row_key rs) (map action_key untouched),
    length-map row_key rs,
    length-map action_key untouched,
    length-map action_key actions,
  )

  row_list : (finish_all rs new_report).items ≡ rs
  row_list = finish_all-items rs new_report

  done_total : (finish_all rs new_report).done_count ≡ rows_done rs
  done_total = omega (arith, finish_all-done rs new_report (omega (arith, lengths)))

  skipped_total : (finish_all rs new_report).skipped_count ≡ rows_skipped rs
  skipped_total = omega (arith, finish_all-skipped rs new_report (omega (arith, lengths)))

  failed_total : (finish_all rs new_report).failed_count ≡ rows_failed rs
  failed_total = omega (arith, finish_all-failed rs new_report (omega (arith, lengths)))

  finish_all-IsAccount : untouched ≡ [] → IsAccountOf actions (finish_all rs new_report)
  finish_all-IsAccount none = record {
    keys =
        ap (map row_key) row_list
        ∙ (sym (append-nil (map row_key rs))
            ∙ (ap (λ xs. map row_key rs ++ map action_key xs) (sym none) ∙ keys));
    done_rows = done_total ∙ ap rows_done (sym row_list);
    skipped_rows = skipped_total ∙ ap rows_skipped (sym row_list);
    failed_rows = omega (arith, failed_total, ap rows_failed row_list);
    whole = λ _.
        omega
          (arith, lengths, ap length none, done_total, skipped_total, failed_total, rows_total rs);
    full_disk = λ h. grind (arith, finish_all-flags rs new_report);
  }

  abort_remaining-IsAccount :
      (full : Bool) (why : WString)
      → IsAccountOf actions (abort_remaining untouched true full why (finish_all rs new_report))
  unfolding abort_remaining
  abort_remaining-IsAccount full why =
      let left = aborted why untouched in
      record {
        keys =
            ap (λ xs. map row_key (xs ++ left)) row_list
            ∙ (map-append row_key rs left
                ∙ (ap (λ ks. map row_key rs ++ ks) (map_key-aborted why untouched) ∙ keys));
        done_rows = omega (
          arith,
          done_total,
          ap (λ xs. rows_done (xs ++ left)) row_list,
          sum_of-append (λ (r : SyncActionResult). as_number r.ok) rs left,
          aborted-counts why untouched,
        );
        skipped_rows = omega (
          arith,
          skipped_total,
          ap (λ xs. rows_skipped (xs ++ left)) row_list,
          sum_of-append (λ (r : SyncActionResult). as_number (not r.ok && r.skipped)) rs left,
          aborted-counts why untouched,
        );
        failed_rows = omega (
          arith,
          failed_total,
          ap (λ xs. rows_failed (xs ++ left)) row_list,
          sum_of-append (λ (r : SyncActionResult). as_number (not r.ok && not r.skipped)) rs left,
        );
        whole = λ e. cc;
        full_disk = λ _. refl;
      }

module _ {S : Type 0} (w : Win) (fs : SyncFs S) (plan : SyncPlan) where
  row_key-run_action :
      (a : SyncAction) (s : S) → row_key ((run_action w fs plan a s).0.result) ≡ action_key a
  row_key-run_action a s =
      let h : IsFor a ((run_action w fs plan a s).0.result) =
        (run_action-IsFor w fs plan a).returns s tt in
      rw (h.op, h.path) refl

  Run-keys :
      {s s' : S} {actions untouched : List SyncAction} {rs : List SyncActionResult} {e : Ending}
      → Run w fs plan s actions rs untouched e s'
      → map row_key rs ++ map action_key untouched ≡ map action_key actions
  Run-keys no_action = refl
  Run-keys (stopped h) = refl
  Run-keys {s = s} (started {a = a} h v r) = rw (row_key-run_action a _, Run-keys r) refl
  Run-keys (interrupted {a = a} h v) = rw (row_key-run_action a _) refl
  Run-keys (filled {a = a} h v) = rw (row_key-run_action a _) refl

  Run-completed :
      {s s' : S} {actions untouched : List SyncAction} {rs : List SyncActionResult} {e : Ending}
      → Run w fs plan s actions rs untouched e s'
      → e ≡ completed
      → untouched ≡ []
  Run-completed no_action h = refl
  Run-completed (stopped _) h = cc
  Run-completed (started _ _ r) h = Run-completed r h
  Run-completed (interrupted _ _) h = cc
  Run-completed (filled _ _) h = cc

  report_of-IsAccount :
      {s s' : S} {actions : List SyncAction} (e : Ending) (rs : List SyncActionResult)
      (untouched : List SyncAction)
      → Run w fs plan s actions rs untouched e s'
      → length actions < u64_mod
      → IsAccountOf actions (report_of e rs untouched new_report)
  unfolding report_of
  report_of-IsAccount completed rs untouched r small =
      finish_all-IsAccount _ untouched rs (Run-keys r) small (Run-completed r refl)
  report_of-IsAccount by_user rs untouched r small =
      abort_remaining-IsAccount _ untouched rs (Run-keys r) small false _
  report_of-IsAccount by_full_disk rs untouched r small =
      abort_remaining-IsAccount _ untouched rs (Run-keys r) small true _

  -- Unless the plan is refused for its size, the report has one row for each action, in the plan's
  -- order, with its operation and path, whatever fails, is skipped or ends the run; its counters
  -- count the rows that were done and skipped, the failures are rows that were neither, and if the
  -- run was not cancelled the three counters sum up to the number of actions.
  pub execute_plan-IsAccount :
      (s : S)
      → length plan.actions < u64_mod
      → let report = (execute_plan w fs plan s).0 in
        ((free : ℕ) × (free < plan.summary.bytes_to_copy)
          × (report ≡ no_space_report plan.summary.bytes_to_copy free))
        ⊎ IsAccountOf plan.actions report
  execute_plan-IsAccount s small = elim (execute_plan-RunOf w fs plan s) [
    | inl ((_, _, lt), e) ↦ inl (_, lt, ap (λ p. p.0) e)
    | inr (_, r) ↦ inr (
        subst (IsAccountOf plan.actions) (sym r.report_eq)
          (report_of-IsAccount r.ending r.results r.untouched r.run small))
  ]
