-- ===== src/Sync/Execute/Runs.antt =====
-- The runs of `ExecutePlan` (src/Sync/SyncExecutor.cpp) as a step relation, independent of the
-- report that the loop keeps.
use check_sync_files.Common.{
  ℕ, arith, ◌<◌, ◌∙◌, if◌then◌else◌, ltb→lt, and_true, true, false, ◌≡◌, refl, List, [], ◌∷◌, ◌⊎◌,
  inl, inr, ltb, ◌&&◌, Bool-cases,
}
use check_sync_files.Text.{lit}
use check_sync_files.Windows.{Win}
use check_sync_files.State.{branch, Action, pure, ◌>>=◌}
use check_sync_files.Sync.Plan.{SyncAction, SyncPlan}
use check_sync_files.Sync.Fs.{SyncFs}
use check_sync_files.Sync.Execute.{SyncActionResult, Verdict, go_on, stop_cancelled, stop_disk_full}
use check_sync_files.Sync.Execute.Loop.{
  SyncReport, new_report, finish_item, abort_remaining, no_space_report, run_action, after,
  execute_from, execute_plan,
}

-- The bytes that a plan needs do not fit in the free ones; 0 free bytes stand for an unknown number.
abbrev pub IsTooBig : ℕ → ℕ → Type 0
IsTooBig needed free = (0 < needed) × (0 < free) × (free < needed)

fits_free : (needed free : ℕ) → (ltb 0 free && ltb free needed) ≡ false → ¬ (IsTooBig needed free)
fits_free needed free h (n, f, big) = ground arith

fits_none : (needed free : ℕ) → ltb 0 needed ≡ false → ¬ (IsTooBig needed free)
fits_none needed free h (n, f, big) = ground arith

-- Why a run ended: no action left, the user, or a full disk.
pub data Ending : Type 0 where
  completed by_user by_full_disk : Ending

unfoldable pub finish_all : List SyncActionResult → SyncReport → SyncReport
finish_all [] report = report
finish_all (r ∷ rs) report = finish_all rs (finish_item r report)

-- The report of a run: its results in order, and the actions that it left untouched.
unfoldable pub report_of :
    Ending → List SyncActionResult → List SyncAction → SyncReport → SyncReport
unfolding finish_all
report_of completed rs untouched report = finish_all rs report
report_of by_user rs untouched report =
    abort_remaining untouched true false (lit "interrotta dall'utente") (finish_all rs report)
report_of by_full_disk rs untouched report =
    abort_remaining untouched true true (lit "interrotta: disco pieno") (finish_all rs report)

report_of-started :
    (e : Ending) (r : SyncActionResult) (rs : List SyncActionResult) (untouched : List SyncAction)
    (report : SyncReport)
    → report_of e rs untouched (finish_item r report) ≡ report_of e (r ∷ rs) untouched report
unfolding report_of finish_all
report_of-started completed r rs untouched report = refl
report_of-started by_user r rs untouched report = refl
report_of-started by_full_disk r rs untouched report = refl

module _ {S : Type 0} (w : Win) (fs : SyncFs S) (plan : SyncPlan) where
  -- From a state and the actions to do, a run gives the results of the actions that were started,
  -- the actions that were not, the ending, and the state at the end. An action is started only when
  -- the flag is read as not set just before it; after an ending nothing touches the state.
  pub data Run
      : S → List SyncAction → List SyncActionResult → List SyncAction → Ending → S → Type 0 where
    no_action : {s : S} → Run s [] [] [] completed s
    stopped :
        {s : S} {a : SyncAction} {rest : List SyncAction}
        → (fs.was_cancelled s).0 ≡ true
        → Run s (a ∷ rest) [] (a ∷ rest) by_user ((fs.was_cancelled s).1)
    started :
        {s s' : S} {a : SyncAction} {rest untouched : List SyncAction} {rs : List SyncActionResult}
        {e : Ending}
        → (fs.was_cancelled s).0 ≡ false
        → (run_action w fs plan a ((fs.was_cancelled s).1)).0.verdict ≡ go_on
        → Run ((run_action w fs plan a ((fs.was_cancelled s).1)).1) rest rs untouched e s'
        → Run s
            (a ∷ rest)
            ((run_action w fs plan a ((fs.was_cancelled s).1)).0.result ∷ rs)
            untouched
            e
            s'
    interrupted :
        {s : S} {a : SyncAction} {rest : List SyncAction}
        → (fs.was_cancelled s).0 ≡ false
        → (run_action w fs plan a ((fs.was_cancelled s).1)).0.verdict ≡ stop_cancelled
        → Run s
            (a ∷ rest)
            ((run_action w fs plan a ((fs.was_cancelled s).1)).0.result ∷ [])
            rest
            by_user
            ((run_action w fs plan a ((fs.was_cancelled s).1)).1)
    filled :
        {s : S} {a : SyncAction} {rest : List SyncAction}
        → (fs.was_cancelled s).0 ≡ false
        → (run_action w fs plan a ((fs.was_cancelled s).1)).0.verdict ≡ stop_disk_full
        → Run s
            (a ∷ rest)
            ((run_action w fs plan a ((fs.was_cancelled s).1)).0.result ∷ [])
            rest
            by_full_disk
            ((run_action w fs plan a ((fs.was_cancelled s).1)).1)

  -- A run from `s` whose report, added to `report`, is `r`, and whose last state is `s'`.
  pub record RunOf (s : S) (actions : List SyncAction) (report r : SyncReport) (s' : S)
      : Type 0 where
    pub results : List SyncActionResult
    pub untouched : List SyncAction
    pub ending : Ending
    pub run : Run s actions results untouched ending s'
    pub report_eq : r ≡ report_of ending results untouched report

  -- A run of the rest, with an action in front of it.
  started-RunOf :
      (s : S) (a : SyncAction) (rest : List SyncAction) (report r : SyncReport) (s' : S)
      → (fs.was_cancelled s).0 ≡ false
      → (run_action w fs plan a ((fs.was_cancelled s).1)).0.verdict ≡ go_on
      → RunOf
          ((run_action w fs plan a ((fs.was_cancelled s).1)).1)
          rest
          (finish_item ((run_action w fs plan a ((fs.was_cancelled s).1)).0.result) report)
          r
          s'
      → RunOf s (a ∷ rest) report r s'
  started-RunOf s a rest report r s' f v h = record {
    results = (run_action w fs plan a ((fs.was_cancelled s).1)).0.result ∷ h.results;
    untouched = h.untouched;
    ending = h.ending;
    run = started f v h.run;
    report_eq =
        h.report_eq
        ∙ report_of-started h.ending ((run_action w fs plan a ((fs.was_cancelled s).1)).0.result)
            h.results h.untouched report;
  }

  -- After an action the loop goes on with `continue`, or the run is at its end.
  after-RunOf :
      (s : S) (a : SyncAction) (rest : List SyncAction) (report : SyncReport)
      (continue : SyncReport → Action S SyncReport) (v : Verdict)
      → (fs.was_cancelled s).0 ≡ false
      → let step = (run_action w fs plan a ((fs.was_cancelled s).1)).0 in
        let s2 = (run_action w fs plan a ((fs.was_cancelled s).1)).1 in
        step.verdict ≡ v
        → RunOf s2 rest
            (finish_item step.result report)
            ((continue (finish_item step.result report) s2).0)
            ((continue (finish_item step.result report) s2).1)
        → RunOf s
            (a ∷ rest)
            report
            ((after w fs continue rest report step.result v s2).0)
            ((after w fs continue rest report step.result v s2).1)
  unfolding after report_of finish_all pure
  after-RunOf s a rest report continue go_on f v h = started-RunOf s a rest report _ _ f v h
  after-RunOf s a rest report continue stop_cancelled f v h =
      let step = (run_action w fs plan a ((fs.was_cancelled s).1)).0 in
      record {
        results = step.result ∷ [];
        untouched = rest;
        ending = by_user;
        run = interrupted f v;
        report_eq = refl;
      }
  after-RunOf s a rest report continue stop_disk_full f v h =
      let step = (run_action w fs plan a ((fs.was_cancelled s).1)).0 in
      record {
        results = step.result ∷ [];
        untouched = rest;
        ending = by_full_disk;
        run = filled f v;
        report_eq = refl;
      }

  execute_from-RunOf :
      (s : S) (actions : List SyncAction) (report : SyncReport)
      → RunOf s actions report
          ((execute_from w fs plan actions report s).0)
          ((execute_from w fs plan actions report s).1)
  unfolding execute_from report_of finish_all pure branch ◌>>=◌
  execute_from-RunOf s [] report = record {
    results = [];
    untouched = [];
    ending = completed;
    run = no_action;
    report_eq = refl;
  }
  execute_from-RunOf s (a ∷ rest) report = elim (Bool-cases ((fs.was_cancelled s).0)) [
    | inl t ↦ rw t (record {
      results = [];
      untouched = a ∷ rest;
      ending = by_user;
      run = stopped t;
      report_eq = refl;
    })
    | inr f ↦ rw f (
        after-RunOf s a rest report (execute_from w fs plan rest) _ f refl (
          execute_from-RunOf ((run_action w fs plan a ((fs.was_cancelled s).1)).1) rest
            (finish_item ((run_action w fs plan a ((fs.was_cancelled s).1)).0.result) report)))
  ]

  -- Either the plan needs more bytes than the number of free bytes, which is known (not 0): then it is
  -- refused with one item, and nothing but the query of the free bytes has reached the machine. Or
  -- this is not so: then it is executed as a run over its actions, from the state that the query (made
  -- only when there is something to copy) leaves, and the report is the one of that run.
  pub execute_plan-RunOf :
      (s : S)
      → let needed = plan.summary.bytes_to_copy in
        let asked = fs.free_bytes_on_volume plan.dest_root s in
        let ended = execute_plan w fs plan s in
        (IsTooBig needed asked.0 × (ended ≡ (no_space_report needed asked.0, asked.1)))
        ⊎ ((¬ (IsTooBig needed asked.0))
            × RunOf (if ltb 0 needed then asked.1 else s) plan.actions new_report ended.0 ended.1)
  unfolding execute_plan pure branch ◌>>=◌ no_space_report
  execute_plan-RunOf s =
      let needed = plan.summary.bytes_to_copy in
      let asked = fs.free_bytes_on_volume plan.dest_root s in
      elim (Bool-cases (ltb 0 needed)) [
        | inl t ↦ elim (Bool-cases (ltb 0 (asked.0) && ltb (asked.0) needed)) [
          | inl b ↦
              rw (t, b)
                (inl (
                  (
                    ltb→lt 0 needed t,
                    ltb→lt 0 (asked.0) (and_true _ _ b).0,
                    ltb→lt (asked.0) needed (and_true _ _ b).1,
                  ),
                  refl,
                ))
          | inr b ↦
              let fits = fits_free needed (asked.0) b in
              rw (t, b) (inr (fits, execute_from-RunOf (asked.1) plan.actions new_report))
        ]
        | inr f ↦
            let fits = fits_none needed (asked.0) f in
            rw f (inr (fits, execute_from-RunOf s plan.actions new_report))
      ]
