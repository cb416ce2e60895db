-- ===== src/Session/Resume/Plan.antt =====
-- `PlanResume` of src/Session/ResumePlan.cpp.
use check_sync_files.Common.{
  ℕ, suc, Bool, true, false, ◌&&◌, ◌||◌, not, Option, none, some, List, [], ◌∷◌, ◌++◌,
  if◌then◌else◌, ◌==◌, any, eq_bool,
}
use check_sync_files.Text.{WString, Bytes, eqw, lit}
use check_sync_files.Windows.{Win}
use check_sync_files.Map.{Map, lookup, insert}
use check_sync_files.Entry.{FileEntry, plain, inc64, dec64}
use check_sync_files.Index.{FileIndex, index_key, add_entry, find}
use check_sync_files.Result.{Status, identical, missing, extra, identical_partial, ClassifiedRow}
use check_sync_files.Session.{JournalEntry, fingerprint_stale, needs_reverify}
use check_sync_files.Session.Resume.{
  ResumePlan, new_resume_plan, ResumeInput, is_error_verdict, under_any_error_dir,
  accumulate_journal_stats, reused_file_result,
}

abbrev pub is_some : Option FileEntry → Bool
is_some none = false
is_some (some e) = true

-- `FileEntry cur;`, filled by `find` when it succeeds.
abbrev pub new_entry : FileEntry
new_entry = record {
  relative_path = [];
  size = 0;
  last_write_time = 0;
  attributes = 0;
  file_id = 0;
  is_directory = false;
  reparse_kind = plain;
  link_target = [];
}

abbrev pub entry_or_new : Option FileEntry → FileEntry
entry_or_new none = new_entry
entry_or_new (some e) = e

abbrev pub expects_a : Status → Bool
expects_a extra = false
expects_a _ = true

abbrev pub expects_b : Status → Bool
expects_b missing = false
expects_b _ = true

abbrev pub is_problem : Status → Bool
is_problem identical = false
is_problem identical_partial = false
is_problem _ = true

abbrev pub refusal : Bytes
refusal = lit "unprovable absence inside an errored subtree"

-- The types on each side that should be there, then the sizes and times, which directories skip.
unfoldable pub is_stale : JournalEntry → FileEntry → FileEntry → Bool
is_stale e a b =
    let expect_a = expects_a e.verdict in
    let expect_b = expects_b e.verdict in
    if (expect_a && not (eq_bool a.is_directory e.is_directory))
      || (expect_b && not (eq_bool b.is_directory e.is_directory))
    then true
    else if e.is_directory
    then false
    else if expect_a && expect_b
    then needs_reverify e a.size a.last_write_time b.size b.last_write_time
    else if expect_a
    then fingerprint_stale e.size_a e.mtime_a a.size a.last_write_time
    else fingerprint_stale e.size_b e.mtime_b b.size b.last_write_time

module _ (w : Win) where
  abbrev pub route : Option FileEntry → FileIndex → FileIndex
  route none idx = idx
  route (some e) idx = add_entry w e idx

  -- `++plan.stale`, and the current entries of both sides go to the remainder.
  unfoldable pub reverify : Option FileEntry → Option FileEntry → ResumePlan → ResumePlan
  reverify found_a found_b p = record p {
    stale = inc64 p.stale;
    remainder_a = route found_a p.remainder_a;
    remainder_b = route found_b p.remainder_b;
  }

  unfoldable pub reuse :
      ResumeInput → JournalEntry → FileEntry → FileEntry → ResumePlan → ResumePlan
  reuse inp e a b p = record p {
    reused = inc64 p.reused;
    reused_entries = p.reused_entries ++ (e ∷ []);
    reused_stats =
        accumulate_journal_stats e (expects_a e.verdict) a.is_directory a.size (expects_b e.verdict)
          b.is_directory b.size p.reused_stats;
    reused_problems =
        if is_problem e.verdict
        then p.reused_problems ++ (reused_file_result e inp.root_a inp.root_b ∷ [])
        else p.reused_problems;
  }

  module _ (inp : ResumeInput) where
    -- One journal row, with what the two indexes hold at its path; `none` is the refusal.
    unfoldable pub decide :
        JournalEntry → Option FileEntry → Option FileEntry → ResumePlan → Option ResumePlan
    decide e found_a found_b p =
        let in_err_a = under_any_error_dir e.relative_path inp.error_dirs_a in
        let in_err_b = under_any_error_dir e.relative_path inp.error_dirs_b in
        let counted = reverify found_a found_b (record p { error_rows = inc64 p.error_rows }) in
        if is_error_verdict e.verdict
        then (if not (is_some found_a) && not (is_some found_b)
            then (if in_err_a || in_err_b
                then none
                else some (record counted {
                  dropped_both_gone = inc64 counted.dropped_both_gone;
                  stale = dec64 counted.stale;
                }))
            else some counted)
        else if not (is_some found_a) && not (is_some found_b)
        then (if in_err_a || in_err_b
            then none
            else some (record p { dropped_both_gone = inc64 p.dropped_both_gone }))
        else if not (eq_bool (is_some found_a) (expects_a e.verdict))
            || not (eq_bool (is_some found_b) (expects_b e.verdict))
        then some (reverify found_a found_b p)
        else if in_err_a || in_err_b
        then some (reverify found_a found_b p)
        else if is_stale e (entry_or_new found_a) (entry_or_new found_b)
        then some (reverify found_a found_b p)
        else some (reuse inp e (entry_or_new found_a) (entry_or_new found_b) p)

    -- `lastIndex`: each folded path with the position of its last record.
    unfoldable pub index_last : Bool → ℕ → List JournalEntry → Map ℕ → Map ℕ
    index_last cs i [] last = last
    index_last cs i (e ∷ journal) last =
        index_last cs (suc i) journal (insert (index_key w cs e.relative_path) i last)

    abbrev pub is_last : Option ℕ → ℕ → Bool
    is_last none i = 0 == i
    is_last (some j) i = j == i

    module _ (cs : Bool) (last : Map ℕ) (a b : FileIndex) where
      -- The loop over the journal: the plan, and the folded paths that it consumed.
      unfoldable pub journal_loop :
          ℕ → List JournalEntry → ResumePlan → List WString → Option (ResumePlan × List WString)
      journal_loop i [] p consumed = some (p, consumed)
      journal_loop i (e ∷ journal) p consumed =
          if is_last (lookup (index_key w cs e.relative_path) last) i
          then elim (decide e (find w e.relative_path a) (find w e.relative_path b) p) [
            | none ↦ none
            | some p' ↦ journal_loop (suc i) journal p' (index_key w cs e.relative_path ∷ consumed)
          ]
          else journal_loop (suc i) journal p consumed

    abbrev pub is_consumed : List WString → WString → Bool
    is_consumed consumed k = any (eqw k) consumed

    -- The current paths that the journal never saw, on each side.
    unfoldable pub unseen_a : Bool → List WString → Map FileEntry → ResumePlan → ResumePlan
    unseen_a cs consumed [] p = p
    unseen_a cs consumed ((k, e) ∷ items) p = unseen_a cs consumed items (
        if is_consumed consumed (index_key w cs e.relative_path)
        then p
        else record p { remainder_a = add_entry w e p.remainder_a; stale = inc64 p.stale })

    unfoldable pub unseen_b : Bool → List WString → Map FileEntry → ResumePlan → ResumePlan
    unseen_b cs consumed [] p = p
    unseen_b cs consumed ((k, e) ∷ items) p = unseen_b cs consumed items (
        if is_consumed consumed (index_key w cs e.relative_path)
        then p
        else record p { remainder_b = add_entry w e p.remainder_b; stale = inc64 p.stale })

    unfoldable pub finish :
        Bool → FileIndex → FileIndex → Option (ResumePlan × List WString) → Option ResumePlan
    unfolding unseen_a unseen_b
    finish cs a b none = none
    finish cs a b (some (p, consumed)) =
        some (unseen_b cs consumed b.entries (unseen_a cs consumed a.entries p))

-- What `PlanResume` returns: the plan, or the detail of the refusal.
pub data Resumed : Type 0 where
  refused : Bytes → Resumed
  planned : ResumePlan → Resumed

abbrev pub resumed : Option ResumePlan → Resumed
resumed none = refused refusal
resumed (some p) = planned p

unfoldable pub plan_indexes :
    Win → ResumeInput → List JournalEntry → FileIndex → FileIndex → Option ResumePlan
unfolding finish journal_loop index_last
plan_indexes w inp journal a b =
    let cs = a.case_sensitive in
    finish w inp cs a b (
      journal_loop w inp cs (index_last w inp cs 0 journal []) a b 0 journal (new_resume_plan cs)
        [])

-- A null pointer is refused.
unfoldable pub resume_pointers :
    Win → ResumeInput → Option (List JournalEntry) → Option FileIndex → Option FileIndex → Resumed
resume_pointers w inp (some journal) (some a) (some b) = resumed (plan_indexes w inp journal a b)
resume_pointers w inp _ _ _ = refused (lit "invalid resume input")

unfoldable pub plan_resume : Win → ResumeInput → Resumed
unfolding resume_pointers
plan_resume w inp = resume_pointers w inp inp.journal inp.current_a inp.current_b

-- `ToJournalEntry`.
unfoldable pub to_journal_entry : ClassifiedRow → JournalEntry
to_journal_entry row = record {
  relative_path = row.relative_path;
  size_a = if row.has_a then row.entry_a.size else 0;
  mtime_a = if row.has_a then row.entry_a.last_write_time else 0;
  has_hash_a = row.has_hash_a;
  hash_a = row.hash_a;
  size_b = if row.has_b then row.entry_b.size else 0;
  mtime_b = if row.has_b then row.entry_b.last_write_time else 0;
  has_hash_b = row.has_hash_b;
  hash_b = row.hash_b;
  verdict = row.verdict;
  verified_percent = row.verified_percent;
  verified_pattern = row.verified_pattern;
  is_directory = row.is_directory;
}
