-- ===== src/Session/Resume/Laws.antt =====
-- The rows that `PlanResume` of src/Session/ResumePlan.cpp reuses, against the rule that
-- src/Session/ResumePlan.h states.
use mathlib.Core.Path.{subst}
use check_sync_files.Common.{
  sym, ap, ◌∙◌, ◌⊎◌, inl, inr, ◌++◌, drop, ℕ, suc, ◌≡◌, ◌%◌, Bool, true, false, not, Option, none,
  some, List, [], ◌∷◌, refl, arith, All, All-append, ◌||◌, ◌&&◌, length, length-append, eq_bool,
  u64_mod, if_split,
}
use check_sync_files.Text.{WString, backslash, starts_with}
use check_sync_files.Text.Laws.{starts_with-append}
use check_sync_files.Windows.{Win}
use check_sync_files.Map.{Map, lookup}
use check_sync_files.Entry.{FileEntry}
use check_sync_files.Index.{FileIndex, find, index_key}
use check_sync_files.Session.{
  JournalEntry, hash_metadata_changed, fingerprint_stale, needs_reverify,
}
use check_sync_files.Session.Resume.{
  ResumePlan, new_resume_plan, ResumeInput, is_error_verdict, at_or_under, under_any_error_dir,
}
use check_sync_files.Session.Resume.Plan.{
  is_some, entry_or_new, expects_a, expects_b, is_stale, reverify, reuse, decide, index_last,
  is_last, journal_loop, unseen_a, unseen_b, finish, plan_indexes, plan_resume, resume_pointers,
  planned, resumed, is_consumed,
}

-- The entry that a side holds is of the saved type and, unless it is a directory, of the saved size
-- and time.
abbrev pub IsUnchanged : Bool → ℕ → ℕ → FileEntry → Type 0
IsUnchanged is_directory size mtime c =
    (c.is_directory ≡ is_directory)
    × (is_directory ≡ false → (c.size ≡ size) × (c.last_write_time ≡ mtime))

-- The directory is the root, or the path is that of the directory or goes on behind it with a
-- backslash, unit by unit: case counts, whatever the case policy of the session.
abbrev pub LiesIn : WString → WString → Type 0
LiesIn dir rel = (dir ≡ []) ⊎ (rel ≡ dir) ⊎ ((tail : WString) × (rel ≡ dir ++ (backslash ∷ tail)))

drop-append : (s t : WString) → drop (length s) (s ++ t) ≡ t
drop-append [] t = refl
drop-append (c ∷ s) t = drop-append s t

starts_with_self : (s : WString) → starts_with s s ≡ true
unfolding starts_with
starts_with_self [] = refl
starts_with_self (c ∷ s) = ground (arith, starts_with_self s)

LiesIn-at_or_under : (dir rel : WString) → LiesIn dir rel → at_or_under rel dir ≡ true
unfolding at_or_under
LiesIn-at_or_under dir rel (inl e) = rw e refl
LiesIn-at_or_under dir rel (inr (inl e)) = rw e (ground (arith, starts_with_self dir))
LiesIn-at_or_under dir rel (inr (inr (tail, e))) = rw e (
    ground (
      arith,
      starts_with-append dir (backslash ∷ tail),
      length-append dir (backslash ∷ tail),
      drop-append dir (backslash ∷ tail),
    ))

outside :
    (rel : WString) (dirs : List WString)
    → under_any_error_dir rel dirs ≡ false
    → All (λ dir. ¬ (LiesIn dir rel)) dirs
unfolding under_any_error_dir
outside rel [] h = tt
outside rel (dir ∷ dirs) h =
    (λ lies. cc (LiesIn-at_or_under dir rel lies, h), outside rel dirs (ground arith))

-- The rule for reuse, for the entries that the two sides hold at the row's path.
pub record IsReusable (inp : ResumeInput) (found_a found_b : Option FileEntry) (e : JournalEntry)
    : Type 0 where
  pub verdict : is_error_verdict e.verdict ≡ false
  pub present_a : is_some found_a ≡ expects_a e.verdict
  pub present_b : is_some found_b ≡ expects_b e.verdict
  pub same_a : (c : FileEntry) → found_a ≡ some c → IsUnchanged e.is_directory e.size_a e.mtime_a c
  pub same_b : (c : FileEntry) → found_b ≡ some c → IsUnchanged e.is_directory e.size_b e.mtime_b c
  pub listed_a : All (λ dir. ¬ (LiesIn dir e.relative_path)) inp.error_dirs_a
  pub listed_b : All (λ dir. ¬ (LiesIn dir e.relative_path)) inp.error_dirs_b

fresh_a :
    (e : JournalEntry) (a b : FileEntry)
    → expects_a e.verdict ≡ true
    → is_stale e a b ≡ false
    → IsUnchanged e.is_directory e.size_a e.mtime_a a
unfolding is_stale needs_reverify fingerprint_stale hash_metadata_changed
fresh_a e a b h s = (ground arith, λ d. (ground arith, ground arith))

fresh_b :
    (e : JournalEntry) (a b : FileEntry)
    → expects_b e.verdict ≡ true
    → is_stale e a b ≡ false
    → IsUnchanged e.is_directory e.size_b e.mtime_b b
unfolding is_stale needs_reverify fingerprint_stale hash_metadata_changed
fresh_b e a b h s = (ground arith, λ d. (ground arith, ground arith))

module _ (w : Win) (inp : ResumeInput) where
  -- What one row does: the refusal, a plan that reuses no more, or the reuse of the row.
  data Decision (e : JournalEntry) (found_a found_b : Option FileEntry) (p : ResumePlan)
      : Option ResumePlan → Type 0 where
    refuse : Decision e found_a found_b p none
    leave :
        (p' : ResumePlan)
        → p'.reused_entries ≡ p.reused_entries
        → p'.reused ≡ p.reused
        → Decision e found_a found_b p (some p')
    take :
        IsReusable inp found_a found_b e
        → Decision e found_a found_b p
            (some (reuse w inp e (entry_or_new found_a) (entry_or_new found_b) p))

  reusable :
      (e : JournalEntry) (found_a found_b : Option FileEntry)
      → is_error_verdict e.verdict ≡ false
      → (not (eq_bool (is_some found_a) (expects_a e.verdict))
          || not (eq_bool (is_some found_b) (expects_b e.verdict)))
        ≡ false
      → (under_any_error_dir e.relative_path inp.error_dirs_a
          || under_any_error_dir e.relative_path inp.error_dirs_b)
        ≡ false
      → is_stale e (entry_or_new found_a) (entry_or_new found_b) ≡ false
      → IsReusable inp found_a found_b e
  reusable e found_a found_b v present listed stale =
      let pa : is_some found_a ≡ expects_a e.verdict = ground arith in
      let pb : is_some found_b ≡ expects_b e.verdict = ground arith in
      record {
        verdict = v;
        present_a = pa;
        present_b = pb;
        same_a = λ c h.
            fresh_a e c (entry_or_new found_b)
              (sym (subst (λ x. is_some x ≡ expects_a e.verdict) h pa))
              (subst (λ x. is_stale e (entry_or_new x) (entry_or_new found_b) ≡ false) h stale);
        same_b = λ c h.
            fresh_b e (entry_or_new found_a) c
              (sym (subst (λ x. is_some x ≡ expects_b e.verdict) h pb))
              (subst (λ x. is_stale e (entry_or_new found_a) (entry_or_new x) ≡ false) h stale);
        listed_a = outside e.relative_path inp.error_dirs_a (ground arith);
        listed_b = outside e.relative_path inp.error_dirs_b (ground arith);
      }

  decide-Decision :
      (e : JournalEntry) (found_a found_b : Option FileEntry) (p : ResumePlan)
      → Decision e found_a found_b p (decide w inp e found_a found_b p)
  unfolding decide reverify
  decide-Decision e found_a found_b p =
      let in_err =
        under_any_error_dir e.relative_path inp.error_dirs_a
        || under_any_error_dir e.relative_path inp.error_dirs_b in
      let gone = not (is_some found_a) && not (is_some found_b) in
      let C : Option ResumePlan → Type 0 = Decision e found_a found_b p in
      if_split C (is_error_verdict e.verdict)
        (λ _.
          if_split C gone (λ _. if_split C in_err (λ _. refuse) (λ _. leave _ refl refl))
            (λ _. leave _ refl refl))
        λ v.
          if_split C gone (λ _. if_split C in_err (λ _. refuse) (λ _. leave _ refl refl))
            λ _.
              if_split C
                (not (eq_bool (is_some found_a) (expects_a e.verdict))
                  || not (eq_bool (is_some found_b) (expects_b e.verdict)))
                (λ _. leave _ refl refl)
                λ present.
                  if_split C in_err (λ _. leave _ refl refl)
                    λ listed.
                      if_split C (is_stale e (entry_or_new found_a) (entry_or_new found_b))
                        (λ _. leave _ refl refl)
                        λ stale. take (reusable e found_a found_b v present listed stale)

  module _ (a b : FileIndex) where
    -- The rule, for what the indexes hold.
    abbrev pub IsReusableNow : JournalEntry → Type 0
    IsReusableNow e = IsReusable inp (find w e.relative_path a) (find w e.relative_path b) e

    -- Every reused row satisfies the rule, and their number is counted.
    pub record IsSound (p : ResumePlan) : Type 0 where
      pub rows : All IsReusableNow p.reused_entries
      pub counted : p.reused ≡ length p.reused_entries % u64_mod

    data SoundIf : Option (ResumePlan × List WString) → Type 0 where
      refusal : SoundIf none
      sound : {p : ResumePlan} {consumed : List WString} → IsSound p → SoundIf (some (p, consumed))

    take-IsSound :
        (e : JournalEntry) (fa fb : Option FileEntry) (p : ResumePlan)
        → IsReusableNow e
        → IsSound p
        → IsSound (reuse w inp e (entry_or_new fa) (entry_or_new fb) p)
    unfolding reuse
    take-IsSound e fa fb p r s = record {
      rows = All-append IsReusableNow p.reused_entries (e ∷ []) s.rows (r, tt);
      counted = omega (arith, length-append p.reused_entries (e ∷ []), s.counted);
    }

    decided :
        (e : JournalEntry) (p : ResumePlan) {o : Option ResumePlan}
        → Decision e (find w e.relative_path a) (find w e.relative_path b) p o
        → IsSound p
        → (next : ResumePlan → Option (ResumePlan × List WString))
        → ((p' : ResumePlan) → IsSound p' → SoundIf (next p'))
        → SoundIf (elim o [ none ↦ none | some p' ↦ next p' ])
    decided e p refuse s next k = refusal
    decided e p (leave p' same count) s next k = k p' (record {
      rows = subst (All IsReusableNow) (sym same) s.rows;
      counted = count ∙ (s.counted ∙ ap (λ rows. length rows % u64_mod) (sym same));
    })
    decided e p (take r) s next k =
        k _ (take-IsSound e (find w e.relative_path a) (find w e.relative_path b) p r s)

    journal_loop-IsSound :
        (cs : Bool) (last : Map ℕ) (i : ℕ) (journal : List JournalEntry) (p : ResumePlan)
        (consumed : List WString)
        → IsSound p
        → SoundIf (journal_loop w inp cs last a b i journal p consumed)
    unfolding journal_loop
    journal_loop-IsSound cs last i [] p consumed s = sound s
    journal_loop-IsSound cs last i (e ∷ journal) p consumed s =
        if_split SoundIf (is_last w inp (lookup (index_key w cs e.relative_path) last) i)
          (λ _.
            decided e p (decide-Decision e _ _ p) s
              (λ p'.
                journal_loop w inp cs last a b (suc i) journal p'
                  (index_key w cs e.relative_path ∷ consumed))
              (λ p' s'. journal_loop-IsSound cs last (suc i) journal p' _ s'))
          (λ _. journal_loop-IsSound cs last (suc i) journal p consumed s)

    unseen_a-IsSound :
        (cs : Bool) (consumed : List WString) (items : Map FileEntry) (p : ResumePlan)
        → IsSound p
        → IsSound (unseen_a w inp cs consumed items p)
    unfolding unseen_a
    unseen_a-IsSound cs consumed [] p s = s
    unseen_a-IsSound cs consumed ((k, e) ∷ items) p s = unseen_a-IsSound cs consumed items _ (
        if_split IsSound (is_consumed w inp consumed (index_key w cs e.relative_path)) (λ _. s)
          (λ _. record { rows = s.rows; counted = s.counted }))

    unseen_b-IsSound :
        (cs : Bool) (consumed : List WString) (items : Map FileEntry) (p : ResumePlan)
        → IsSound p
        → IsSound (unseen_b w inp cs consumed items p)
    unfolding unseen_b
    unseen_b-IsSound cs consumed [] p s = s
    unseen_b-IsSound cs consumed ((k, e) ∷ items) p s = unseen_b-IsSound cs consumed items _ (
        if_split IsSound (is_consumed w inp consumed (index_key w cs e.relative_path)) (λ _. s)
          (λ _. record { rows = s.rows; counted = s.counted }))

    injective : {p q : ResumePlan} → some p ≡ some q → p ≡ q
    injective h = cc

    finished :
        (cs : Bool) {o : Option (ResumePlan × List WString)} (p : ResumePlan)
        → SoundIf o
        → finish w inp cs a b o ≡ some p
        → IsSound p
    unfolding finish
    finished cs p refusal h = cc
    finished cs p (sound {p = q} {consumed = consumed} s) h =
        subst IsSound (injective h)
          (unseen_b-IsSound cs consumed b.entries _ (unseen_a-IsSound cs consumed a.entries q s))

resumed-planned : (o : Option ResumePlan) (p : ResumePlan) → resumed o ≡ planned p → o ≡ some p
resumed-planned none p h = cc
resumed-planned (some q) p h = cc

-- A plan for resuming a session reuses only rows whose verdict is no error, whose sides are present
-- as the verdict implies, with the saved types and, unless the row is of a directory, the saved sizes
-- and times, and whose paths lie in no directory that failed to be listed: no such directory is the
-- root, and none has, unit by unit (case counts in every session), the path of the row, or a path that
-- the row's path continues with a backslash. The plan counts the rows it reuses, modulo 2^64.
pub plan_resume-IsSound :
    (w : Win) (inp : ResumeInput) (journal : List JournalEntry) (a b : FileIndex) (p : ResumePlan)
    → inp.journal ≡ some journal
    → inp.current_a ≡ some a
    → inp.current_b ≡ some b
    → plan_resume w inp ≡ planned p
    → IsSound w inp a b p
unfolding plan_resume resume_pointers plan_indexes
plan_resume-IsSound w inp journal a b p hj ha hb h =
    let h1 = subst (λ x. resume_pointers w inp x inp.current_a inp.current_b ≡ planned p) hj h in
    let h2 = subst (λ x. resume_pointers w inp (some journal) x inp.current_b ≡ planned p) ha h1 in
    let h3 = subst (λ x. resume_pointers w inp (some journal) (some a) x ≡ planned p) hb h2 in
    finished w inp a b a.case_sensitive p
      (journal_loop-IsSound w inp a b a.case_sensitive
        (index_last w inp a.case_sensitive 0 journal []) 0 journal
        (new_resume_plan a.case_sensitive) [] (record { rows = tt; counted = refl }))
      (resumed-planned _ p h3)
