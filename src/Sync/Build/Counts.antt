-- ===== src/Sync/Build/Counts.antt =====
-- The summary of a plan of src/Sync/SyncPlan.cpp, which `Tally` keeps, against its actions.
use check_sync_files.Common.{
  ℕ, ◌+◌, ◌%◌, ◌≡◌, refl, Bool, List, [], ◌∷◌, arith, u64_mod, ◌⊎◌, inl, inr,
}
use check_sync_files.Text.{WString}
use check_sync_files.Windows.{Win}
use check_sync_files.Sorting.{sum_of, sum_of-append, sum_of-sort_by, smaller, larger}
use check_sync_files.Result.{ResultSet}
use check_sync_files.Sync.Plan.{
  no_summary, SyncOp, file_copy, file_replace, file_delete, dir_create, dir_delete, link_create,
  link_replace, link_delete, SyncAction, Summary, Groups, Draft, place, tally, schedule, push_skip,
}
use check_sync_files.Sync.Build.{build_draft, build_sync_plan, sort_groups, join_groups, path_size}
use check_sync_files.Sync.Build.Closed.{IsStepwise, build_draft-stepwise}

-- The sum of a measure over the actions of all groups.
module _ (f : SyncAction → ℕ) where
  abbrev pub groups_sum : Groups → ℕ
  groups_sum g =
      sum_of f g.create_dirs
      + (sum_of f g.deletes
          + (sum_of f g.delete_dirs + (sum_of f g.file_writes + sum_of f g.link_writes)))

  pub place-sum :
      (op : SyncOp) (a : SyncAction) (g : Groups) → groups_sum (place op a g) ≡ groups_sum g + f a
  place-sum dir_create a g = omega (arith, sum_of-append f g.create_dirs (a ∷ []))
  place-sum file_delete a g = omega (arith, sum_of-append f g.deletes (a ∷ []))
  place-sum link_delete a g = omega (arith, sum_of-append f g.deletes (a ∷ []))
  place-sum dir_delete a g = omega (arith, sum_of-append f g.delete_dirs (a ∷ []))
  place-sum file_copy a g = omega (arith, sum_of-append f g.file_writes (a ∷ []))
  place-sum file_replace a g = omega (arith, sum_of-append f g.file_writes (a ∷ []))
  place-sum link_create a g = omega (arith, sum_of-append f g.link_writes (a ∷ []))
  place-sum link_replace a g = omega (arith, sum_of-append f g.link_writes (a ∷ []))

  pub join_groups-sum : (g : Groups) → sum_of f (join_groups g) ≡ groups_sum g
  unfolding join_groups
  join_groups-sum g = rw (
    sum_of-append f g.create_dirs,
    sum_of-append f g.deletes,
    sum_of-append f g.delete_dirs,
    sum_of-append f g.file_writes,
  )

  pub sort_groups-sum : (g : Groups) → groups_sum (sort_groups g) ≡ groups_sum g
  unfolding sort_groups
  sort_groups-sum g = rw (
    sum_of-sort_by (smaller path_size) f g.create_dirs,
    sum_of-sort_by (larger path_size) f g.delete_dirs,
  )

-- What an action adds to each counter of the summary.
abbrev pub same_op : SyncOp → SyncOp → ℕ
same_op file_copy file_copy = 1
same_op file_replace file_replace = 1
same_op file_delete file_delete = 1
same_op dir_create dir_create = 1
same_op dir_delete dir_delete = 1
same_op link_create link_create = 1
same_op link_replace link_replace = 1
same_op link_delete link_delete = 1
same_op _ _ = 0

abbrev pub copied_bytes : SyncOp → ℕ → ℕ
copied_bytes file_copy bytes = bytes
copied_bytes file_replace bytes = bytes
copied_bytes _ bytes = 0

module _ (get : Summary → ℕ) (f : SyncOp → ℕ → ℕ) where
  -- A counter is the sum of its measure over the actions, as a `uint64_t`.
  abbrev IsSum : Draft → Type 0
  IsSum d = get d.plan.summary ≡ groups_sum (λ a. f a.op a.bytes) d.groups % u64_mod

  -- `Tally` adds the measure to the counter, or leaves a counter of a measure 0.
  abbrev IsCounter : Type 0
  IsCounter =
      (op : SyncOp) (bytes : ℕ) (s : Summary)
      → (get (tally op bytes s) ≡ (get s + f op bytes) % u64_mod)
        ⊎ ((get (tally op bytes s) ≡ get s) × (f op bytes ≡ 0))

  schedule-IsSum : IsCounter → (a : SyncAction) (d : Draft) → IsSum d → IsSum (schedule a d)
  unfolding schedule
  schedule-IsSum step a d h =
      let placed = place-sum (λ a. f a.op a.bytes) a.op a d.groups in
      elim (step a.op a.bytes d.plan.summary) [
        | inl e ↦ omega (arith, e, placed, h)
        | inr e ↦ omega (arith, e.0, e.1, placed, h)
      ]

  IsSum-stepwise : IsCounter → (w : Win) → IsStepwise w IsSum
  unfolding push_skip
  IsSum-stepwise step w = record {
    skips = λ rel reason d h. h;
    schedules = schedule-IsSum step;
    allows = λ folded d h. h;
  }

  summary-sum :
      IsCounter
      → get no_summary ≡ 0
      → (w : Win) (results : ResultSet) (source_root dest_root : WString) (source_is_a : Bool)
      → get (build_sync_plan w results source_root dest_root source_is_a).summary
        ≡ sum_of
            (λ a. f a.op a.bytes)
            (build_sync_plan w results source_root dest_root source_is_a).actions
          % u64_mod
  unfolding build_sync_plan
  summary-sum step start w results source_root dest_root source_is_a =
      let d = build_draft w results.problems source_root dest_root source_is_a in
      let measure : SyncAction → ℕ = λ a. f a.op a.bytes in
      rw (join_groups-sum measure (sort_groups d.groups), sort_groups-sum measure d.groups)
        (build_draft-stepwise w IsSum (IsSum-stepwise step w) results.problems source_root dest_root
          source_is_a (rw start))

step_copy_files : IsCounter (λ s. s.copy_files) (λ op bytes. same_op file_copy op)
unfolding tally
step_copy_files file_copy bytes s = inl refl
step_copy_files _ bytes s = inr (refl, refl)

step_replace_files : IsCounter (λ s. s.replace_files) (λ op bytes. same_op file_replace op)
unfolding tally
step_replace_files file_replace bytes s = inl refl
step_replace_files _ bytes s = inr (refl, refl)

step_delete_files : IsCounter (λ s. s.delete_files) (λ op bytes. same_op file_delete op)
unfolding tally
step_delete_files file_delete bytes s = inl refl
step_delete_files _ bytes s = inr (refl, refl)

step_create_dirs : IsCounter (λ s. s.create_dirs) (λ op bytes. same_op dir_create op)
unfolding tally
step_create_dirs dir_create bytes s = inl refl
step_create_dirs _ bytes s = inr (refl, refl)

step_delete_dirs : IsCounter (λ s. s.delete_dirs) (λ op bytes. same_op dir_delete op)
unfolding tally
step_delete_dirs dir_delete bytes s = inl refl
step_delete_dirs _ bytes s = inr (refl, refl)

step_create_links : IsCounter (λ s. s.create_links) (λ op bytes. same_op link_create op)
unfolding tally
step_create_links link_create bytes s = inl refl
step_create_links _ bytes s = inr (refl, refl)

step_replace_links : IsCounter (λ s. s.replace_links) (λ op bytes. same_op link_replace op)
unfolding tally
step_replace_links link_replace bytes s = inl refl
step_replace_links _ bytes s = inr (refl, refl)

step_delete_links : IsCounter (λ s. s.delete_links) (λ op bytes. same_op link_delete op)
unfolding tally
step_delete_links link_delete bytes s = inl refl
step_delete_links _ bytes s = inr (refl, refl)

step_bytes : IsCounter (λ s. s.bytes_to_copy) copied_bytes
unfolding tally
step_bytes file_copy bytes s = inl refl
step_bytes file_replace bytes s = inl refl
step_bytes _ bytes s = inr (refl, refl)

-- The number of actions of an operation.
abbrev pub count_of : SyncOp → List SyncAction → ℕ
count_of op actions = sum_of (λ (a : SyncAction). same_op op a.op) actions

-- The counters of a summary are those of a list of actions, modulo 2^64.
pub record IsSummaryOf (actions : List SyncAction) (s : Summary) : Type 0 where
  pub copy_files : s.copy_files ≡ count_of file_copy actions % u64_mod
  pub replace_files : s.replace_files ≡ count_of file_replace actions % u64_mod
  pub delete_files : s.delete_files ≡ count_of file_delete actions % u64_mod
  pub create_dirs : s.create_dirs ≡ count_of dir_create actions % u64_mod
  pub delete_dirs : s.delete_dirs ≡ count_of dir_delete actions % u64_mod
  pub create_links : s.create_links ≡ count_of link_create actions % u64_mod
  pub replace_links : s.replace_links ≡ count_of link_replace actions % u64_mod
  pub delete_links : s.delete_links ≡ count_of link_delete actions % u64_mod
  pub bytes_to_copy :
      s.bytes_to_copy ≡ sum_of (λ (a : SyncAction). copied_bytes a.op a.bytes) actions % u64_mod

-- The summary of a plan counts the actions of each operation, and the bytes of those that copy or
-- replace a file, modulo 2^64.
pub build_sync_plan-IsSummaryOf :
    (w : Win) (results : ResultSet) (source_root dest_root : WString) (source_is_a : Bool)
    → let plan = build_sync_plan w results source_root dest_root source_is_a in
      IsSummaryOf plan.actions plan.summary
build_sync_plan-IsSummaryOf w results source_root dest_root source_is_a = record {
  copy_files = summary-sum _ _ step_copy_files refl w results source_root dest_root source_is_a;
  replace_files =
      summary-sum _ _ step_replace_files refl w results source_root dest_root source_is_a;
  delete_files = summary-sum _ _ step_delete_files refl w results source_root dest_root source_is_a;
  create_dirs = summary-sum _ _ step_create_dirs refl w results source_root dest_root source_is_a;
  delete_dirs = summary-sum _ _ step_delete_dirs refl w results source_root dest_root source_is_a;
  create_links = summary-sum _ _ step_create_links refl w results source_root dest_root source_is_a;
  replace_links =
      summary-sum _ _ step_replace_links refl w results source_root dest_root source_is_a;
  delete_links = summary-sum _ _ step_delete_links refl w results source_root dest_root source_is_a;
  bytes_to_copy = summary-sum _ _ step_bytes refl w results source_root dest_root source_is_a;
}
