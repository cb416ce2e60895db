-- ===== src/Sync/Build/Fill.antt =====
-- How the helpers of src/Sync/SyncPlan.cpp fill the groups of a plan: every predicate of actions
-- that the scheduled ones satisfy holds in all groups, and each group holds its own operations.
use check_sync_files.Common.{
  ℕ, ◌≡◌, Bool, true, false, List, [], ◌∷◌, ◌++◌, All, All-append, if_split, All-map, any,
  Bool-cases, inl, inr,
}
use check_sync_files.Text.{WString, Bytes, empty, eqw, sort_strings, unique}
use check_sync_files.Windows.{Win}
use check_sync_files.Sync.Plan.{
  SyncOp, file_copy, file_replace, file_delete, dir_create, dir_delete, link_create, link_replace,
  link_delete, SyncAction, Groups, no_groups, Draft, OneSide, place, make_action, push_skip,
  allow_extra, is_claimed_by_source, schedule,
}
use check_sync_files.Result.{FileResult}
use check_sync_files.Path.{fold_for_compare}
use check_sync_files.Sorting.{sort_by-All}
use check_sync_files.Sync.Path.{resolve_within_root}
use check_sync_files.Sync.Build.{
  Build, new_build, rows_done, build_draft, sort_ancestors, plan_row, plan_rows, plan_ancestor,
  plan_ancestors, ancestor_action, join_groups, sort_groups,
}
use check_sync_files.Sync.Build.Outcome.{
  Outcome, is_dir_delete, clears_dir, skip, single, cleared, removed, plan_status-Outcome,
}

-- A predicate that may depend on the group, numbered in execution order.
module _ (P : ℕ → SyncAction → Type 0) where
  pub record InGroups (g : Groups) : Type 0 where
    pub create_dirs : All (P 0) g.create_dirs
    pub deletes : All (P 1) g.deletes
    pub delete_dirs : All (P 2) g.delete_dirs
    pub file_writes : All (P 3) g.file_writes
    pub link_writes : All (P 4) g.link_writes

  pub no_groups-InGroups : InGroups no_groups
  no_groups-InGroups = record {
    create_dirs = tt;
    deletes = tt;
    delete_dirs = tt;
    file_writes = tt;
    link_writes = tt;
  }

-- A row whose path is accepted.
abbrev pub Accepted : Win → WString → FileResult → Type 0
Accepted w dest_root r = empty (resolve_within_root w dest_root r.relative_path) ≡ false

-- The number of the group of an operation.
abbrev pub rank : SyncOp → ℕ
rank dir_create = 0
rank file_delete = 1
rank link_delete = 1
rank dir_delete = 2
rank file_copy = 3
rank file_replace = 3
rank link_create = 4
rank link_replace = 4

module _ (P : ℕ → SyncAction → Type 0) where
  push_All :
      (k : ℕ) (xs : List SyncAction) (a : SyncAction)
      → All (P k) xs
      → P k a
      → All (P k) (xs ++ (a ∷ []))
  push_All k xs a h p = All-append (P k) xs (a ∷ []) h (p, tt)

  place-InGroups :
      (op : SyncOp) (a : SyncAction) (g : Groups)
      → P (rank op) a
      → InGroups P g
      → InGroups P (place op a g)
  place-InGroups dir_create a g p h = record {
    create_dirs = push_All 0 g.create_dirs a h.create_dirs p;
    deletes = h.deletes;
    delete_dirs = h.delete_dirs;
    file_writes = h.file_writes;
    link_writes = h.link_writes;
  }
  place-InGroups file_delete a g p h = record {
    create_dirs = h.create_dirs;
    deletes = push_All 1 g.deletes a h.deletes p;
    delete_dirs = h.delete_dirs;
    file_writes = h.file_writes;
    link_writes = h.link_writes;
  }
  place-InGroups link_delete a g p h = record {
    create_dirs = h.create_dirs;
    deletes = push_All 1 g.deletes a h.deletes p;
    delete_dirs = h.delete_dirs;
    file_writes = h.file_writes;
    link_writes = h.link_writes;
  }
  place-InGroups dir_delete a g p h = record {
    create_dirs = h.create_dirs;
    deletes = h.deletes;
    delete_dirs = push_All 2 g.delete_dirs a h.delete_dirs p;
    file_writes = h.file_writes;
    link_writes = h.link_writes;
  }
  place-InGroups file_copy a g p h = record {
    create_dirs = h.create_dirs;
    deletes = h.deletes;
    delete_dirs = h.delete_dirs;
    file_writes = push_All 3 g.file_writes a h.file_writes p;
    link_writes = h.link_writes;
  }
  place-InGroups file_replace a g p h = record {
    create_dirs = h.create_dirs;
    deletes = h.deletes;
    delete_dirs = h.delete_dirs;
    file_writes = push_All 3 g.file_writes a h.file_writes p;
    link_writes = h.link_writes;
  }
  place-InGroups link_create a g p h = record {
    create_dirs = h.create_dirs;
    deletes = h.deletes;
    delete_dirs = h.delete_dirs;
    file_writes = h.file_writes;
    link_writes = push_All 4 g.link_writes a h.link_writes p;
  }
  place-InGroups link_replace a g p h = record {
    create_dirs = h.create_dirs;
    deletes = h.deletes;
    delete_dirs = h.delete_dirs;
    file_writes = h.file_writes;
    link_writes = push_All 4 g.link_writes a h.link_writes p;
  }

  -- All actions of a draft satisfy the predicate of their group.
  pub record Filled (d : Draft) : Type 0 where
    pub groups : InGroups P d.groups

  pub schedule-Filled :
      (a : SyncAction) (d : Draft) → P (rank a.op) a → Filled d → Filled (schedule a d)
  unfolding schedule
  schedule-Filled a d p h = record { groups = place-InGroups a.op a d.groups p h.groups }

  pub push_skip-Filled :
      (w : Win) (rel : WString) (reason : Bytes) (d : Draft)
      → Filled d
      → Filled (push_skip w rel reason d)
  unfolding push_skip
  push_skip-Filled w rel reason d h = record { groups = h.groups }

  pub allow_extra-Filled : (folded : WString) (d : Draft) → Filled d → Filled (allow_extra folded d)
  allow_extra-Filled folded d h = record { groups = h.groups }

  -- Every action that a row of this path can cause satisfies the predicate of its group.
  abbrev pub RowOk : WString → Bool → Type 0
  RowOk rel clears =
      (op : SyncOp) (side : OneSide)
      → (is_dir_delete op ≡ true → clears ≡ true)
      → P (rank op) (make_action op rel side)

  pub Outcome-Filled :
      (w : Win) (rel : WString) (d : Draft) {clears : Bool} {d' : Draft}
      → RowOk rel clears
      → Outcome w rel d clears d'
      → Filled d
      → Filled d'
  Outcome-Filled w rel d ok (skip reason) h = push_skip-Filled w rel reason d h
  Outcome-Filled w rel d ok (single op side other) h = schedule-Filled _ d (ok op side λ e. cc) h
  Outcome-Filled w rel d ok (cleared op src dst other clears) h =
      schedule-Filled _ _ (ok op src λ e. cc)
        (schedule-Filled _ d (ok dir_delete dst λ _. clears) h)
  Outcome-Filled w rel d ok (removed op dst clears) h =
      schedule-Filled _ _ (ok op dst clears) (allow_extra-Filled (fold_for_compare w rel) d h)

  module _ (w : Win) (dest_root : WString) where
    plan_row-Filled :
        (r : FileResult) (b : Build)
        → (Accepted w dest_root r → RowOk r.relative_path (clears_dir r.status r))
        → Filled b.draft
        → Filled (plan_row w dest_root r b).draft
    unfolding plan_row
    plan_row-Filled r b ok h =
        elim (Bool-cases (empty (resolve_within_root w dest_root r.relative_path))) [
          | inl out ↦ rw out (push_skip-Filled w _ _ b.draft h)
          | inr accepted ↦ rw accepted (
              Outcome-Filled w r.relative_path b.draft (ok accepted)
                (plan_status-Outcome w r r.status _) h)
        ]

    pub plan_rows-Filled :
        (rows : List FileResult) (b : Build)
        → All (λ r. Accepted w dest_root r → RowOk r.relative_path (clears_dir r.status r)) rows
        → Filled b.draft
        → Filled (plan_rows w dest_root rows b).draft
    unfolding plan_rows
    plan_rows-Filled [] b ok h = h
    plan_rows-Filled (r ∷ rows) b ok h =
        plan_rows-Filled rows (plan_row w dest_root r b) ok.1 (plan_row-Filled r b ok.0 h)

    -- Deletions of ancestors are checked against the claims.
    abbrev pub AncestorOk : List WString → WString → Type 0
    AncestorOk non_extra dir =
        is_claimed_by_source non_extra (fold_for_compare w dir) ≡ false → P 2 (ancestor_action dir)

    plan_ancestor-Filled :
        (non_extra : List WString) (dir : WString) (d : Draft)
        → AncestorOk non_extra dir
        → Filled d
        → Filled (plan_ancestor w non_extra dir d)
    unfolding plan_ancestor
    plan_ancestor-Filled non_extra dir d ok h =
        if_split Filled (is_claimed_by_source non_extra (fold_for_compare w dir)) (λ _. h)
          λ free.
            if_split Filled (any (λ (a : SyncAction). eqw a.relative_path dir) d.groups.delete_dirs)
              (λ _. h)
              (λ _. allow_extra-Filled _ _ (schedule-Filled (ancestor_action dir) d (ok free) h))

    pub plan_ancestors-Filled :
        (non_extra dirs : List WString) (d : Draft)
        → All (AncestorOk non_extra) dirs
        → Filled d
        → Filled (plan_ancestors w non_extra dirs d)
    unfolding plan_ancestors
    plan_ancestors-Filled non_extra [] d ok h = h
    plan_ancestors-Filled non_extra (dir ∷ dirs) d ok h =
        plan_ancestors-Filled non_extra dirs (plan_ancestor w non_extra dir d) ok.1
          (plan_ancestor-Filled non_extra dir d ok.0 h)

  -- The ancestors, and the claims, with which the second loop begins.
  module _ (w : Win) (rows : List FileResult) (source_root dest_root : WString)
      (source_is_a : Bool) where
    pub build_draft-Filled :
        All (λ r. Accepted w dest_root r → RowOk r.relative_path (clears_dir r.status r)) rows
        → let b = rows_done w rows source_root dest_root source_is_a in
          All
            (AncestorOk w dest_root (unique (sort_strings b.non_extra_rels)))
            (sort_ancestors b.dir_ancestors)
          → Filled (build_draft w rows source_root dest_root source_is_a)
    unfolding build_draft
    build_draft-Filled ok free = plan_ancestors-Filled w dest_root _ _ _ free (
        plan_rows-Filled w dest_root rows (new_build source_root dest_root source_is_a) ok
          (record { groups = no_groups-InGroups P }))

  -- A predicate of the actions, whatever their group, carries over to the joined groups.
  module _ (Q : SyncAction → Type 0) (f : (k : ℕ) (a : SyncAction) → P k a → Q a) where
    pub join_unsorted-All : (g : Groups) → InGroups P g → All Q (join_groups g)
    unfolding join_groups
    join_unsorted-All g h = All-append Q _ _ (All-map (P 0) Q _ (f 0) h.create_dirs) (
        All-append Q _ _ (All-map (P 1) Q _ (f 1) h.deletes) (
          All-append Q _ _ (All-map (P 2) Q _ (f 2) h.delete_dirs) (
            All-append Q _ _ (All-map (P 3) Q _ (f 3) h.file_writes)
              (All-map (P 4) Q _ (f 4) h.link_writes))))

    pub join_groups-All : (g : Groups) → InGroups P g → All Q (join_groups (sort_groups g))
    unfolding sort_groups
    join_groups-All g h = join_unsorted-All (sort_groups g) (record {
      create_dirs = sort_by-All _ (P 0) g.create_dirs h.create_dirs;
      deletes = h.deletes;
      delete_dirs = sort_by-All _ (P 2) g.delete_dirs h.delete_dirs;
      file_writes = h.file_writes;
      link_writes = h.link_writes;
    })
