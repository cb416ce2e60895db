-- ===== src/Sync/Build/Claims.antt =====
-- Which deletions of directories a plan of src/Sync/SyncPlan.cpp may hold: `IsClaimedBySource` and
-- the claims that the loop over the rows collects.
use check_sync_files.Common.{
  ◌≡◌, refl, Bool, true, false, ◌&&◌, ◌||◌, not, List, [], ◌∷◌, ◌++◌, arith, All, All-of, All-map,
  any, ◌⊎◌, inl, inr, Bool-cases,
}
use check_sync_files.Text.{WString, backslash, empty, eqw, starts_with, sort_strings, unique}
use check_sync_files.Text.Laws.{eqw_refl}
use check_sync_files.Text.Order.{
  sort_strings-Sorted, unique-Sorted, any-sort_strings, any-unique, lower_bound-prefix,
  lower_bound-mem,
}
use check_sync_files.Windows.{Win}
use check_sync_files.Path.{fold_for_compare}
use check_sync_files.Result.{Status, missing, extra, FileResult, ResultSet}
use check_sync_files.Compare.Run.{is_extra}
use check_sync_files.Sync.Path.{resolve_within_root}
use check_sync_files.Sync.Build.Outcome.{is_dir_delete, clears_dir}
use check_sync_files.Sync.Plan.{SyncOp, SyncAction, dir_delete, is_claimed_by_source}
use check_sync_files.Sync.Build.{
  Build, new_build, plan_status, plan_row, plan_rows, rows_done, build_sync_plan,
}
use check_sync_files.Sync.Build.Fill.{build_draft-Filled, join_groups-All}

any-append : {A : Type 0} (p : A → Bool) (xs ys : List A) → any p (xs ++ ys) ≡ any p xs || any p ys
any-append p [] ys = refl
any-append p (x ∷ xs) ys = ground (arith, any-append p xs ys)

any-or :
    {A : Type 0} (p q : A → Bool) (xs : List A) → any (λ x. p x || q x) xs ≡ any p xs || any q xs
any-or p q [] = refl
any-or p q (x ∷ xs) = ground (arith, any-or p q xs)

-- A folded path is that of the directory, or lies below it.
abbrev pub at_or_under : WString → WString → Bool
at_or_under dir s = eqw s dir || starts_with (dir ++ (backslash ∷ [])) s

-- The binary searches decide whether some claimed path is at or under the directory.
pub is_claimed_by_source-any :
    (xs : List WString) (dir : WString)
    → is_claimed_by_source (unique (sort_strings xs)) dir ≡ any (at_or_under dir) xs
unfolding is_claimed_by_source
is_claimed_by_source-any xs dir =
    let prefix = dir ++ (backslash ∷ []) in
    let sorted = unique-Sorted (sort_strings xs) (sort_strings-Sorted xs) in
    rw (
      lower_bound-mem dir _ sorted,
      lower_bound-prefix prefix _ sorted,
      any-unique (λ y. eqw y dir) (sort_strings xs),
      any-sort_strings (λ y. eqw y dir) xs,
      any-unique (starts_with prefix) (sort_strings xs),
      any-sort_strings (starts_with prefix) xs,
      any-or (λ y. eqw y dir) (starts_with prefix) xs,
    )

module _ (w : Win) where
  plan_status-non_extra_rels :
      (s : Status) (r : FileResult) (b : Build)
      → (plan_status w s r b).non_extra_rels ≡ b.non_extra_rels
  unfolding plan_status
  plan_status-non_extra_rels missing r b = refl
  plan_status-non_extra_rels extra r b = refl
  plan_status-non_extra_rels _ r b = refl

  module _ (dest_root : WString) where
    -- A row that claims: accepted, not `Extra`, and its folded path passes the test.
    abbrev pub claims : (WString → Bool) → FileResult → Bool
    claims p r =
        not (empty (resolve_within_root w dest_root r.relative_path))
        && (not (is_extra r.status) && p (fold_for_compare w r.relative_path))

    plan_row-claims :
        (p : WString → Bool) (r : FileResult) (b : Build)
        → any p (plan_row w dest_root r b).non_extra_rels ≡ any p b.non_extra_rels || claims p r
    unfolding plan_row
    plan_row-claims p r b =
        elim (Bool-cases (empty (resolve_within_root w dest_root r.relative_path))) [
          | inl out ↦ rw out (ground arith)
          | inr accepted ↦
              rw (accepted, plan_status-non_extra_rels)
                (elim (Bool-cases (is_extra r.status)) [
                  | inl e ↦ rw e (ground arith)
                  | inr e ↦ rw (e, any-append p b.non_extra_rels) (ground arith)
                ])
        ]

    plan_rows-claims :
        (p : WString → Bool) (rows : List FileResult) (b : Build)
        → any p (plan_rows w dest_root rows b).non_extra_rels
          ≡ any p b.non_extra_rels || any (claims p) rows
    unfolding plan_rows
    plan_rows-claims p [] b = ground arith
    plan_rows-claims p (r ∷ rows) b =
        ground (arith, plan_rows-claims p rows (plan_row w dest_root r b), plan_row-claims p r b)

    unclaimed :
        (rows : List FileResult) (source_root : WString) (source_is_a : Bool) (dir : WString)
        → is_claimed_by_source
            (unique
              (sort_strings (rows_done w rows source_root dest_root source_is_a).non_extra_rels))
            dir
          ≡ false
        → any (claims (at_or_under dir)) rows ≡ false
    unclaimed rows source_root source_is_a dir free = ground (
      arith,
      is_claimed_by_source-any (rows_done w rows source_root dest_root source_is_a).non_extra_rels
          dir,
      plan_rows-claims (at_or_under dir) rows (new_build source_root dest_root source_is_a),
    )

-- The row names the directory, has an accepted path, and lets a directory go.
abbrev pub names_dir : Win → WString → WString → FileResult → Bool
names_dir w dest_root dir r =
    not (empty (resolve_within_root w dest_root r.relative_path))
    && (clears_dir r.status r && eqw r.relative_path dir)

-- What justifies deleting a directory: a row that names it and lets a directory go, or no accepted
-- row other than an `Extra` one is at its place or below it.
abbrev pub IsJustified : Win → WString → List FileResult → SyncAction → Type 0
IsJustified w dest_root rows a =
    a.op ≡ dir_delete
    → (any (names_dir w dest_root a.relative_path) rows ≡ true)
      ⊎ (any (claims w dest_root (at_or_under (fold_for_compare w a.relative_path))) rows ≡ false)

deletes : (op : SyncOp) → op ≡ dir_delete → is_dir_delete op ≡ true
deletes op e = rw e refl

-- The row is found among the rows, when it is accepted and lets a directory go.
abbrev IsNamed : Win → WString → List FileResult → FileResult → Type 0
IsNamed w dest_root rows r =
    empty (resolve_within_root w dest_root r.relative_path) ≡ false
    → clears_dir r.status r ≡ true
    → any (names_dir w dest_root r.relative_path) rows ≡ true

every-IsNamed :
    (w : Win) (dest_root : WString) (rows : List FileResult) → All (IsNamed w dest_root rows) rows
every-IsNamed w dest_root [] = tt
every-IsNamed w dest_root (x ∷ xs) = (
  λ accepted clears. ground (arith, eqw_refl x.relative_path),
  All-map (IsNamed w dest_root xs) _ xs (λ z h accepted clears. ground arith)
      (every-IsNamed w dest_root xs),
)

-- Every deletion of a directory in a plan either has its path from a row of the comparison that
-- `ResolveWithinRoot` accepts, that is extra or of two different sides, and whose destination is a
-- plain directory, or no accepted row other than an `Extra` one has a path that, folded, is at or under the directory. (The
-- entries that the source and the destination have alike are in no row, so they claim nothing.)
pub build_sync_plan-IsJustified :
    (w : Win) (results : ResultSet) (source_root dest_root : WString) (source_is_a : Bool)
    → All
        (IsJustified w dest_root results.problems)
        (build_sync_plan w results source_root dest_root source_is_a).actions
unfolding build_sync_plan
build_sync_plan-IsJustified w results source_root dest_root source_is_a =
    let rows = results.problems in
    join_groups-All (λ _. IsJustified w dest_root rows) (IsJustified w dest_root rows) (λ _ a h. h)
      _
      (build_draft-Filled (λ _. IsJustified w dest_root rows) w rows source_root dest_root
        source_is_a
        (All-map (λ (r : FileResult). IsNamed w dest_root rows r) _ rows
          (λ r named accepted op side clears is_delete.
            inl (named accepted (clears (deletes op is_delete))))
          (every-IsNamed w dest_root rows))
        (All-of _ _ (λ dir free is_delete. inr (
          unclaimed w dest_root rows source_root source_is_a (fold_for_compare w dir)
            free)))).groups
