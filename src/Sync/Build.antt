-- ===== src/Sync/Build.antt =====
-- `BuildSyncPlan` and `BuildSingleActionPlan` of src/Sync/SyncPlan.cpp.
pub mod Outcome
pub mod Closed
pub mod Fill
pub mod Order
pub mod Counts
pub mod Ancestors
pub mod Contained
pub mod Rows
pub mod Claims
pub mod Single
use check_sync_files.Common.{
  ℕ, Bool, true, false, not, List, [], ◌∷◌, ◌++◌, if◌then◌else◌, length, any,
}
use check_sync_files.Text.{WString, empty, eqw, sort_strings, unique, lit}
use check_sync_files.Windows.{Win}
use check_sync_files.Path.{fold_for_compare}
use check_sync_files.Sorting.{sort_by, smaller, larger}
use check_sync_files.Entry.{plain}
use check_sync_files.Result.{
  Status, missing, extra, size_mismatch, content_mismatch, content_mismatch_partial, FileResult,
  ResultSet,
}
use check_sync_files.Compare.Run.{is_extra}
use check_sync_files.Sync.Path.{resolve_within_root}
use check_sync_files.Sync.Plan.{
  SyncAction, dir_delete, SyncPlan, new_plan, Groups, no_groups, Draft, OneSide, make_action,
  schedule, push_skip, append_missing_like, append_extra_like, append_mismatch_replace, allow_extra,
  is_claimed_by_source,
}

-- What the loop over the rows fills.
pub record Build : Type 0 where
  pub draft : Draft
  pub dir_ancestors : List WString
  pub non_extra_rels : List WString

abbrev pub new_build : WString → WString → Bool → Build
new_build source_root dest_root source_is_a = record {
  draft = record { plan = new_plan source_root dest_root source_is_a; groups = no_groups };
  dir_ancestors = [];
  non_extra_rels = [];
}

-- The two sides that a row describes.
abbrev pub source_side : FileResult → OneSide
source_side r = record {
  is_dir = r.src_is_directory;
  kind = r.src_reparse_kind;
  bytes = r.size_source;
}

abbrev pub dest_side : FileResult → OneSide
dest_side r = record { is_dir = r.dst_is_directory; kind = r.reparse_kind; bytes = 0 }

abbrev pub ancestor_action : WString → SyncAction
ancestor_action dir = record {
  op = dir_delete;
  relative_path = dir;
  is_directory = true;
  link_kind = plain;
  bytes = 0;
}

module _ (w : Win) where
  -- The `switch` on the status of a row.
  unfoldable pub plan_status : Status → FileResult → Build → Build
  plan_status missing r b = record b {
    draft = append_missing_like w r.relative_path (source_side r) true b.draft;
  }
  plan_status extra r b =
      let (d, ancestors) =
        append_extra_like w r.relative_path (dest_side r) b.dir_ancestors true b.draft in
      record b { draft = d; dir_ancestors = ancestors }
  plan_status size_mismatch r b = record b {
    draft = append_mismatch_replace w r.relative_path (source_side r) (dest_side r) b.draft;
  }
  plan_status content_mismatch r b = record b {
    draft = append_mismatch_replace w r.relative_path (source_side r) (dest_side r) b.draft;
  }
  plan_status content_mismatch_partial r b = record b {
    draft = append_mismatch_replace w r.relative_path (source_side r) (dest_side r) b.draft;
  }
  plan_status _ r b = record b {
    draft = push_skip w r.relative_path (lit "stato non sincronizzabile") b.draft;
  }

  -- The body of the loop: containment first, then the claim of the source, then the `switch`.
  unfoldable pub plan_row : WString → FileResult → Build → Build
  plan_row dest_root r b =
      let claimed = record b {
        non_extra_rels =
            if is_extra r.status
            then b.non_extra_rels
            else b.non_extra_rels ++ (fold_for_compare w r.relative_path ∷ []);
      } in
      if empty (resolve_within_root w dest_root r.relative_path)
      then record b {
        draft =
            push_skip w r.relative_path (lit "percorso fuori dalla radice di destinazione") b.draft;
      }
      else plan_status r.status r claimed

  unfoldable pub plan_rows : WString → List FileResult → Build → Build
  plan_rows dest_root [] b = b
  plan_rows dest_root (r ∷ rows) b = plan_rows dest_root rows (plan_row dest_root r b)

  -- One ancestor: skipped when the source claims it or when its deletion is planned already.
  unfoldable pub plan_ancestor : List WString → WString → Draft → Draft
  plan_ancestor non_extra dir d =
      if is_claimed_by_source non_extra (fold_for_compare w dir)
      then d
      else if any (λ (a : SyncAction). eqw a.relative_path dir) d.groups.delete_dirs
      then d
      else allow_extra (fold_for_compare w dir) (schedule (ancestor_action dir) d)

  unfoldable pub plan_ancestors : List WString → List WString → Draft → Draft
  plan_ancestors non_extra [] d = d
  plan_ancestors non_extra (dir ∷ dirs) d =
      plan_ancestors non_extra dirs (plan_ancestor non_extra dir d)

abbrev pub path_size : SyncAction → ℕ
path_size a = length a.relative_path

-- The groups in execution order: directories are created shallow first and deleted deep first.
unfoldable pub join_groups : Groups → List SyncAction
join_groups g = g.create_dirs ++ (g.deletes ++ (g.delete_dirs ++ (g.file_writes ++ g.link_writes)))

unfoldable pub sort_groups : Groups → Groups
sort_groups g = record g {
  create_dirs = sort_by (smaller path_size) g.create_dirs;
  delete_dirs = sort_by (larger path_size) g.delete_dirs;
}

-- `unique` of the sorted vector, then longest first.
unfoldable pub sort_ancestors : List WString → List WString
sort_ancestors dirs = sort_by (larger (λ (s : WString). length s)) (unique (sort_strings dirs))

module _ (w : Win) where
  -- The loop over the rows, from an empty plan.
  abbrev pub rows_done : List FileResult → WString → WString → Bool → Build
  rows_done rows source_root dest_root source_is_a =
      plan_rows w dest_root rows (new_build source_root dest_root source_is_a)

  -- The draft when both loops are done.
  unfoldable pub build_draft : List FileResult → WString → WString → Bool → Draft
  build_draft rows source_root dest_root source_is_a =
      let b = rows_done rows source_root dest_root source_is_a in
      plan_ancestors w (unique (sort_strings b.non_extra_rels)) (sort_ancestors b.dir_ancestors)
        b.draft

  unfoldable pub build_sync_plan : ResultSet → WString → WString → Bool → SyncPlan
  build_sync_plan results source_root dest_root source_is_a =
      let d = build_draft results.problems source_root dest_root source_is_a in
      record d.plan { actions = join_groups (sort_groups d.groups) }

pub data ManualOp : Type 0 where
  copy_to_dst replace_to_dst delete_at_dst create_dir_dst : ManualOp

-- The sides of a row for a manual action, oriented by its direction.
abbrev pub side_a : FileResult → OneSide
side_a r = record { is_dir = r.src_is_directory; kind = r.src_reparse_kind; bytes = r.size_source }

abbrev pub side_b : FileResult → OneSide
side_b r = record { is_dir = r.dst_is_directory; kind = r.reparse_kind; bytes = r.size_dest }

module _ (w : Win) where
  unfoldable pub manual_action : ManualOp → WString → OneSide → OneSide → Draft → Draft
  manual_action copy_to_dst rel src dst d = append_missing_like w rel src false d
  manual_action replace_to_dst rel src dst d = append_mismatch_replace w rel src dst d
  manual_action delete_at_dst rel src dst d = (append_extra_like w rel dst [] false d).0
  manual_action create_dir_dst rel src dst d = append_missing_like w rel src true d

  unfoldable pub build_single_action_plan :
      FileResult → ManualOp → WString → WString → Bool → SyncPlan
  build_single_action_plan row op root_a root_b to_a =
      let source_root = if to_a then root_b else root_a in
      let dest_root = if to_a then root_a else root_b in
      let start : Draft = record {
        plan = new_plan source_root dest_root (not to_a);
        groups = no_groups;
      } in
      let src = if to_a then side_b row else side_a row in
      let dst = if to_a then side_a row else side_b row in
      let d =
        allow_extra (fold_for_compare w row.relative_path)
          (manual_action op row.relative_path src dst start) in
      if empty (resolve_within_root w dest_root row.relative_path)
      then (push_skip w row.relative_path (lit "percorso fuori radice") start).plan
      else if empty (resolve_within_root w source_root row.relative_path)
      then (push_skip w row.relative_path (lit "percorso fuori radice") start).plan
      else record d.plan { actions = join_groups d.groups }
