-- ===== src/Sync/Plan.antt =====
-- src/Sync/SyncPlan.cpp: from comparison rows to an ordered plan. No access to the filesystem.
use check_sync_files.Common.{ℕ, Bool, ◌&&◌, ◌||◌, not, List, [], ◌∷◌, ◌++◌, if◌then◌else◌, ◌==◌}
use check_sync_files.Text.{WString, Bytes, backslash, lower_bound, lit}
use check_sync_files.Text.Order.{head_starts_with, head_is}
use check_sync_files.Windows.{Win}
use check_sync_files.Path.{fold_for_compare, to_utf8}
use check_sync_files.Entry.{ReparseKind, is_plain, is_supported_link, inc64, add64}

pub data SyncOp : Type 0 where
  file_copy file_replace file_delete dir_create dir_delete link_create link_replace link_delete :
      SyncOp

pub record SyncAction : Type 0 where
  pub op : SyncOp
  pub relative_path : WString
  pub is_directory : Bool
  pub link_kind : ReparseKind
  pub bytes : ℕ

pub record Summary : Type 0 where
  pub copy_files : ℕ
  pub replace_files : ℕ
  pub delete_files : ℕ
  pub create_dirs : ℕ
  pub delete_dirs : ℕ
  pub create_links : ℕ
  pub replace_links : ℕ
  pub delete_links : ℕ
  pub bytes_to_copy : ℕ

abbrev pub no_summary : Summary
no_summary = record {
  copy_files = 0;
  replace_files = 0;
  delete_files = 0;
  create_dirs = 0;
  delete_dirs = 0;
  create_links = 0;
  replace_links = 0;
  delete_links = 0;
  bytes_to_copy = 0;
}

pub record SyncPlan : Type 0 where
  pub source_root : WString
  pub dest_root : WString
  pub source_is_a : Bool
  pub actions : List SyncAction
  pub summary : Summary
  pub skipped : List Bytes
  pub extra_folded_rels : List WString

abbrev pub new_plan : WString → WString → Bool → SyncPlan
new_plan source_root dest_root source_is_a = record {
  source_root = source_root;
  dest_root = dest_root;
  source_is_a = source_is_a;
  actions = [];
  summary = no_summary;
  skipped = [];
  extra_folded_rels = [];
}

pub record Groups : Type 0 where
  pub create_dirs : List SyncAction
  pub deletes : List SyncAction
  pub delete_dirs : List SyncAction
  pub file_writes : List SyncAction
  pub link_writes : List SyncAction

abbrev pub no_groups : Groups
no_groups = record {
  create_dirs = [];
  deletes = [];
  delete_dirs = [];
  file_writes = [];
  link_writes = [];
}

-- The plan and the groups while they are filled.
pub record Draft : Type 0 where
  pub plan : SyncPlan
  pub groups : Groups

-- `Tally`.
unfoldable pub tally : SyncOp → ℕ → Summary → Summary
tally file_copy bytes s = record s {
  copy_files = inc64 s.copy_files;
  bytes_to_copy = add64 s.bytes_to_copy bytes;
}
tally file_replace bytes s = record s {
  replace_files = inc64 s.replace_files;
  bytes_to_copy = add64 s.bytes_to_copy bytes;
}
tally file_delete bytes s = record s { delete_files = inc64 s.delete_files }
tally dir_create bytes s = record s { create_dirs = inc64 s.create_dirs }
tally dir_delete bytes s = record s { delete_dirs = inc64 s.delete_dirs }
tally link_create bytes s = record s { create_links = inc64 s.create_links }
tally link_replace bytes s = record s { replace_links = inc64 s.replace_links }
tally link_delete bytes s = record s { delete_links = inc64 s.delete_links }

-- The group that an action is pushed to.
abbrev pub place : SyncOp → SyncAction → Groups → Groups
place dir_create a g = record g { create_dirs = g.create_dirs ++ (a ∷ []) }
place file_delete a g = record g { deletes = g.deletes ++ (a ∷ []) }
place link_delete a g = record g { deletes = g.deletes ++ (a ∷ []) }
place dir_delete a g = record g { delete_dirs = g.delete_dirs ++ (a ∷ []) }
place file_copy a g = record g { file_writes = g.file_writes ++ (a ∷ []) }
place file_replace a g = record g { file_writes = g.file_writes ++ (a ∷ []) }
place link_create a g = record g { link_writes = g.link_writes ++ (a ∷ []) }
place link_replace a g = record g { link_writes = g.link_writes ++ (a ∷ []) }

-- `Tally(plan, a)` with the push that goes with it everywhere.
unfoldable pub schedule : SyncAction → Draft → Draft
unfolding tally
schedule a d = record d {
  plan = record d.plan { summary = tally a.op a.bytes d.plan.summary };
  groups = place a.op a d.groups;
}

pub record OneSide : Type 0 where
  pub is_dir : Bool
  pub kind : ReparseKind
  pub bytes : ℕ

abbrev pub make_action : SyncOp → WString → OneSide → SyncAction
make_action op rel side = record {
  op = op;
  relative_path = rel;
  is_directory = side.is_dir;
  link_kind = side.kind;
  bytes = side.bytes;
}

-- A link of a kind that cannot be planned.
abbrev pub is_unplannable : OneSide → Bool
is_unplannable side = not (is_supported_link side.kind) && not (is_plain side.kind)

-- The ancestors of a path: its part before each backslash, shortest first.
unfoldable pub ancestors_from : WString → WString → List WString
ancestors_from pre [] = []
ancestors_from pre (c ∷ s) =
    let rest = ancestors_from (pre ++ (c ∷ [])) s in if c == backslash then pre ∷ rest else rest

abbrev pub allow_extra : WString → Draft → Draft
allow_extra folded d = record d {
  plan = record d.plan { extra_folded_rels = d.plan.extra_folded_rels ++ (folded ∷ []) };
}

-- A real directory at the destination is cleared first.
unfoldable pub clear_dir : WString → OneSide → Draft → Draft
clear_dir rel dst d =
    if is_plain dst.kind && dst.is_dir then schedule (make_action dir_delete rel dst) d else d

module _ (w : Win) where
  unfoldable pub push_skip : WString → Bytes → Draft → Draft
  push_skip rel reason d = record d {
    plan = record d.plan {
      skipped = d.plan.skipped ++ ((to_utf8 w rel ++ (lit ": " ++ reason)) ∷ []);
    };
  }

  unfoldable pub append_missing_like : WString → OneSide → Bool → Draft → Draft
  append_missing_like rel src allow_dir d =
      if is_unplannable src
      then push_skip rel (lit "sorgente link non supportato") d
      else if not (is_plain src.kind)
      then schedule (make_action link_create rel src) d
      else if src.is_dir
      then (if not allow_dir
          then push_skip rel (lit "cartelle: solo eliminazione in questa direzione") d
          else schedule (make_action dir_create rel src) d)
      else schedule (make_action file_copy rel src) d

  -- The draft, and the ancestors that are scheduled.
  unfoldable pub append_extra_like :
      WString → OneSide → List WString → Bool → Draft → Draft × List WString
  append_extra_like rel dst dir_ancestors schedule_ancestors d =
      let d' = allow_extra (fold_for_compare w rel) d in
      let ancestors =
        if schedule_ancestors then dir_ancestors ++ ancestors_from [] rel else dir_ancestors in
      if is_unplannable dst
      then (push_skip rel (lit "destinazione link non supportato") d, dir_ancestors)
      else if not (is_plain dst.kind)
      then (schedule (make_action link_delete rel dst) d', ancestors)
      else if dst.is_dir
      then (schedule (make_action dir_delete rel dst) d', ancestors)
      else (schedule (make_action file_delete rel dst) d', ancestors)

  unfoldable pub append_mismatch_replace : WString → OneSide → OneSide → Draft → Draft
  append_mismatch_replace rel src dst d =
      if is_unplannable src
      then push_skip rel (lit "sorgente link non supportato") d
      else if is_unplannable dst
      then push_skip rel (lit "destinazione reparse non supportato") d
      else if not (is_plain src.kind)
      then schedule (make_action link_replace rel src) (clear_dir rel dst d)
      else if src.is_dir
      then schedule (make_action dir_create rel src) d
      else schedule (make_action file_replace rel src) (clear_dir rel dst d)

-- `IsClaimedBySource`: `dir` equals a row's path, or one lies below it.
unfoldable pub is_claimed_by_source : List WString → WString → Bool
is_claimed_by_source sorted dir =
    let prefix = dir ++ (backslash ∷ []) in
    head_is dir (lower_bound sorted dir) || head_starts_with prefix (lower_bound sorted prefix)
