-- ===== src/Reparse.antt =====
-- src/Filesystem/ReparsePoint.cpp: the forms of a link target for comparison and for writing.
pub mod Payload
use check_sync_files.Common.{suc, [], ◌∷◌, ◌++◌, if◌then◌else◌, length, drop}
use check_sync_files.Text.{WString, backslash, empty, lit}
use check_sync_files.Windows.{Win}
use check_sync_files.Path.{normalize_root, fold_for_compare, within}

module _ (w : Win) where
  -- The part of `target` below `root`, empty when it lies outside. (`substr` past the end throws;
  -- that needs a folding that changes lengths.)
  unfoldable pub split_inside_root : WString → WString → WString
  split_inside_root target root =
      let n_root = normalize_root root in
      let n_target = normalize_root target in
      if empty n_root
      then []
      else if empty n_target
      then []
      else if within (fold_for_compare w n_root) (fold_for_compare w n_target)
      then drop (suc (length n_root)) n_target
      else []

  unfoldable pub normalize_link_target_for_compare : WString → WString → WString
  normalize_link_target_for_compare target own_root =
      let rel = split_inside_root target own_root in
      if empty rel then target else lit "<root>" ++ (backslash ∷ rel)

  unfoldable pub rebase_link_target_for_write : WString → WString → WString → WString
  rebase_link_target_for_write target from_root to_root =
      let rel = split_inside_root target from_root in
      let n_to = normalize_root to_root in
      if empty rel then target else if empty n_to then target else n_to ++ (backslash ∷ rel)
