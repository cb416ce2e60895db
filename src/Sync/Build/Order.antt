-- ===== src/Sync/Build/Order.antt =====
-- The order of the actions of a plan (src/Sync/SyncPlan.cpp).
use check_sync_files.Common.{
  ℕ, ◌≤◌, ◌<◌, ◌≡◌, ◌≢◌, All-of, refl, Bool, List, [], ◌∷◌, ◌++◌, arith, All, All-map, All-append,
}
use check_sync_files.Text.{WString}
use check_sync_files.Windows.{Win}
use check_sync_files.Sorting.{
  Pairwise, Pairwise-append, sort_by-All, sort_smaller, sort_larger, smaller, larger,
}
use check_sync_files.Result.{ResultSet}
use check_sync_files.Sync.Plan.{SyncAction, Groups}
use check_sync_files.Sync.Build.{path_size, join_groups, sort_groups, build_sync_plan}
use check_sync_files.Sync.Build.Fill.{InGroups, rank, build_draft-Filled}

-- An earlier and a later action: the groups come in execution order, directories are created
-- shortest path first and deleted longest path first.
abbrev pub InOrder : SyncAction → SyncAction → Type 0
InOrder a b =
    (rank a.op ≤ rank b.op)
    × (rank a.op ≡ 0 → rank b.op ≡ 0 → path_size a ≤ path_size b)
    × (rank a.op ≡ 2 → rank b.op ≡ 2 → path_size b ≤ path_size a)

abbrev pub Ranked : ℕ → SyncAction → Type 0
Ranked k a = rank a.op ≡ k

module _ {A : Type 0} (Q : A → Type 0) (R S : A → A → Type 0) where
  -- A relation from a weaker one, under a predicate of both sides.
  strengthen :
      ((x y : A) → Q x → Q y → R x y → S x y)
      → (xs : List A) → All Q xs
      → Pairwise R xs
      → Pairwise S xs
  strengthen f [] q r = tt
  strengthen f (x ∷ xs) q r = (row x q.0 xs q.1 r.0, strengthen f xs q.1 r.1)
    where
      row : (x : A) → Q x → (ys : List A) → All Q ys → All (R x) ys → All (S x) ys
      row x qx [] q r = tt
      row x qx (y ∷ ys) q r = (f x y qx q.0 r.0, row x qx ys q.1 r.1)

  All-Pairwise : ((x y : A) → Q x → Q y → S x y) → (xs : List A) → All Q xs → Pairwise S xs
  All-Pairwise f [] q = tt
  All-Pairwise f (x ∷ xs) q = (All-map Q (S x) xs (λ y qy. f x y q.0 qy) q.1, All-Pairwise f xs q.1)

abbrev Above : ℕ → SyncAction → Type 0
Above k a = k < rank a.op

unordered : (k : ℕ) (xs : List SyncAction) → k ≢ 0 → k ≢ 2 → All (Ranked k) xs → Pairwise InOrder xs
unordered k xs n0 n2 h =
    All-Pairwise (Ranked k) InOrder InOrder
      (λ a b ra rb. (omega arith, λ p q. absurd (omega arith), λ p q. absurd (omega arith))) xs h

raise : (i j : ℕ) (xs : List SyncAction) → i < j → All (Ranked j) xs → All (Above i) xs
raise i j xs lt h = All-map (Ranked j) (Above i) xs (λ a r. omega arith) h

-- A group in front of actions of later groups.
prepend :
    (k : ℕ) (xs rest : List SyncAction)
    → All (Ranked k) xs
    → Pairwise InOrder xs
    → All (Above k) rest
    → Pairwise InOrder rest
    → Pairwise InOrder (xs ++ rest)
prepend k xs rest h px above pr = Pairwise-append InOrder xs rest px pr (
    All-map (Ranked k) (λ a. All (InOrder a) rest) xs
      (λ a ra.
        All-map (Above k) (InOrder a) rest
          (λ b rb. (omega arith, λ p q. absurd (omega arith), λ p q. absurd (omega arith))) above)
      h)

join_groups-InOrder :
    (g : Groups) → InGroups Ranked g → Pairwise InOrder (join_groups (sort_groups g))
unfolding join_groups sort_groups
join_groups-InOrder g h =
    let dirs = sort_by-All (smaller path_size) (Ranked 0) g.create_dirs h.create_dirs in
    let cleared = sort_by-All (larger path_size) (Ranked 2) g.delete_dirs h.delete_dirs in
    prepend 0 _ _ dirs
      (strengthen (Ranked 0) (λ a b. path_size a ≤ path_size b) InOrder
        (λ a b ra rb le. (omega arith, λ p q. le, λ p q. absurd (omega arith))) _ dirs
        (sort_smaller path_size g.create_dirs))
      (All-append (Above 0) _ _ (raise 0 1 _ (omega arith) h.deletes) (
        All-append (Above 0) _ _ (raise 0 2 _ (omega arith) cleared) (
          All-append (Above 0) _ _ (raise 0 3 _ (omega arith) h.file_writes)
            (raise 0 4 _ (omega arith) h.link_writes))))
      (prepend 1 _ _ h.deletes (unordered 1 _ (omega arith) (omega arith) h.deletes)
        (All-append (Above 1) _ _ (raise 1 2 _ (omega arith) cleared) (
          All-append (Above 1) _ _ (raise 1 3 _ (omega arith) h.file_writes)
            (raise 1 4 _ (omega arith) h.link_writes)))
        (prepend 2 _ _ cleared
          (strengthen (Ranked 2) (λ a b. path_size b ≤ path_size a) InOrder
            (λ a b ra rb le. (omega arith, λ p q. absurd (omega arith), λ p q. le)) _ cleared
            (sort_larger path_size g.delete_dirs))
          (All-append (Above 2) _ _ (raise 2 3 _ (omega arith) h.file_writes)
            (raise 2 4 _ (omega arith) h.link_writes))
          (prepend 3 _ _ h.file_writes (unordered 3 _ (omega arith) (omega arith) h.file_writes)
            (raise 3 4 _ (omega arith) h.link_writes)
            (unordered 4 _ (omega arith) (omega arith) h.link_writes))))

-- Every plan lists its actions in execution order: directory creations (shortest path first), then
-- deletions of files and links, deletions of directories (longest path first), writes of files, and
-- writes of links.
pub build_sync_plan-InOrder :
    (w : Win) (results : ResultSet) (source_root dest_root : WString) (source_is_a : Bool)
    → Pairwise InOrder (build_sync_plan w results source_root dest_root source_is_a).actions
unfolding build_sync_plan
build_sync_plan-InOrder w results source_root dest_root source_is_a =
    join_groups-InOrder _
      (build_draft-Filled Ranked w results.problems source_root dest_root source_is_a
        (All-of _ _ (λ r accepted op side _. refl)) (All-of _ _ (λ dir free. refl))).groups
