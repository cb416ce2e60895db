-- ===== src/Tests/Table.antt =====
-- The theorems on the match table, at concrete data.
use check_sync_files.Common.{◌≡◌, refl, false}
use check_sync_files.Text.{lit}
use check_sync_files.Map.{lookup}
use check_sync_files.Entry.{plain}
use check_sync_files.MatchTable.{
  source, dest, inserted, matched, Table, new_table, may_proceed, insert_slot, set_side_done,
}
use check_sync_files.MatchTable.Laws.{
  Reachable, start, insertion, finished, IsExact, Reachable-IsExact, other_side, insert_slot-meets,
}
use check_sync_files.Tests.Data.{entry}

-- The source inserts a file, and ends.
abbrev one_side : Table
one_side =
    set_side_done source (insert_slot (lit "A") source (entry (lit "a") 5 plain) (new_table 8)).1

one_side-Reachable : Reachable 8 one_side
unfolding may_proceed
one_side-Reachable =
    finished source _
      (insertion false (lit "A") source (entry (lit "a") 5 plain) (new_table 8) start refl)

Reachable-IsExact_example : IsExact one_side
Reachable-IsExact_example = Reachable-IsExact 8 one_side one_side-Reachable

insert_slot-meets_example :
    let (o1, t1) = insert_slot (lit "A") dest (entry (lit "A") 6 plain) (new_table 8) in
    let (o2, t2) = insert_slot (lit "A") (other_side dest) (entry (lit "a") 5 plain) t1 in
    (o1 ≡ inserted)
    × (o2 ≡ matched (entry (lit "A") 6 plain))
    × (lookup (lit "A") t2.slots ≡ lookup (lit "A") (new_table 8).slots)
unfolding lookup
insert_slot-meets_example =
    insert_slot-meets (lit "A") dest (entry (lit "A") 6 plain) (entry (lit "a") 5 plain)
      (new_table 8) (lit "A") tt refl
