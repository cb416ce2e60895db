-- ===== src/MatchTable/Laws.antt =====
-- What src/Comparison/MatchTable.h keeps true while its two workers insert.
use check_sync_files.Common.{
  ℕ, ◌%◌, ◌≡◌, refl, Bool, true, none, some, arith, Option-cases, inl, inr, u64_mod,
}
use check_sync_files.Text.{WString}
use check_sync_files.Text.Laws.{eqw_refl, eqw_iff}
use check_sync_files.Map.{Map, lookup, insert, erase, NodupKeys, total}
use check_sync_files.Map.Laws.{
  lookup-insert, lookup-erase, insert-NodupKeys, erase-NodupKeys, total-insert_new,
  total-insert_old, total-erase,
}
use check_sync_files.Entry.{FileEntry, dec64}
use check_sync_files.MatchTable.{
  Side, source, dest, Slot, inserted, matched, Table, new_table, may_proceed, store_slot,
  insert_slot, set_side_done, on_side,
}

-- What a slot counts for, in all and for its side.
abbrev pub one : Slot → ℕ
one slot = 1

abbrev pub from_source : Slot → ℕ
from_source slot = elim slot.side [ source ↦ 1 | dest ↦ 0 ]

abbrev pub from_dest : Slot → ℕ
from_dest slot = elim slot.side [ source ↦ 0 | dest ↦ 1 ]

-- One slot per key, and gauges that are those of the slots stored.
pub record IsExact (t : Table) : Type 0 where
  pub distinct : NodupKeys t.slots
  pub pending : t.pending ≡ total one t.slots % u64_mod
  pub of_source : t.pending_side.of_source ≡ total from_source t.slots % u64_mod
  pub of_dest : t.pending_side.of_dest ≡ total from_dest t.slots % u64_mod

module _ (key : WString) (e : FileEntry) (t : Table) (x : IsExact t) where
  store_slot-IsExact : (side : Side) → lookup key t.slots ≡ none → IsExact (store_slot key side e t)
  unfolding store_slot
  store_slot-IsExact source h = record {
    distinct = insert-NodupKeys key _ t.slots x.distinct;
    pending = ground (
      arith,
      total-insert_new one key (record { side = source; entry = e }) t.slots h,
      x.pending,
    );
    of_source = ground (
      arith,
      total-insert_new from_source key (record { side = source; entry = e }) t.slots h,
      x.of_source,
    );
    of_dest = ground (
      arith,
      total-insert_new from_dest key (record { side = source; entry = e }) t.slots h,
      x.of_dest,
    );
  }
  store_slot-IsExact dest h = record {
    distinct = insert-NodupKeys key _ t.slots x.distinct;
    pending =
        ground (
          arith,
          total-insert_new one key (record { side = dest; entry = e }) t.slots h,
          x.pending,
        );
    of_source = ground (
      arith,
      total-insert_new from_source key (record { side = dest; entry = e }) t.slots h,
      x.of_source,
    );
    of_dest = ground (
      arith,
      total-insert_new from_dest key (record { side = dest; entry = e }) t.slots h,
      x.of_dest,
    );
  }

  -- The counters after a replacement, and after a match.
  replace-IsExact :
      (old new : Slot)
      → from_source old ≡ from_source new
      → from_dest old ≡ from_dest new
      → lookup key t.slots ≡ some old
      → IsExact (record t { slots = insert key new t.slots })
  replace-IsExact old new s d h = record {
    distinct = insert-NodupKeys key new t.slots x.distinct;
    pending = ground (arith, total-insert_old one key new t.slots h, x.pending);
    of_source = ground (arith, total-insert_old from_source key new t.slots h, x.of_source);
    of_dest = ground (arith, total-insert_old from_dest key new t.slots h, x.of_dest);
  }

  match-IsExact :
      (side : Side) (o : FileEntry)
      → lookup key t.slots ≡ some (record { side = side; entry = o })
      → IsExact (record t {
        slots = erase key t.slots;
        pending = dec64 t.pending;
        pending_side = on_side side dec64 t.pending_side;
      })
  match-IsExact source o h = record {
    distinct = erase-NodupKeys key t.slots x.distinct;
    pending = ground (arith, total-erase one key t.slots h, x.pending);
    of_source = ground (arith, total-erase from_source key t.slots h, x.of_source);
    of_dest = ground (arith, total-erase from_dest key t.slots h, x.of_dest);
  }
  match-IsExact dest o h = record {
    distinct = erase-NodupKeys key t.slots x.distinct;
    pending = ground (arith, total-erase one key t.slots h, x.pending);
    of_source = ground (arith, total-erase from_source key t.slots h, x.of_source);
    of_dest = ground (arith, total-erase from_dest key t.slots h, x.of_dest);
  }

  found-IsExact :
      (stored side : Side) (o : FileEntry)
      → lookup key t.slots ≡ some (record { side = stored; entry = o })
      → IsExact (insert_slot key side e t).1
  unfolding insert_slot
  found-IsExact source source o h =
      rw (h, insert_slot) (replace-IsExact _ (record { side = source; entry = e }) refl refl h)
  found-IsExact dest dest o h =
      rw (h, insert_slot) (replace-IsExact _ (record { side = dest; entry = e }) refl refl h)
  found-IsExact source dest o h = rw (h, insert_slot) (match-IsExact source o h)
  found-IsExact dest source o h = rw (h, insert_slot) (match-IsExact dest o h)

  insert_slot-IsExact : (side : Side) → IsExact (insert_slot key side e t).1
  unfolding insert_slot
  insert_slot-IsExact side = elim (Option-cases (lookup key t.slots)) [
    | inl absent ↦ rw (absent, insert_slot) (store_slot-IsExact side absent)
    | inr (slot, there) ↦ found-IsExact slot.side side slot.entry there
  ]

-- The steps of the two workers, in any order: an insertion that is not parked, with the cancel flag
-- that it reads, or the end of a side.
pub data Reachable (high_water : ℕ) : Table → Type 0 where
  start : Reachable high_water (new_table high_water)
  insertion :
      (cancelled : Bool) (key : WString) (side : Side) (e : FileEntry) (t : Table)
      → Reachable high_water t
      → may_proceed cancelled side t ≡ true
      → Reachable high_water (insert_slot key side e t).1
  finished :
      (side : Side) (t : Table)
      → Reachable high_water t
      → Reachable high_water (set_side_done side t)

set_side_done-IsExact : (side : Side) (t : Table) → IsExact t → IsExact (set_side_done side t)
unfolding set_side_done
set_side_done-IsExact source t x = record {
  distinct = x.distinct;
  pending = x.pending;
  of_source = x.of_source;
  of_dest = x.of_dest;
}
set_side_done-IsExact dest t x = record {
  distinct = x.distinct;
  pending = x.pending;
  of_source = x.of_source;
  of_dest = x.of_dest;
}

-- However the two workers interleave, the table holds one slot per key, and its gauges are the
-- numbers of the slots stored, in all and of each side, modulo 2^64.
pub Reachable-IsExact : (high_water : ℕ) (t : Table) → Reachable high_water t → IsExact t
Reachable-IsExact hw t start = record {
  distinct = tt;
  pending = refl;
  of_source = refl;
  of_dest = refl;
}
Reachable-IsExact hw t (insertion cancelled key side e before r go) =
    insert_slot-IsExact key e before (Reachable-IsExact hw before r) side
Reachable-IsExact hw t (finished side before r) =
    set_side_done-IsExact side before (Reachable-IsExact hw before r)

abbrev pub other_side : Side → Side
other_side source = dest
other_side dest = source

stored : (key : WString) (v : Slot) (m : Map Slot) → lookup key (insert key v m) ≡ some v
stored key v m = ground (arith, lookup-insert key key v m, eqw_refl key)

erased :
    (key j : WString) (v : Slot) (m : Map Slot)
    → NodupKeys m
    → lookup key m ≡ none
    → lookup j (erase key (insert key v m)) ≡ lookup j m
erased key j v m d h = ground (
  arith,
  lookup-erase key j (insert key v m) (insert-NodupKeys key v m d),
  lookup-insert key j v m,
  eqw_iff key j,
)

insert_slot_absent :
    (key : WString) (side : Side) (e : FileEntry) (t : Table)
    → lookup key t.slots ≡ none
    → insert_slot key side e t ≡ (inserted, store_slot key side e t)
unfolding insert_slot
insert_slot_absent key side e t h = rw (h, insert_slot) refl

insert_slot_other :
    (key : WString) (side : Side) (e peer : FileEntry) (t : Table)
    → lookup key t.slots ≡ some (record { side = side; entry = peer })
    → insert_slot key (other_side side) e t ≡ (
      matched peer,
      record t {
        slots = erase key t.slots;
        pending = dec64 t.pending;
        pending_side = on_side side dec64 t.pending_side;
      },
    )
unfolding insert_slot
insert_slot_other key source e peer t h = rw (h, insert_slot) refl
insert_slot_other key dest e peer t h = rw (h, insert_slot) refl

-- Two entries with one key that is not stored, of the two sides and in either order: the second is
-- given the first as its peer, and every key has afterwards what it had before.
pub insert_slot-meets :
    (key : WString) (first : Side) (e1 e2 : FileEntry) (t : Table) (j : WString)
    → NodupKeys t.slots
    → lookup key t.slots ≡ none
    → let (o1, t1) = insert_slot key first e1 t in
      let (o2, t2) = insert_slot key (other_side first) e2 t1 in
      (o1 ≡ inserted) × (o2 ≡ matched e1) × (lookup j t2.slots ≡ lookup j t.slots)
unfolding store_slot
insert_slot-meets key first e1 e2 t j d h =
    let v : Slot = record { side = first; entry = e1 } in
    let t1 = store_slot key first e1 t in
    rw (insert_slot_absent key first e1 t h) (
      rw (insert_slot_other key first e2 e1 t1 (stored key v t.slots))
        (refl, refl, erased key j v t.slots d h))
