-- ===== src/MatchTable.antt =====
-- src/Comparison/MatchTable.h: the table in which the two workers of the concurrent comparison meet.
-- Every key belongs to one shard, so the shards together are one map; an operation is one step, as
-- the lock of its shard makes it.
pub mod Laws
use check_sync_files.Common.{
  ℕ, Bool, true, false, ◌||◌, Option, none, some, List, [], ◌∷◌, ltb, leb, if◌then◌else◌,
}
use check_sync_files.Text.{WString}
use check_sync_files.Map.{Map, lookup, insert, erase}
use check_sync_files.Entry.{FileEntry, inc64, dec64}

-- The numbers 0 and 1 of the source and of the destination.
pub data Side : Type 0 where
  source dest : Side

abbrev pub same_side : Side → Side → Bool
same_side source source = true
same_side dest dest = true
same_side _ _ = false

pub record Slot : Type 0 where
  pub side : Side
  pub entry : FileEntry

-- `matched` carries the peer that is filled in.
pub data Outcome : Type 0 where
  inserted replaced : Outcome
  matched : FileEntry → Outcome

-- One value for each side.
pub record PerSide : Type 0 where
  pub of_source : ℕ
  pub of_dest : ℕ

abbrev pub on_side : Side → (ℕ → ℕ) → PerSide → PerSide
on_side source f p = record p { of_source = f p.of_source }
on_side dest f p = record p { of_dest = f p.of_dest }

abbrev pub at_side : Side → PerSide → ℕ
at_side source p = p.of_source
at_side dest p = p.of_dest

pub record Table : Type 0 where
  pub slots : Map Slot
  pub high_water : ℕ
  pub pending : ℕ
  pub pending_side : PerSide
  pub peak_side : PerSide
  pub peak_total : ℕ
  pub source_done : Bool
  pub dest_done : Bool

abbrev pub new_table : ℕ → Table
new_table high_water = record {
  slots = [];
  high_water = high_water;
  pending = 0;
  pending_side = record { of_source = 0; of_dest = 0 };
  peak_side = record { of_source = 0; of_dest = 0 };
  peak_total = 0;
  source_done = false;
  dest_done = false;
}

-- `AtomicMax`.
unfoldable pub atomic_max : ℕ → ℕ → ℕ
atomic_max target v = if ltb target v then v else target

-- Whether `insert` gets past the throttle, with the value of the cancel flag: only the source parks.
unfoldable pub may_proceed : Bool → Side → Table → Bool
may_proceed cancelled dest t = true
may_proceed cancelled source t =
    if leb t.high_water t.pending
    then ltb t.pending t.high_water || (t.dest_done || cancelled)
    else true

-- A key that is not stored.
unfoldable pub store_slot : WString → Side → FileEntry → Table → Table
unfolding atomic_max
store_slot key side e t =
    let pending = inc64 t.pending in
    let pending_side = on_side side inc64 t.pending_side in
    record t {
      slots = insert key (record { side = side; entry = e }) t.slots;
      pending = pending;
      pending_side = pending_side;
      peak_total = atomic_max t.peak_total pending;
      peak_side = on_side side (λ peak. atomic_max peak (at_side side pending_side)) t.peak_side;
    }

-- The part of `insert` behind the throttle.
unfoldable pub insert_slot : WString → Side → FileEntry → Table → Outcome × Table
unfolding store_slot
insert_slot key side e t = elim (lookup key t.slots) [
  | none ↦ (inserted, store_slot key side e t)
  | some slot ↦
      if same_side slot.side side
      then (
        replaced,
        record t { slots = insert key (record { side = slot.side; entry = e }) t.slots },
      )
      else (
        matched slot.entry,
        record t {
          slots = erase key t.slots;
          pending = dec64 t.pending;
          pending_side = on_side slot.side dec64 t.pending_side;
        },
      )
]

-- `insert`: nothing while the caller is parked.
unfoldable pub insert_entry : Bool → WString → Side → FileEntry → Table → Option (Outcome × Table)
unfolding may_proceed insert_slot
insert_entry cancelled key side e t =
    if may_proceed cancelled side t then some (insert_slot key side e t) else none

unfoldable pub set_side_done : Side → Table → Table
set_side_done source t = record t { source_done = true }
set_side_done dest t = record t { dest_done = true }

-- `remaining`.
unfoldable pub remaining : Map Slot → List (Side × FileEntry)
remaining [] = []
remaining ((k, slot) ∷ slots) = (slot.side, slot.entry) ∷ remaining slots
