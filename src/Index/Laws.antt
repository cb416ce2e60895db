-- ===== src/Index/Laws.antt =====
-- What src/Filesystem/FileIndex.cpp keeps true of an index, and how lookups see its operations.
use check_sync_files.Common.{
  ℕ, ◌%◌, ◌<◌, ◌≡◌, refl, Bool, true, false, none, some, List, [], ◌∷◌, if◌then◌else◌, arith, All,
  Option-cases, inl, inr, u64_mod,
}
use check_sync_files.Text.{WString, eqw}
use check_sync_files.Text.Laws.{eqw_iff}
use check_sync_files.Windows.{Win}
use check_sync_files.Map.{lookup, insert, NodupKeys, total}
use check_sync_files.Map.Laws.{
  lookup-insert, lookup-erase, insert-NodupKeys, erase-NodupKeys, insert-All, lookup-All,
  total-insert_new, total-insert_old,
}
use check_sync_files.Entry.{FileEntry}
use check_sync_files.Index.{
  FileIndex, new_index, index_key, add_entry, find, try_erase, build_loop, build,
}

-- What an entry adds to each counter.
abbrev pub file_weight : FileEntry → ℕ
file_weight e = if e.is_directory then 0 else 1

abbrev pub dir_weight : FileEntry → ℕ
dir_weight e = if e.is_directory then 1 else 0

abbrev pub byte_weight : FileEntry → ℕ
byte_weight e = if e.is_directory then 0 else e.size

module _ (w : Win) where
  -- Each entry stands under the key of its own path, and its size fits `uint64_t`.
  abbrev pub IsFiled : Bool → WString × FileEntry → Type 0
  IsFiled cs (k, e) = (k ≡ index_key w cs e.relative_path) × (e.size < u64_mod)

  -- One entry per key, and counters that are those of the entries held.
  pub record IsValid (idx : FileIndex) : Type 0 where
    pub filed : All (IsFiled idx.case_sensitive) idx.entries
    pub distinct : NodupKeys idx.entries
    pub files : idx.stats.files ≡ total file_weight idx.entries % u64_mod
    pub dirs : idx.stats.dirs ≡ total dir_weight idx.entries % u64_mod
    pub bytes : idx.stats.bytes ≡ total byte_weight idx.entries % u64_mod

  pub new_index-IsValid : (cs : Bool) → IsValid (new_index cs)
  new_index-IsValid cs = record {
    filed = tt;
    distinct = tt;
    files = refl;
    dirs = refl;
    bytes = refl;
  }

  -- The counters after an entry at a new key, and at the key of an older entry.
  module _ (e : FileEntry) (idx : FileIndex) (v : IsValid idx) (fits : e.size < u64_mod) where
    abbrev entry_key : WString
    entry_key = index_key w idx.case_sensitive e.relative_path

    add_entry-IsValid_new : lookup entry_key idx.entries ≡ none → IsValid (add_entry w e idx)
    unfolding add_entry
    add_entry-IsValid_new h =
        rw (h, add_entry)
          record {
            filed =
                insert-All (IsFiled idx.case_sensitive) entry_key e idx.entries (refl, fits)
                  v.filed;
            distinct = insert-NodupKeys entry_key e idx.entries v.distinct;
            files = ground (arith, total-insert_new file_weight entry_key e idx.entries h, v.files);
            dirs = ground (arith, total-insert_new dir_weight entry_key e idx.entries h, v.dirs);
            bytes = ground (arith, total-insert_new byte_weight entry_key e idx.entries h, v.bytes);
          }

    add_entry-IsValid_old :
        (old : FileEntry) → lookup entry_key idx.entries ≡ some old → IsValid (add_entry w e idx)
    unfolding add_entry
    add_entry-IsValid_old old h =
        let small = (lookup-All (IsFiled idx.case_sensitive) entry_key idx.entries v.filed h).1 in
        rw (h, add_entry)
          record {
            filed =
                insert-All (IsFiled idx.case_sensitive) entry_key e idx.entries (refl, fits)
                  v.filed;
            distinct = insert-NodupKeys entry_key e idx.entries v.distinct;
            files = ground (arith, total-insert_old file_weight entry_key e idx.entries h, v.files);
            dirs = ground (arith, total-insert_old dir_weight entry_key e idx.entries h, v.dirs);
            bytes =
                ground
                  (arith, total-insert_old byte_weight entry_key e idx.entries h, v.bytes, small);
          }

    -- Adding an entry of a size below 2^64 keeps a valid index valid: one entry per key, and exact counters.
    pub add_entry-IsValid : IsValid (add_entry w e idx)
    add_entry-IsValid = elim (Option-cases (lookup entry_key idx.entries)) [
      | inl absent ↦ add_entry-IsValid_new absent
      | inr (old, there) ↦ add_entry-IsValid_old old there
    ]

  add_entry-entries :
      (e : FileEntry) (idx : FileIndex)
      → ((add_entry w e idx).entries
          ≡ insert (index_key w idx.case_sensitive e.relative_path) e idx.entries)
        × ((add_entry w e idx).case_sensitive ≡ idx.case_sensitive)
  unfolding add_entry
  add_entry-entries e idx = ground arith

  -- Last wins: after an insertion the paths of its key lead to the new entry, all others to what
  -- they led to before.
  pub find-add_entry :
      (e : FileEntry) (rel : WString) (idx : FileIndex)
      → find w rel (add_entry w e idx) ≡ (
          if eqw
            (index_key w idx.case_sensitive e.relative_path)
            (index_key w idx.case_sensitive rel)
          then some e
          else find w rel idx)
  unfolding find
  find-add_entry e rel idx =
      rw ((add_entry-entries e idx).1, (add_entry-entries e idx).0)
        (lookup-insert (index_key w idx.case_sensitive e.relative_path)
          (index_key w idx.case_sensitive rel) e idx.entries)

  -- With distinct keys `tryErase` returns what `find` finds; afterwards the paths of that key are absent and all others
  -- lead to what they led to before. The keys stay distinct, and the counters and the case policy are
  -- left alone.
  pub try_erase_lem :
      (rel other : WString) (idx : FileIndex)
      → NodupKeys idx.entries
      → let (out, idx') = try_erase w rel idx in
        (out ≡ find w rel idx)
        × (find w other idx' ≡ (
            if eqw (index_key w idx.case_sensitive rel) (index_key w idx.case_sensitive other)
            then none
            else find w other idx))
        × NodupKeys idx'.entries
        × (idx'.stats ≡ idx.stats)
        × (idx'.case_sensitive ≡ idx.case_sensitive)
  unfolding try_erase find
  try_erase_lem rel other idx v =
      let k = index_key w idx.case_sensitive rel in
      let j = index_key w idx.case_sensitive other in
      elim (Option-cases (lookup k idx.entries)) [
        | inl absent ↦ rw (absent, try_erase) (refl, ground (arith, eqw_iff k j), v, refl, refl)
        | inr (e, there) ↦
            rw (there, try_erase)
              (refl, lookup-erase k j idx.entries v, erase-NodupKeys k idx.entries v, refl, refl)
      ]

  build_loop-IsValid :
      (events : List (FileEntry × Bool)) (idx : FileIndex)
      → All (λ ev. ev.0.size < u64_mod) events
      → IsValid idx
      → IsValid (build_loop w events idx)
  unfolding build_loop
  build_loop-IsValid [] idx s v = v
  build_loop-IsValid ((e, true) ∷ events) idx s v = v
  build_loop-IsValid ((e, false) ∷ events) idx s v =
      build_loop-IsValid events (add_entry w e idx) s.1 (add_entry-IsValid e idx v s.0)

  -- Whatever was enumerated, with sizes below 2^64, and wherever it was cancelled, the index that `build` leaves is valid.
  pub build-IsValid :
      (events : List (FileEntry × Bool)) (idx : FileIndex)
      → All (λ ev. ev.0.size < u64_mod) events
      → IsValid (build w events idx)
  unfolding build
  build-IsValid events idx s =
      build_loop-IsValid events (new_index idx.case_sensitive) s
        (new_index-IsValid idx.case_sensitive)
