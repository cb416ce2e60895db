-- ===== src/Snapshot/Laws.antt =====
-- The round trip of src/Filesystem/FileIndexSerializer.cpp.
use check_sync_files.Common.{◌%◌, u64_mod, ◌≡◌, refl, ap, sym, ◌∙◌, some, inr, arith}
use check_sync_files.Text.{WString}
use check_sync_files.Windows.{Win}
use check_sync_files.Map.{lookup, total}
use check_sync_files.Entry.{FileEntry}
use check_sync_files.Index.{BuildStats, FileIndex, new_index, index_key, get_hash, find}
use check_sync_files.Index.Laws.{file_weight, dir_weight, byte_weight, IsValid, new_index-IsValid}
use check_sync_files.Snapshot.{write_snapshot, read_snapshot}
use check_sync_files.Snapshot.RoundTrip.{restore, IsSavable, get_snapshot-write_snapshot}
use check_sync_files.Snapshot.Restored.{
  restore-case, restore-entries, restore-IsValid, digest_restored,
}

stats_eq : (a b : BuildStats) → a.files ≡ b.files → a.dirs ≡ b.dirs → a.bytes ≡ b.bytes → a ≡ b
stats_eq a b f d y = ground arith

module _ (w : Win) where
  -- The same entries, in the same order and under the same keys, the same counters and case policy;
  -- so every path leads to the same entry, and a path with an entry leads to the same digest.
  pub record IsCopyOf (idx loaded : FileIndex) : Type 0 where
    pub entries : loaded.entries ≡ idx.entries
    pub policy : loaded.case_sensitive ≡ idx.case_sensitive
    pub stats : loaded.stats ≡ idx.stats
    pub found : (rel : WString) → find w rel loaded ≡ find w rel idx
    pub digests :
        (rel : WString) (e : FileEntry)
        → find w rel idx ≡ some e
        → get_hash w rel loaded ≡ get_hash w rel idx

  restore-IsCopy :
      (idx : FileIndex)
      → IsValid w idx
      → IsCopyOf idx (restore w idx idx.entries (new_index idx.case_sensitive))
  unfolding find get_hash lookup
  restore-IsCopy idx v =
      let cs = idx.case_sensitive in
      let loaded = restore w idx idx.entries (new_index cs) in
      let same : loaded.entries ≡ idx.entries =
        restore-entries w idx cs idx.entries (new_index cs) refl v.filed v.distinct in
      let policy : loaded.case_sensitive ≡ cs = restore-case w idx idx.entries (new_index cs) in
      let valid : IsValid w loaded =
        restore-IsValid w idx cs idx.entries (new_index cs) v.filed (new_index-IsValid w cs) in
      record {
        entries = same;
        policy = policy;
        stats =
            stats_eq loaded.stats idx.stats
              (valid.files ∙ (ap (λ m. total file_weight m % u64_mod) same ∙ sym v.files))
              (valid.dirs ∙ (ap (λ m. total dir_weight m % u64_mod) same ∙ sym v.dirs))
              (valid.bytes ∙ (ap (λ m. total byte_weight m % u64_mod) same ∙ sym v.bytes));
        found = λ rel. rw (policy, same) refl;
        digests = λ rel e h. rw policy (
            digest_restored w idx (index_key w cs rel) cs idx.entries (new_index cs) e refl refl
              v.filed refl h);
      }

  -- A valid index whose texts UTF-8 can hold and whose numbers fit their fields (paths up to 2^24
  -- bytes, at most 2^31 entries), written by `WriteSnapshot`, is read back by `ReadSnapshot` with
  -- the root that was saved: the same entries, counters and case policy, every path leads to the
  -- same entry, and a path with an entry leads to the same digest.
  pub read_snapshot-write_snapshot :
      (idx : FileIndex) (root : WString)
      → IsValid w idx
      → IsSavable w idx root
      → (loaded : FileIndex) × (read_snapshot w (write_snapshot w idx root) ≡ inr (loaded, root))
        × IsCopyOf idx loaded
  unfolding read_snapshot
  read_snapshot-write_snapshot idx root v s = (
    restore w idx idx.entries (new_index idx.case_sensitive),
    rw (get_snapshot-write_snapshot w idx root s, read_snapshot),
    restore-IsCopy idx v,
  )
