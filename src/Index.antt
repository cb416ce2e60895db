-- ===== src/Index.antt =====
-- src/Filesystem/FileIndex.cpp: the in-memory index of one tree, keyed by folded path.
pub mod Laws
use check_sync_files.Common.{
  ℕ, Bool, true, false, Option, none, some, List, [], ◌∷◌, ◌++◌, if◌then◌else◌,
}
use check_sync_files.Text.{WString, Bytes}
use check_sync_files.Windows.{Win}
use check_sync_files.Path.{fold_for_compare}
use check_sync_files.Map.{Map, lookup, insert, erase}
use check_sync_files.Entry.{FileEntry, inc64, dec64, add64, sub64}

pub record BuildStats : Type 0 where
  pub files : ℕ
  pub dirs : ℕ
  pub bytes : ℕ

pub record FileIndex : Type 0 where
  pub entries : Map FileEntry
  pub hashes : Map Bytes
  pub stats : BuildStats
  pub case_sensitive : Bool
  pub collision_count : ℕ

abbrev pub no_stats : BuildStats
no_stats = record { files = 0; dirs = 0; bytes = 0 }

abbrev pub new_index : Bool → FileIndex
new_index case_sensitive = record {
  entries = [];
  hashes = [];
  stats = no_stats;
  case_sensitive = case_sensitive;
  collision_count = 0;
}

unfoldable pub index_key : Win → Bool → WString → WString
index_key w case_sensitive rel = if case_sensitive then rel else fold_for_compare w rel

-- The two updates of `stats_` in `addEntry`: for the entry that is replaced, and for the new one.
unfoldable pub stats_remove : FileEntry → BuildStats → BuildStats
stats_remove old st =
    if old.is_directory
    then record st { dirs = dec64 st.dirs }
    else record st { files = dec64 st.files; bytes = sub64 st.bytes old.size }

unfoldable pub stats_add : FileEntry → BuildStats → BuildStats
stats_add e st =
    if e.is_directory
    then record st { dirs = inc64 st.dirs }
    else record st { files = inc64 st.files; bytes = add64 st.bytes e.size }

module _ (w : Win) where
  -- Last wins: the newer entry replaces an older one of the same folded key.
  unfoldable pub add_entry : FileEntry → FileIndex → FileIndex
  unfolding stats_remove stats_add
  add_entry e idx =
      let k = index_key w idx.case_sensitive e.relative_path in
      elim (lookup k idx.entries) [
        | none ↦ record idx { entries = insert k e idx.entries; stats = stats_add e idx.stats }
        | some old ↦ record idx {
          entries = insert k e idx.entries;
          collision_count = inc64 idx.collision_count;
          stats = stats_add e (stats_remove old idx.stats);
        }
      ]

  unfoldable pub find : WString → FileIndex → Option FileEntry
  find rel idx = lookup (index_key w idx.case_sensitive rel) idx.entries

  -- The entry that is removed, and the index after it. `stats_` is left alone.
  unfoldable pub try_erase : WString → FileIndex → Option FileEntry × FileIndex
  try_erase rel idx =
      let k = index_key w idx.case_sensitive rel in
      elim (lookup k idx.entries) [
        | none ↦ (none, idx)
        | some e ↦ (some e, record idx { entries = erase k idx.entries })
      ]

  unfoldable pub set_hash : WString → Bytes → FileIndex → FileIndex
  set_hash rel digest idx = record idx {
    hashes = insert (index_key w idx.case_sensitive rel) digest idx.hashes;
  }

  unfoldable pub get_hash : WString → FileIndex → Option Bytes
  get_hash rel idx = lookup (index_key w idx.case_sensitive rel) idx.hashes

  -- What the enumerator hands to `build`: entries, each with the value of the cancel flag that the
  -- callback reads, up to the end of the enumeration. A callback that returns false stops it.
  unfoldable pub build_loop : List (FileEntry × Bool) → FileIndex → FileIndex
  build_loop [] idx = idx
  build_loop ((e, cancelled) ∷ events) idx =
      let rest = build_loop events (add_entry e idx) in if cancelled then idx else rest

  -- `build` clears the maps and the counters, keeps the case policy, and enumerates.
  unfoldable pub build : List (FileEntry × Bool) → FileIndex → FileIndex
  unfolding build_loop
  build events idx = build_loop events (new_index idx.case_sensitive)
