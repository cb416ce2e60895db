-- ===== src/Snapshot.antt =====
-- src/Filesystem/FileIndexSerializer.cpp: the bytes of a saved index, and how they are read. The
-- file itself (opening it, a full disk) is left out: the writer gives the bytes, and the reader
-- takes them.
pub mod Stream
pub mod RoundTrip
pub mod Restored
pub mod Laws
use check_sync_files.Common.{
  ◌&&◌, ℕ, zero, suc, ◌≡◌, Bool, true, false, Option, none, some, List, [], ◌∷◌, ◌++◌, ◌⊎◌, inl,
  inr, ltb, leb, ◌==◌, not, ◌||◌, if◌then◌else◌, length,
}
use check_sync_files.Text.{WString, Bytes}
use check_sync_files.Windows.{Win}
use check_sync_files.Path.{to_utf8, from_utf8}
use check_sync_files.Entry.{
  ReparseKind, plain, symlink_file, symlink_dir, junction, other, unknown, kind_index, FileEntry,
}
use check_sync_files.Index.{FileIndex, new_index, add_entry, set_hash, get_hash}
use check_sync_files.Snapshot.Stream.{
  Reader, put_int, put_str, get_int, get_str, get_bytes, Parse, parsed, ◌>>=◌, ◌>>◌, refused,
  require,
}

-- "BVSI", the version that is written, and the limit on the number of entries.
abbrev pub magic : ℕ
magic = 1230198338

abbrev pub version : ℕ
version = 2

abbrev pub max_entries : ℕ
max_entries = 2147483648

abbrev pub flag : Bool → ℕ
flag b = if b then 1 else 0

-- `static_cast<ReparseKind>` below the last kind, and that kind from there on.
abbrev pub kind_of : ℕ → ReparseKind
kind_of n =
    if n == 0
    then plain
    else if n == 1
    then symlink_file
    else if n == 2
    then symlink_dir
    else if n == 3
    then junction
    else if n == 4
    then other
    else unknown

-- The messages of `ReadSnapshot`, in the order of its tests.
pub data SnapshotError : Type 0 where
  not_a_snapshot unsupported_version bad_root bad_stats bad_path bad_entry bad_hash unterminated :
      SnapshotError

unfoldable pub put_digest : Option Bytes → Bytes
put_digest none = []
put_digest (some digest) = digest

abbrev pub is_some : Option Bytes → Bool
is_some none = false
is_some (some digest) = true

module _ (w : Win) where
  unfoldable pub put_entry : FileIndex → FileEntry → Bytes
  unfolding put_digest
  put_entry idx e =
      let digest = get_hash w e.relative_path idx in
      put_str (to_utf8 w e.relative_path)
      ++ (put_int 8 e.size
          ++ (put_int 8 e.last_write_time
              ++ (put_int 4 e.attributes
                  ++ (put_int 8 e.file_id
                      ++ (put_int 1 (flag e.is_directory)
                          ++ (put_int 1 (flag (is_some digest))
                              ++ (put_int 1 (kind_index e.reparse_kind)
                                  ++ (put_str (to_utf8 w e.link_target) ++ put_digest digest))))))))

  unfoldable pub put_entries : FileIndex → List (WString × FileEntry) → Bytes
  put_entries idx [] = []
  put_entries idx ((k, e) ∷ entries) = put_entry idx e ++ put_entries idx entries

  -- `WriteSnapshot`.
  unfoldable pub write_snapshot : FileIndex → WString → Bytes
  write_snapshot idx source_root =
      put_int 4 magic
      ++ (put_int 4 version
          ++ (put_int 1 (flag idx.case_sensitive)
              ++ (put_str (to_utf8 w source_root)
                  ++ (put_int 8 idx.stats.files
                      ++ (put_int 8 idx.stats.dirs
                          ++ (put_int 8 idx.stats.bytes
                              ++ (put_int 8 (length idx.entries)
                                  ++ put_entries idx idx.entries)))))))

  -- The kind and the target, which version 1 does not have.
  unfoldable pub get_link : ℕ → Parse SnapshotError (ReparseKind × WString)
  get_link v =
      if leb 2 v
      then (do
        kind ← get_int 1
        target ← get_str bad_entry
        parsed (kind_of kind, from_utf8 w target))
      else parsed (plain, [])

  unfoldable pub get_digest : Bool → WString → FileIndex → Parse SnapshotError FileIndex
  get_digest has_hash path loaded =
      if has_hash
      then (do digest ← get_bytes 32 bad_hash; parsed (set_hash w path digest loaded))
      else parsed loaded

  unfoldable pub get_entry : ℕ → FileIndex → Parse SnapshotError FileIndex
  get_entry v loaded = do
    path ← get_str bad_path
    size ← get_int 8
    mtime ← get_int 8
    attributes ← get_int 4
    id ← get_int 8
    is_dir ← get_int 1
    has_hash ← get_int 1
    link ← get_link v
    require bad_entry
    get_digest (not (has_hash == 0)) (from_utf8 w path) (
        add_entry w
          (record {
            relative_path = from_utf8 w path;
            size = size;
            last_write_time = mtime;
            attributes = attributes;
            file_id = id;
            is_directory = not (is_dir == 0);
            reparse_kind = link.0;
            link_target = link.1;
          })
          loaded)

  unfoldable pub get_entries : ℕ → ℕ → FileIndex → Parse SnapshotError FileIndex
  get_entries v zero loaded = parsed loaded
  get_entries v (suc n) loaded = do loaded' ← get_entry v loaded; get_entries v n loaded'

  -- The header after the magic number: the case policy, the root, and the number of entries. The
  -- saved counters are read and dropped.
  unfoldable pub get_body : ℕ → Parse SnapshotError (FileIndex × WString)
  get_body v = do
    case_sensitive ← get_int 1
    root ← get_str bad_root
    files ← get_int 8
    dirs ← get_int 8
    bytes ← get_int 8
    count ← get_int 8
    require bad_stats
    loaded ←
        if ltb max_entries count
        then refused bad_stats
        else get_entries v count (new_index (not (case_sensitive == 0)))
    require unterminated
    parsed (loaded, from_utf8 w root)

  unfoldable pub get_version : Parse SnapshotError (FileIndex × WString)
  get_version = do
    v ← get_int 4
    if not (v == 1) && not (v == version) then refused unsupported_version else get_body v

  unfoldable pub get_snapshot : Parse SnapshotError (FileIndex × WString)
  get_snapshot = do m ← get_int 4; if m == magic then get_version else refused not_a_snapshot

  -- `ReadSnapshot`: the index and the root, or the message alone (a root that was read before the error
  -- is dropped).
  unfoldable pub read_snapshot : Bytes → SnapshotError ⊎ (FileIndex × WString)
  read_snapshot bytes = elim (get_snapshot (record { left = bytes; valid = true })) [
    | inl err ↦ inl err
    | inr (result, r) ↦ inr result
  ]
