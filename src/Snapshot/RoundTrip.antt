-- ===== src/Snapshot/RoundTrip.antt =====
-- An index that src/Filesystem/FileIndexSerializer.cpp saves, and what it reads back.
use mathlib.Core.List.{append_assoc}
use check_sync_files.Common.{
  ltb, ℕ, ◌≤◌, ◌<◌, ◌≡◌, refl, ◌∙◌, Bool, true, false, not, ◌==◌, Option, none, some, List, [], ◌∷◌,
  ◌++◌, inr, All, arith, length,
}
use check_sync_files.Text.{WString, Bytes}
use check_sync_files.Windows.{Win}
use check_sync_files.Path.{to_utf8, from_utf8}
use check_sync_files.Entry.{
  ReparseKind, plain, symlink_file, symlink_dir, junction, other, unknown, kind_index, FileEntry,
}
use check_sync_files.Index.{FileIndex, new_index, add_entry, set_hash, get_hash}
use check_sync_files.Snapshot.{
  magic, version, max_entries, flag, kind_of, put_digest, is_some, put_entry, put_entries,
  write_snapshot, get_link, get_digest, get_entry, get_entries, get_body, get_version, get_snapshot,
}
use check_sync_files.Snapshot.Stream.{
  max_path_len, put_int, put_str, get_int, get_str, Parse, parsed, ◌>>=◌,
}
use check_sync_files.Snapshot.Stream.Laws.{
  at, width, >>=-step, >>-step, require-at, get_bytes-append, get_int-put_int, get_str-put_str,
}

-- A text that UTF-8 can hold, within the limit of the reader.
pub record IsText (w : Win) (s : WString) : Type 0 where
  pub round : from_utf8 w (to_utf8 w s) ≡ s
  pub short : length (to_utf8 w s) ≤ max_path_len

-- An entry whose numbers fit the fields that they are written to, with a SHA-256 digest or none.
pub record IsStorable (w : Win) (idx : FileIndex) (e : FileEntry) : Type 0 where
  pub path : IsText w e.relative_path
  pub target : IsText w e.link_target
  pub size : e.size < width 8
  pub mtime : e.last_write_time < width 8
  pub attributes : e.attributes < width 4
  pub id : e.file_id < width 8
  pub digest : (d : Bytes) → get_hash w e.relative_path idx ≡ some d → length d ≡ 32

kind_of-kind_index : (k : ReparseKind) → kind_of (kind_index k) ≡ k
kind_of-kind_index plain = refl
kind_of-kind_index symlink_file = refl
kind_of-kind_index symlink_dir = refl
kind_of-kind_index junction = refl
kind_of-kind_index other = refl
kind_of-kind_index unknown = refl

kind_index-small : (k : ReparseKind) → kind_index k < width 1
kind_index-small plain = omega arith
kind_index-small symlink_file = omega arith
kind_index-small symlink_dir = omega arith
kind_index-small junction = omega arith
kind_index-small other = omega arith
kind_index-small unknown = omega arith

flag_read : (b : Bool) → not (flag b == 0) ≡ b
flag_read true = refl
flag_read false = refl

flag-small : (b : Bool) → flag b < width 1
flag-small true = omega arith
flag-small false = omega arith

-- The next item of a stream is read, and the reading goes on.
module _ {E A : Type 0} where
  int_then :
      (n v : ℕ) (more rest : Bytes) (f : ℕ → Parse E A)
      → v < width n
      → (get_int n >>= f) (at ((put_int n v ++ more) ++ rest)) ≡ f v (at (more ++ rest))
  int_then n v more rest f h =
      rw (append_assoc (put_int n v) more rest)
        (>>=-step _ f (get_int-put_int n v (more ++ rest) h))

  str_then :
      (err : E) (s more rest : Bytes) (f : Bytes → Parse E A)
      → length s ≤ max_path_len
      → (get_str err >>= f) (at ((put_str s ++ more) ++ rest)) ≡ f s (at (more ++ rest))
  str_then err s more rest f h =
      rw (append_assoc (put_str s) more rest)
        (>>=-step _ f (get_str-put_str err s (more ++ rest) h))

module _ (w : Win) where
  abbrev pub restore_hash : Option Bytes → WString → FileIndex → FileIndex
  restore_hash none path loaded = loaded
  restore_hash (some d) path loaded = set_hash w path d loaded

  -- What an entry and its digest become in the index that is filled.
  abbrev pub restore_entry : FileIndex → FileEntry → FileIndex → FileIndex
  restore_entry idx e loaded =
      restore_hash (get_hash w e.relative_path idx) e.relative_path (add_entry w e loaded)

  get_digest-put_digest :
      (d : Option Bytes) (path : WString) (loaded : FileIndex) (rest : Bytes)
      → ((x : Bytes) → d ≡ some x → length x ≡ 32)
      → get_digest w (not (flag (is_some d) == 0)) path loaded (at (put_digest d ++ rest))
        ≡ inr (restore_hash d path loaded, at rest)
  unfolding get_digest put_digest parsed
  get_digest-put_digest none path loaded rest h = refl
  get_digest-put_digest (some d) path loaded rest h =
      >>=-step _ _ (get_bytes-append 32 _ d rest (h d refl))

  get_link-put_link :
      (kind : ReparseKind) (target : WString) (more rest : Bytes)
      → IsText w target
      → get_link w 2
          (at ((put_int 1 (kind_index kind) ++ (put_str (to_utf8 w target) ++ more)) ++ rest))
        ≡ inr ((kind, target), at (more ++ rest))
  unfolding get_link parsed
  get_link-put_link kind target more rest s =
      int_then 1 (kind_index kind) _ rest _ (kind_index-small kind)
      ∙ (str_then _ (to_utf8 w target) more rest _ s.short
          ∙ rw (kind_of-kind_index kind, s.round) refl)

  get_entry-put_entry :
      (idx : FileIndex) (e : FileEntry) (loaded : FileIndex) (rest : Bytes)
      → IsStorable w idx e
      → get_entry w 2 loaded (at (put_entry w idx e ++ rest))
        ≡ inr (restore_entry idx e loaded, at rest)
  unfolding get_entry put_entry
  get_entry-put_entry idx e loaded rest s =
      str_then _ (to_utf8 w e.relative_path) _ rest _ s.path.short
      ∙ (int_then 8 e.size _ rest _ s.size
          ∙ (int_then 8 e.last_write_time _ rest _ s.mtime
              ∙ (int_then 4 e.attributes _ rest _ s.attributes
                  ∙ (int_then 8 e.file_id _ rest _ s.id
                      ∙ (int_then 1 (flag e.is_directory) _ rest _ (flag-small e.is_directory)
                          ∙ (int_then 1 _ _ rest _ (flag-small _)
                              ∙ (>>=-step (get_link w 2) _
                                    (get_link-put_link e.reparse_kind e.link_target _ rest s.target)
                                  ∙ (>>-step _ _ (require-at _ _)
                                      ∙ rw (s.path.round, flag_read e.is_directory)
                                          (get_digest-put_digest (get_hash w e.relative_path idx)
                                            e.relative_path (add_entry w e loaded) rest
                                            s.digest)))))))))

  -- The index that is filled from a list of entries.
  unfoldable pub restore : FileIndex → List (WString × FileEntry) → FileIndex → FileIndex
  restore idx [] loaded = loaded
  restore idx ((k, e) ∷ entries) loaded = restore idx entries (restore_entry idx e loaded)

  get_entries-put_entries :
      (idx : FileIndex) (entries : List (WString × FileEntry)) (loaded : FileIndex)
      → All (λ (x : WString × FileEntry). IsStorable w idx x.1) entries
      → get_entries w 2 (length entries) loaded (at (put_entries w idx entries))
        ≡ inr (restore idx entries loaded, at [])
  unfolding get_entries put_entries restore parsed
  get_entries-put_entries idx [] loaded h = refl
  get_entries-put_entries idx ((k, e) ∷ entries) loaded h =
      >>=-step _ _ (get_entry-put_entry idx e loaded (put_entries w idx entries) h.0)
      ∙ get_entries-put_entries idx entries (restore_entry idx e loaded) h.1

  -- What the writer needs of an index and of the root.
  pub record IsSavable (idx : FileIndex) (root : WString) : Type 0 where
    pub root_text : IsText w root
    pub files : idx.stats.files < width 8
    pub dirs : idx.stats.dirs < width 8
    pub bytes : idx.stats.bytes < width 8
    pub count : length idx.entries ≤ max_entries
    pub storable : All (λ (x : WString × FileEntry). IsStorable w idx x.1) idx.entries

  count_ok :
      (idx : FileIndex)
      → length idx.entries ≤ max_entries
      → ltb max_entries (length idx.entries) ≡ false
  count_ok idx h = ground arith

  pub get_snapshot-write_snapshot :
      (idx : FileIndex) (root : WString)
      → IsSavable idx root
      → get_snapshot w (at (write_snapshot w idx root))
        ≡ inr ((restore idx idx.entries (new_index idx.case_sensitive), root), at [])
  unfolding get_snapshot get_version get_body write_snapshot parsed
  get_snapshot-write_snapshot idx root s =
      >>=-step _ _ (get_int-put_int 4 magic _ (omega arith))
      ∙ (>>=-step _ _ (get_int-put_int 4 version _ (omega arith))
          ∙ (>>=-step _ _
                (get_int-put_int 1 (flag idx.case_sensitive) _ (flag-small idx.case_sensitive))
              ∙ (>>=-step _ _ (get_str-put_str _ (to_utf8 w root) _ s.root_text.short)
                  ∙ (>>=-step _ _ (get_int-put_int 8 idx.stats.files _ s.files)
                      ∙ (>>=-step _ _ (get_int-put_int 8 idx.stats.dirs _ s.dirs)
                          ∙ (>>=-step _ _ (get_int-put_int 8 idx.stats.bytes _ s.bytes)
                              ∙ (>>=-step _ _ (
                                    get_int-put_int 8 (length idx.entries) _
                                      (omega (arith, s.count)))
                                  ∙ (>>-step _ _ (require-at _ _)
                                      ∙ rw (count_ok idx s.count, flag_read idx.case_sensitive)
                                          (>>=-step _ _
                                              (get_entries-put_entries idx idx.entries _ s.storable)
                                            ∙ (>>-step _ _ (require-at _ _)
                                                ∙ rw s.root_text.round refl))))))))))
