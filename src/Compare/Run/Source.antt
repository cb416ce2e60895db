-- ===== src/Compare/Run/Source.antt =====
-- What the streaming comparison of src/Comparison/FileComparator.cpp leaves in the source index.
use mathlib.Core.Path.{subst}
use check_sync_files.Common.{
  ◌≡◌, sym, refl, Bool, true, false, Option, none, some, List, [], ◌∷◌, arith, if◌then◌else◌, any,
}
use check_sync_files.Text.{WString, eqw}
use check_sync_files.Windows.{Win}
use check_sync_files.Map.{NodupKeys}
use check_sync_files.Entry.{FileEntry, ScanMode}
use check_sync_files.Index.Laws.{try_erase_lem}
use check_sync_files.Index.{FileIndex, index_key, find, try_erase}
use check_sync_files.Compare.Run.{Event, entry, failed, Run, on_found, on_entry, on_error, stream}

-- The events up to the first callback that reads the cancel flag as set.
abbrev pub processed : List Event → List Event
processed [] = []
processed (entry e true ∷ events) = []
processed (entry e false ∷ events) = entry e false ∷ processed events
processed (failed err ∷ events) = failed err ∷ processed events

-- An event is an entry with the key of a path.
abbrev pub is_entry_of : Win → Bool → WString → Event → Bool
is_entry_of w cs rel (entry e cancelled) = eqw (index_key w cs e.relative_path) (index_key w cs rel)
is_entry_of w cs rel (failed err) = false

module _ (w : Win) (mode : ScanMode) (source_root dest_root : WString) where
  on_found-source :
      (o : Option FileEntry) (idx : FileIndex) (e : FileEntry) (r : Run)
      → (o ≡ none → idx ≡ r.source)
      → (on_found w mode source_root dest_root (o, idx) e r).source ≡ idx
  unfolding on_found
  on_found-source none idx e r h = sym (h refl)
  on_found-source (some src) idx e r h = refl

  absent-source :
      (rel : WString) (idx : FileIndex)
      → (try_erase w rel idx).0 ≡ none
      → (try_erase w rel idx).1 ≡ idx
  unfolding try_erase
  absent-source rel idx h = ground arith

  on_entry-source :
      (e : FileEntry) (r : Run)
      → (on_entry w mode source_root dest_root e r).source
        ≡ (try_erase w e.relative_path r.source).1
  unfolding on_entry
  on_entry-source e r = on_found-source _ _ e _ (absent-source e.relative_path r.source)

  -- Whether the processed events hold an entry of the path.
  abbrev pub is_matched : Bool → WString → List Event → Bool
  is_matched cs rel events = any (is_entry_of w cs rel) (processed events)

  -- After the enumeration a source index of distinct keys holds exactly what no processed entry of the destination
  -- had the path of: a path with such an entry is gone, and every other one leads to what it led to
  -- before, whatever errors came between and wherever the enumeration was cancelled.
  pub find-stream :
      (events : List Event) (r : Run) (rel : WString)
      → NodupKeys r.source.entries
      → find w rel (stream w mode source_root dest_root events r).source
        ≡ (if is_matched r.source.case_sensitive rel events then none else find w rel r.source)
  unfolding stream on_error
  find-stream [] r rel h = refl
  find-stream (failed err ∷ events) r rel h =
      find-stream events (on_error w mode source_root dest_root err r) rel h
  find-stream (entry e true ∷ events) r rel h = refl
  find-stream (entry e false ∷ events) r rel h =
      let next = on_entry w mode source_root dest_root e r in
      let (out, erased) = try_erase w e.relative_path r.source in
      let law = try_erase_lem w e.relative_path rel r.source h in
      let later =
        find-stream events next rel
          (subst (λ x. NodupKeys x.entries) (sym (on_entry-source e r)) law.2) in
      let left : FileIndex → Bool → Option FileEntry =
        λ idx cs. if is_matched cs rel events then none else find w rel idx in
      let after = find w rel (stream w mode source_root dest_root events next).source in
      let at_erased = subst (λ x. after ≡ left x x.case_sensitive) (on_entry-source e r) later in
      let at_case = subst (λ cs. after ≡ left erased cs) law.4 at_erased in
      ground (arith, at_case, law.1)
