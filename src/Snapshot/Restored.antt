-- ===== src/Snapshot/Restored.antt =====
-- The index that src/Filesystem/FileIndexSerializer.cpp reads back, against the one that was saved.
use mathlib.Core.List.{append_assoc}
use mathlib.Core.Path.{subst}
use check_sync_files.Common.{
  append-nil, ◌≡◌, refl, ap, sym, ◌∙◌, Bool, true, false, Option, none, some, List, [], ◌∷◌, ◌++◌,
  ◌⊎◌, inl, inr, All, arith, if◌then◌else◌, Bool-cases,
}
use check_sync_files.Text.{WString, Bytes, eqw}
use check_sync_files.Text.Laws.{eqw_iff, eqw→eq}
use check_sync_files.Windows.{Win}
use check_sync_files.Map.{Map, lookup, insert, NodupKeys}
use check_sync_files.Map.Laws.{lookup-insert}
use check_sync_files.Entry.{FileEntry}
use check_sync_files.Index.{FileIndex, index_key, add_entry, set_hash, get_hash}
use check_sync_files.Index.Laws.{IsFiled, IsValid, add_entry-IsValid}
use check_sync_files.Snapshot.RoundTrip.{restore_hash, restore_entry, restore}

module _ {V : Type 0} where
  insert-new :
      (k : WString) (v : V) (m : Map V) → lookup k m ≡ none → insert k v m ≡ m ++ ((k, v) ∷ [])
  unfolding lookup insert
  insert-new k v [] h = refl
  insert-new k v ((j, u) ∷ m) h = ground (arith, insert-new k v m)

  lookup-middle :
      (j k : WString) (v : V) (m xs : Map V)
      → lookup j (m ++ ((k, v) ∷ xs)) ≡ none
      → eqw k j ≡ false
  unfolding lookup
  lookup-middle j k v [] xs h = ground arith
  lookup-middle j k v ((i, u) ∷ m) xs h = ground (arith, lookup-middle j k v m xs)

  -- With distinct keys, a key that comes later is not in the part before it.
  lookup-before :
      (k : WString) (v : V) (m xs : Map V) → NodupKeys (m ++ ((k, v) ∷ xs)) → lookup k m ≡ none
  unfolding lookup
  lookup-before k v [] xs h = refl
  lookup-before k v ((j, u) ∷ m) xs h =
      ground
        (arith, lookup-middle j k v m xs h.0, eqw_iff k j, eqw_iff j k, lookup-before k v m xs h.1)

-- A digest that is there, or the one that was there before.
abbrev over : Option Bytes → Option Bytes → Option Bytes
over old none = old
over old (some d) = some d

over-nothing : (d : Option Bytes) → over none d ≡ d
over-nothing none = refl
over-nothing (some d) = refl

over-twice : (d : Option Bytes) → over d d ≡ d
over-twice none = refl
over-twice (some d) = refl

module _ (w : Win) (idx : FileIndex) where
  restore_hash-IsValid :
      (d : Option Bytes) (path : WString) (loaded : FileIndex)
      → IsValid w loaded
      → IsValid w (restore_hash w d path loaded)
  unfolding set_hash
  restore_hash-IsValid none path loaded v = v
  restore_hash-IsValid (some d) path loaded v = record {
    filed = v.filed;
    distinct = v.distinct;
    files = v.files;
    dirs = v.dirs;
    bytes = v.bytes;
  }

  restore_hash-parts :
      (d : Option Bytes) (path : WString) (loaded : FileIndex)
      → ((restore_hash w d path loaded).entries ≡ loaded.entries)
        × ((restore_hash w d path loaded).case_sensitive ≡ loaded.case_sensitive)
        × ((restore_hash w d path loaded).stats ≡ loaded.stats)
  unfolding set_hash
  restore_hash-parts none path loaded = (refl, refl, refl)
  restore_hash-parts (some d) path loaded = (refl, refl, refl)

  add_entry-parts :
      (e : FileEntry) (loaded : FileIndex)
      → ((add_entry w e loaded).entries
          ≡ insert (index_key w loaded.case_sensitive e.relative_path) e loaded.entries)
        × ((add_entry w e loaded).case_sensitive ≡ loaded.case_sensitive)
        × ((add_entry w e loaded).hashes ≡ loaded.hashes)
  unfolding add_entry
  add_entry-parts e loaded = ground arith

  restore_entry-case :
      (e : FileEntry) (loaded : FileIndex)
      → (restore_entry w idx e loaded).case_sensitive ≡ loaded.case_sensitive
  restore_entry-case e loaded =
      (restore_hash-parts (get_hash w e.relative_path idx) e.relative_path (add_entry w e loaded)).1
      ∙ (add_entry-parts e loaded).1

  restore_entry-entries :
      (k : WString) (e : FileEntry) (loaded : FileIndex)
      → k ≡ index_key w loaded.case_sensitive e.relative_path
      → lookup k loaded.entries ≡ none
      → (restore_entry w idx e loaded).entries ≡ loaded.entries ++ ((k, e) ∷ [])
  restore_entry-entries k e loaded h new =
      (restore_hash-parts (get_hash w e.relative_path idx) e.relative_path (add_entry w e loaded)).0
      ∙ ((add_entry-parts e loaded).0
          ∙ (ap (λ j. insert j e loaded.entries) (sym h) ∙ insert-new k e loaded.entries new))

  pub restore-case :
      (xs : List (WString × FileEntry)) (loaded : FileIndex)
      → (restore w idx xs loaded).case_sensitive ≡ loaded.case_sensitive
  unfolding restore
  restore-case [] loaded = refl
  restore-case ((k, e) ∷ xs) loaded =
      restore-case xs (restore_entry w idx e loaded) ∙ restore_entry-case e loaded

  -- The entries are added behind those that are there, in order.
  pub restore-entries :
      (cs : Bool) (xs : List (WString × FileEntry)) (loaded : FileIndex)
      → loaded.case_sensitive ≡ cs
      → All (IsFiled w cs) xs
      → NodupKeys (loaded.entries ++ xs)
      → (restore w idx xs loaded).entries ≡ loaded.entries ++ xs
  unfolding restore
  restore-entries cs [] loaded c h d = sym (append-nil loaded.entries)
  restore-entries cs ((k, e) ∷ xs) loaded c h d =
      let added : (restore_entry w idx e loaded).entries ≡ loaded.entries ++ ((k, e) ∷ []) =
        restore_entry-entries k e loaded (h.0.0 ∙ ap (λ b. index_key w b e.relative_path) (sym c))
          (lookup-before k e loaded.entries xs d) in
      let joined : (restore_entry w idx e loaded).entries ++ xs ≡ loaded.entries ++ ((k, e) ∷ xs) =
        ap (λ m. m ++ xs) added ∙ append_assoc loaded.entries ((k, e) ∷ []) xs in
      restore-entries cs xs (restore_entry w idx e loaded) (restore_entry-case e loaded ∙ c) h.1
        (subst NodupKeys (sym joined) d)
      ∙ joined

  -- A restored index is valid, as an index that is built by insertions is.
  pub restore-IsValid :
      (cs : Bool) (xs : List (WString × FileEntry)) (loaded : FileIndex)
      → All (IsFiled w cs) xs
      → IsValid w loaded
      → IsValid w (restore w idx xs loaded)
  unfolding restore
  restore-IsValid cs [] loaded h v = v
  restore-IsValid cs ((k, e) ∷ xs) loaded h v =
      restore-IsValid cs xs (restore_entry w idx e loaded) h.1 (
        restore_hash-IsValid (get_hash w e.relative_path idx) e.relative_path (add_entry w e loaded)
          (add_entry-IsValid w e loaded v h.0.1))

  -- A digest at the key of an entry is the one of the saved index, once the entry is restored.
  module _ (key : WString) where
    digest_hash :
        (d : Option Bytes) (path : WString) (loaded : FileIndex)
        → lookup key (restore_hash w d path loaded).hashes ≡ (
            if eqw (index_key w loaded.case_sensitive path) key
            then over (lookup key loaded.hashes) d
            else lookup key loaded.hashes)
    unfolding set_hash
    digest_hash none path loaded = ground arith
    digest_hash (some d) path loaded =
        lookup-insert (index_key w loaded.case_sensitive path) key d loaded.hashes

    -- What an entry under the key `k` does to the digest that `key` leads to.
    digest_step :
        (cs : Bool) (k : WString) (e : FileEntry) (loaded : FileIndex)
        → loaded.case_sensitive ≡ cs
        → idx.case_sensitive ≡ cs
        → k ≡ index_key w cs e.relative_path
        → lookup key (restore_entry w idx e loaded).hashes ≡ (
            if eqw k key
            then over (lookup key loaded.hashes) (lookup k idx.hashes)
            else lookup key loaded.hashes)
    unfolding get_hash
    digest_step cs k e loaded c ci f =
        digest_hash (get_hash w e.relative_path idx) e.relative_path (add_entry w e loaded)
        ∙ rw ((add_entry-parts e loaded).1, (add_entry-parts e loaded).2, c, ci, f) refl

    digest_now :
        (cs : Bool) (k : WString) (e : FileEntry) (loaded : FileIndex)
        → loaded.case_sensitive ≡ cs
        → idx.case_sensitive ≡ cs
        → k ≡ index_key w cs e.relative_path
        → eqw k key ≡ true
        → (lookup key loaded.hashes ≡ none) ⊎ (lookup key loaded.hashes ≡ lookup key idx.hashes)
        → lookup key (restore_entry w idx e loaded).hashes ≡ lookup key idx.hashes
    digest_now cs k e loaded c ci f t h =
        digest_step cs k e loaded c ci f
        ∙ rw (t, eqw→eq k key t)
            (elim h [
              | inl n ↦ rw n (over-nothing (lookup key idx.hashes))
              | inr g ↦ rw g (over-twice (lookup key idx.hashes))
            ])

    -- It stays.
    digest_kept :
        (cs : Bool) (xs : List (WString × FileEntry)) (loaded : FileIndex)
        → loaded.case_sensitive ≡ cs
        → idx.case_sensitive ≡ cs
        → All (IsFiled w cs) xs
        → lookup key loaded.hashes ≡ lookup key idx.hashes
        → lookup key (restore w idx xs loaded).hashes ≡ lookup key idx.hashes
    unfolding restore
    digest_kept cs [] loaded c ci h e = e
    digest_kept cs ((k, x) ∷ xs) loaded c ci h e =
        digest_kept cs xs (restore_entry w idx x loaded) (restore_entry-case x loaded ∙ c) ci h.1
          (elim (Bool-cases (eqw k key)) [
            | inl t ↦ digest_now cs k x loaded c ci h.0.0 t (inr e)
            | inr f ↦ digest_step cs k x loaded c ci h.0.0 ∙ rw (f, e) refl
          ])

    pub digest_restored :
        (cs : Bool) (xs : List (WString × FileEntry)) (loaded : FileIndex) (e : FileEntry)
        → loaded.case_sensitive ≡ cs
        → idx.case_sensitive ≡ cs
        → All (IsFiled w cs) xs
        → lookup key loaded.hashes ≡ none
        → lookup key xs ≡ some e
        → lookup key (restore w idx xs loaded).hashes ≡ lookup key idx.hashes
    unfolding restore lookup
    digest_restored cs [] loaded e c ci h n f = cc
    digest_restored cs ((k, x) ∷ xs) loaded e c ci h n f = elim (Bool-cases (eqw k key)) [
      | inl t ↦
          digest_kept cs xs (restore_entry w idx x loaded) (restore_entry-case x loaded ∙ c) ci h.1
            (digest_now cs k x loaded c ci h.0.0 t (inl n))
      | inr g ↦
          digest_restored cs xs (restore_entry w idx x loaded) e (restore_entry-case x loaded ∙ c)
            ci h.1 (digest_step cs k x loaded c ci h.0.0 ∙ rw (g, n) refl) (ground arith)
    ]
