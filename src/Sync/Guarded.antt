-- ===== src/Sync/Guarded.antt =====
-- `DeleteDirGuarded` of src/Sync/SyncFs.cpp: the guarded recursive delete. The operations of the same
-- file that it calls are those of Sync.Fs; the calls of Windows are the record `DirCalls`.
pub mod Contained
use check_sync_files.Common.{
  ℕ, zero, suc, ◌+◌, ◌/◌, ◌%◌, Bool, true, false, not, ◌&&◌, ◌||◌, Option, none, some, List, [],
  ◌∷◌, ◌++◌, ◌==◌, ltb, if◌then◌else◌, any, select, length, drop,
}
use check_sync_files.Text.{WString, backslash, dot, empty, eqw, lit}
use check_sync_files.Windows.{Win}
use check_sync_files.Path.{normalize_root, add_long_path_prefix, fold_for_compare, join_rel}
use check_sync_files.Numbers.{to_wstring}
use check_sync_files.Entry.{ReparseKind, is_supported_link}
use check_sync_files.State.{Action, pure, ◌>>=◌, ◌>>◌, attempt, branch}
use check_sync_files.Sync.Fs.{SyncFs, DeleteDirOutcome}

-- `GetFileAttributesExW`; `FindFirstFileW` with `FindNextFileW` up to the end, each name with its
-- attributes; both `none` where the call fails. `GetReparseKind`.
pub record DirCalls (S : Type 0) : Type 0 where
  pub file_attributes : WString → Action S (Option ℕ)
  pub find_files : WString → Action S (Option (List (WString × ℕ)))
  pub reparse_kind : WString → Bool → Action S ReparseKind

-- FILE_ATTRIBUTE_DIRECTORY and FILE_ATTRIBUTE_REPARSE_POINT.
abbrev pub is_directory_attr : ℕ → Bool
is_directory_attr attrs = attrs / 16 % 2 == 1

abbrev pub is_reparse_attr : ℕ → Bool
is_reparse_attr attrs = attrs / 1024 % 2 == 1

-- ERROR_FILE_NOT_FOUND and ERROR_PATH_NOT_FOUND.
abbrev pub is_gone_code : ℕ → Bool
is_gone_code code = code == 2 || code == 3

abbrev pub is_dots : WString → Bool
is_dots name = eqw name (dot ∷ []) || eqw name (dot ∷ dot ∷ [])

pub record Frame : Type 0 where
  pub abs : WString
  pub rel : WString
  pub dirty : Bool

abbrev pub outcome_ok : DeleteDirOutcome
outcome_ok = record { ok = true; skipped = false; cancelled = false; message = [] }

abbrev pub outcome_failed : WString → DeleteDirOutcome
outcome_failed why = record { ok = false; skipped = false; cancelled = false; message = why }

-- `abortSkip`.
abbrev pub outcome_skipped : WString → WString → DeleteDirOutcome
outcome_skipped entry_abs why = record {
  ok = false;
  skipped = true;
  cancelled = false;
  message = why ++ (lit ": " ++ entry_abs);
}

-- `abortCancel`.
abbrev pub outcome_cancelled : WString → DeleteDirOutcome
outcome_cancelled dir_abs = record {
  ok = false;
  skipped = false;
  cancelled = true;
  message = lit "cancellazione interrotta: " ++ dir_abs;
}

-- What a child leads to; what the children of a directory lead to; what a turn of the loop leads to.
pub data Child : Type 0 where
  removed : Child
  subdir : Frame → Child
  gives_up : DeleteDirOutcome → Child

pub data Scan : Type 0 where
  emptied : Frame → Scan
  descends : Frame → Frame → Scan
  stops : DeleteDirOutcome → Scan

pub data Turn : Type 0 where
  ended : DeleteDirOutcome → Turn
  again : List Frame → Turn

-- A level is gone: the one above it has changed.
abbrev pub pop : List Frame → List Frame
pop [] = []
pop (f ∷ below) = record f { dirty = true } ∷ below

-- `isAllowed`: the folded path is one of the list.
unfoldable pub is_allowed : Win → List WString → WString → Bool
is_allowed w allowed_rels rel = any (eqw (fold_for_compare w rel)) allowed_rels

module _ {S : Type 0} (w : Win) (fs : SyncFs S) (os : DirCalls S) (root dir_abs : WString)
    (allowed_rels : List WString) where
  unfoldable pub unlink_child : WString → WString → Bool → Action S Child
  unlink_child child_abs child_rel is_dir =
      branch (not (is_allowed w allowed_rels child_rel))
        (pure (gives_up (outcome_skipped child_abs (lit "link non atteso, cartella preservata"))))
        (do
          kind ← os.reparse_kind child_abs is_dir
          branch (not (is_supported_link kind))
              (pure (
                gives_up (
                  outcome_skipped child_abs
                    (lit "reparse point non supportato, cartella preservata"))))
              (attempt (fs.delete_link child_abs is_dir)
                (λ err.
                  pure (gives_up (outcome_skipped child_abs (lit "eliminazione link fallita"))))
                (pure removed)))

  unfoldable pub delete_child : WString → WString → Action S Child
  delete_child child_abs child_rel =
      branch (not (is_allowed w allowed_rels child_rel))
        (pure (gives_up (outcome_skipped child_abs (lit "file non atteso, cartella preservata"))))
        (attempt (fs.delete_file_one root child_abs) (λ err. pure (gives_up (outcome_failed err)))
          (pure removed))

  -- The body of the loop over the children, behind the test of the flag.
  unfoldable pub visit_child : Frame → WString → ℕ → Action S Child
  visit_child top name attrs =
      let child_abs = top.abs ++ (backslash ∷ name) in
      let child_rel = join_rel top.rel name in
      branch (is_reparse_attr attrs) (unlink_child child_abs child_rel (is_directory_attr attrs)) (
        branch (not (is_directory_attr attrs)) (delete_child child_abs child_rel)
          (pure (subdir (record { abs = child_abs; rel = child_rel; dirty = false }))))

  unfoldable pub after_child : (Frame → Action S Scan) → Frame → Child → Action S Scan
  after_child continue top removed = continue (record top { dirty = true })
  after_child continue top (subdir child) = pure (descends top child)
  after_child continue top (gives_up o) = pure (stops o)

  unfoldable pub scan_children : List (WString × ℕ) → Frame → Action S Scan
  scan_children [] top = pure (emptied top)
  scan_children ((name, attrs) ∷ children) top =
      let continue = scan_children children in
      do
        stopped ← fs.was_cancelled
        branch stopped (pure (stops (outcome_cancelled dir_abs)))
            (do child ← visit_child top name attrs; after_child continue top child)

  -- The directory itself goes when it is listed, or when something in it was removed.
  unfoldable pub remove_level : Frame → List Frame → Action S Turn
  remove_level top below =
      branch (not (is_allowed w allowed_rels top.rel) && not top.dirty)
        (pure
          (ended (outcome_skipped top.abs (lit "cartella condivisa con la sorgente, preservata"))))
        (do
          stopped ← fs.was_cancelled
          branch stopped (pure (ended (outcome_cancelled dir_abs))) (do
            fs.clear_attributes (add_long_path_prefix top.abs)
            gone ← fs.remove_directory (add_long_path_prefix top.abs)
            branch gone (pure (again (pop below))) (do
              code ← fs.last_error
              branch (is_gone_code code) (pure (again (pop below)))
                  (pure (ended (outcome_skipped top.abs (lit "rimozione cartella fallita")))))))

  unfoldable pub after_scan : List Frame → Scan → Action S Turn
  after_scan below (emptied top) = remove_level top below
  after_scan below (descends top child) = pure (again (child ∷ top ∷ below))
  after_scan below (stops o) = pure (ended o)

  -- The entries but "." and ".."; a directory that is gone has none.
  unfoldable pub after_listing : Frame → List Frame → Option (List (WString × ℕ)) → Action S Turn
  after_listing top below (some entries) = do
    scan ← scan_children (select (λ e. not (is_dots e.0)) entries) top
    after_scan below scan
  after_listing top below none = do
    code ← fs.last_error
    branch (is_gone_code code) (remove_level top below)
        (pure (ended (outcome_skipped top.abs (lit "lettura cartella fallita"))))

  -- A turn of the loop over the stack, whose top stands first.
  unfoldable pub turn : List Frame → Action S Turn
  turn [] = pure (ended outcome_ok)
  turn (top ∷ below) = do
    stopped ← fs.was_cancelled
    branch stopped (pure (ended (outcome_cancelled dir_abs))) (do
      entries ← os.find_files (add_long_path_prefix top.abs ++ (backslash ∷ 42 ∷ []))
      after_listing top below entries)

  unfoldable pub after_turn :
      (List Frame → Action S (Option DeleteDirOutcome)) → Turn → Action S (Option DeleteDirOutcome)
  after_turn continue (ended o) = pure (some o)
  after_turn continue (again stack) = continue stack

  -- The loop, for a number of turns; `none` when it has not ended by then.
  unfoldable pub turns : ℕ → List Frame → Action S (Option DeleteDirOutcome)
  turns zero stack = pure none
  turns (suc n) stack = let continue = turns n in do t ← turn stack; after_turn continue t

  -- The tests on the directory itself, with `attrs` what `GetFileAttributesExW` gives.
  unfoldable pub guarded_start : ℕ → WString → Option ℕ → Action S (Option DeleteDirOutcome)
  guarded_start n base_rel none = do
    code ← fs.last_error
    branch (is_gone_code code) (pure (some outcome_ok)) (
        pure (
          some (
            outcome_failed (
              lit "lettura cartella fallita (codice "
              ++ (to_wstring code ++ (lit "): " ++ dir_abs))))))
  guarded_start n base_rel (some attrs) =
      branch (not (is_directory_attr attrs))
        (pure (some (outcome_failed (lit "non e piu una cartella: " ++ dir_abs))))
        (branch (is_reparse_attr attrs)
          (pure (some (outcome_failed (lit "e diventata un link (non seguita): " ++ dir_abs))))
          (turns n (record { abs = dir_abs; rel = base_rel; dirty = false } ∷ [])))

  -- `DeleteDirGuarded`, for a number of turns of its loop.
  unfoldable pub delete_dir_guarded_for : ℕ → Action S (Option DeleteDirOutcome)
  delete_dir_guarded_for n =
      let n_root = normalize_root root in
      let base_rel = drop (suc (length n_root)) dir_abs in
      do
        why ← fs.check_parent_chain root dir_abs
        branch (not (empty why))
            (pure (some (outcome_failed (lit "cartella non raggiungibile in sicurezza: " ++ why))))
            (branch (empty base_rel)
              (pure (some (outcome_failed (lit "rifiuto: la radice non si elimina."))))
              (do
                attrs ← os.file_attributes (add_long_path_prefix dir_abs)
                guarded_start n base_rel attrs))
