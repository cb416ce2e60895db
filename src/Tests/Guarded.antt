-- ===== src/Tests/Guarded.antt =====
-- The guarded delete, on a machine that shows a listed file in every directory.
use check_sync_files.Common.{◌≡◌, refl, true, some, List, [], ◌∷◌, ◌++◌, ◌⊎◌, inl, inr, All}
use check_sync_files.Text.{WString, backslash, lit}
use check_sync_files.Path.{normalize_root, add_long_path_prefix}
use check_sync_files.Entry.{plain}
use check_sync_files.State.Laws.{Ensures, Anything}
use check_sync_files.Sync.Guarded.{DirCalls, delete_dir_guarded_for}
use check_sync_files.Sync.Guarded.Contained.{Stands, Under, Guards, delete_dir_guarded_for-Keeps}
use check_sync_files.Tests.Data.{ascii, right}
use check_sync_files.Tests.Execute.{Log, answer, change, machine}

abbrev calls : DirCalls Log
calls = record {
  file_attributes = λ path. answer (some 16);
  find_files = λ path. answer (some ((lit "f", 32) ∷ []));
  reparse_kind = λ path is_dir. answer plain;
}

abbrev dir : WString
dir = 111 ∷ lit "ld"

abbrev dir_abs : WString
dir_abs = normalize_root right ++ (backslash ∷ dir)

abbrev allowed : List WString
allowed = lit "OLD\\F" ∷ []

-- A removed path is the guarded directory or below it.
abbrev Removable : WString → Type 0
Removable path =
    (p : WString) × (rel : WString) × Stands right p rel
    × Under dir rel
    × ((path ≡ p) ⊎ (path ≡ add_long_path_prefix p))

answer-Keeps : {A : Type 0} (a : A) → Ensures (All Removable) Anything (answer a)
answer-Keeps a = record { returns = λ s i. tt; keeps = λ s i. i }

change-Keeps :
    {A : Type 0} (path : WString) (a : A)
    → Removable path
    → Ensures (All Removable) Anything (change path a)
change-Keeps path a h = record { returns = λ s i. tt; keeps = λ s i. (h, i) }

machine-Guards : Guards ascii machine calls right dir allowed (All Removable)
machine-Guards = record {
  was_cancelled = answer-Keeps _;
  last_error = answer-Keeps _;
  check_parent_chain = λ path. answer-Keeps _;
  file_attributes = λ path. answer-Keeps _;
  find_files = λ path. answer-Keeps _;
  reparse_kind = λ path is_dir. answer-Keeps _;
  delete_link = λ path rel is_dir s u a. change-Keeps path (inr tt) (path, rel, s, u, inl refl);
  delete_file_one = λ path rel s u a. change-Keeps path (inr tt) (path, rel, s, u, inl refl);
  clear_attributes = λ path rel s u h. change-Keeps _ tt (path, rel, s, u, inr refl);
  remove_directory = λ path rel s u h. change-Keeps _ true (path, rel, s, u, inr refl);
}

delete_dir_guarded_for-Keeps_example :
    All Removable ((delete_dir_guarded_for ascii machine calls right dir_abs allowed 3 []).1)
delete_dir_guarded_for-Keeps_example =
    delete_dir_guarded_for-Keeps ascii machine calls right dir_abs allowed 111 (lit "ld")
      machine-Guards 3 [] refl tt
