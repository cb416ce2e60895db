-- ===== src/Sync/Guarded/Contained.antt =====
-- What `DeleteDirGuarded` of src/Sync/SyncFs.cpp may remove.
use check_sync_files.Common.{
  arith, not_flip, ◌&&◌, not, false, Bool-cases, ℕ, zero, suc, ◌≡◌, refl, ap, sym, ◌∙◌, Bool, true,
  Option, none, some, List, [], ◌∷◌, ◌++◌, ◌⊎◌, length, drop, inl, inr,
}
use mathlib.Core.List.{append_assoc}
use mathlib.Core.Path.{subst}
use check_sync_files.Text.{WString, backslash}
use check_sync_files.Windows.{Win}
use check_sync_files.Path.{normalize_root, add_long_path_prefix, join_rel}
use check_sync_files.State.{Action, pure}
use check_sync_files.State.Laws.{
  Ensures, Anything, pure-Ensures, >>=-Ensures, >>-Ensures, branch-Ensures, branch_split,
  attempt-Ensures,
}
use check_sync_files.Sync.Fs.{SyncFs, DeleteDirOutcome}
use check_sync_files.Sync.Guarded.{
  DirCalls, Frame, Child, removed, subdir, gives_up, Scan, emptied, descends, stops, Turn, ended,
  again, pop, is_allowed, unlink_child, delete_child, visit_child, after_child, scan_children,
  remove_level, after_scan, after_listing, turn, after_turn, turns, guarded_start,
  delete_dir_guarded_for,
}

-- A path that stands for `rel` below a root.
abbrev pub Stands : WString → WString → WString → Type 0
Stands root path rel = path ≡ normalize_root root ++ (backslash ∷ rel)

-- The directory `dir`, or a path below it.
abbrev pub Under : WString → WString → Type 0
Under dir rel = (rel ≡ dir) ⊎ ((tail : WString) × (rel ≡ dir ++ (backslash ∷ tail)))

-- A path whose folded form is in the list; a path with such a path below it.
abbrev pub IsListed : Win → List WString → WString → Type 0
IsListed w allowed_rels rel = is_allowed w allowed_rels rel ≡ true

abbrev pub HoldsListed : Win → List WString → WString → Type 0
HoldsListed w allowed_rels rel =
    (tail : WString) × IsListed w allowed_rels (rel ++ (backslash ∷ tail))

-- A property of the state that reads keep, that the removal of a file or of a link keeps when its
-- folded path is listed, and the removal of a directory when it is the guarded one or lies below it,
-- and is listed or holds a listed path.
pub record Guards {S : Type 0} (w : Win) (fs : SyncFs S) (os : DirCalls S) (root dir : WString)
    (allowed_rels : List WString) (I : S → Type 0) : Type 0 where
  pub was_cancelled : Ensures I Anything fs.was_cancelled
  pub last_error : Ensures I Anything fs.last_error
  pub check_parent_chain : (path : WString) → Ensures I Anything (fs.check_parent_chain root path)
  pub file_attributes : (path : WString) → Ensures I Anything (os.file_attributes path)
  pub find_files : (path : WString) → Ensures I Anything (os.find_files path)
  pub reparse_kind :
      (path : WString) (is_dir : Bool) → Ensures I Anything (os.reparse_kind path is_dir)
  pub delete_link :
      (path rel : WString) (is_dir : Bool)
      → Stands root path rel
      → Under dir rel
      → IsListed w allowed_rels rel
      → Ensures I Anything (fs.delete_link path is_dir)
  pub delete_file_one :
      (path rel : WString)
      → Stands root path rel
      → Under dir rel
      → IsListed w allowed_rels rel
      → Ensures I Anything (fs.delete_file_one root path)
  pub clear_attributes :
      (path rel : WString)
      → Stands root path rel
      → Under dir rel
      → IsListed w allowed_rels rel ⊎ HoldsListed w allowed_rels rel
      → Ensures I Anything (fs.clear_attributes (add_long_path_prefix path))
  pub remove_directory :
      (path rel : WString)
      → Stands root path rel
      → Under dir rel
      → IsListed w allowed_rels rel ⊎ HoldsListed w allowed_rels rel
      → Ensures I Anything (fs.remove_directory (add_long_path_prefix path))

join-cons : (c : ℕ) (s name : WString) → join_rel (c ∷ s) name ≡ (c ∷ s) ++ (backslash ∷ name)
unfolding join_rel
join-cons c s name = refl

nothing : {S A : Type 0} {I : S → Type 0} (a : A) → Ensures {S = S} I Anything (pure a)
nothing a = pure-Ensures a tt

module _ {S : Type 0} (w : Win) (fs : SyncFs S) (os : DirCalls S) (root dir_abs : WString)
    (allowed_rels : List WString) (c : ℕ) (b : WString) {I : S → Type 0}
    (k : Guards w fs os root (c ∷ b) allowed_rels I) where
  abbrev dir : WString
  dir = c ∷ b

  -- A frame of the stack is the guarded directory, or a directory below it; it is dirty only when
  -- it holds a listed path.
  record IsHeld (f : Frame) : Type 0 where
    stands : Stands root f.abs f.rel
    under : Under dir f.rel
    dirty : f.dirty ≡ true → HoldsListed w allowed_rels f.rel

  abbrev IsBelow : WString → WString → Type 0
  IsBelow parent rel = (name : WString) × (rel ≡ parent ++ (backslash ∷ name))

  -- Each frame lies below the next one.
  abbrev Above : WString → List Frame → Type 0
  Above rel [] = Unit {0}
  Above rel (f ∷ below) = IsHeld f × IsBelow f.rel rel × Above f.rel below

  abbrev StackHeld : List Frame → Type 0
  StackHeld [] = Unit {0}
  StackHeld (f ∷ below) = IsHeld f × Above f.rel below

  abbrev ChildHeld : WString → Child → Type 0
  ChildHeld parent removed = HoldsListed w allowed_rels parent
  ChildHeld parent (subdir f) = IsHeld f × IsBelow parent f.rel
  ChildHeld parent (gives_up o) = Unit {0}

  abbrev ScanHeld : WString → Scan → Type 0
  ScanHeld rel (emptied top) = IsHeld top × (top.rel ≡ rel)
  ScanHeld rel (descends top child) =
      IsHeld top × (top.rel ≡ rel) × IsHeld child × IsBelow rel child.rel
  ScanHeld rel (stops o) = Unit {0}

  abbrev TurnHeld : Turn → Type 0
  TurnHeld (ended o) = Unit {0}
  TurnHeld (again stack) = StackHeld stack

  child-Under : (rel name : WString) → Under dir rel → Under dir (join_rel rel name)
  child-Under rel name (inl e) =
      inr (
        name,
        subst (λ r. join_rel r name ≡ dir ++ (backslash ∷ name)) (sym e) (join-cons c b name),
      )
  child-Under rel name (inr (tail, e)) = inr (
    tail ++ (backslash ∷ name),
    subst (λ r. join_rel r name ≡ dir ++ (backslash ∷ (tail ++ (backslash ∷ name)))) (sym e)
        (join-cons c (b ++ (backslash ∷ tail)) name
          ∙ append_assoc dir (backslash ∷ tail) (backslash ∷ name)),
  )

  join-Under : (rel name : WString) → Under dir rel → join_rel rel name ≡ rel ++ (backslash ∷ name)
  join-Under rel name (inl e) =
      subst (λ r. join_rel r name ≡ r ++ (backslash ∷ name)) (sym e) (join-cons c b name)
  join-Under rel name (inr (tail, e)) =
      subst (λ r. join_rel r name ≡ r ++ (backslash ∷ name)) (sym e)
        (join-cons c (b ++ (backslash ∷ tail)) name)

  child-Stands :
      (f : Frame) (name : WString)
      → IsHeld f
      → Stands root (f.abs ++ (backslash ∷ name)) (join_rel f.rel name)
  child-Stands f name h =
      ap (λ p. p ++ (backslash ∷ name)) h.stands
      ∙ (append_assoc (normalize_root root) (backslash ∷ f.rel) (backslash ∷ name)
          ∙ ap (λ r. normalize_root root ++ (backslash ∷ r)) (sym (join-Under f.rel name h.under)))

  -- What holds a listed path below it, or is listed, makes its parent hold one.
  raise_to_parent :
      (parent rel : WString)
      → IsBelow parent rel
      → IsListed w allowed_rels rel ⊎ HoldsListed w allowed_rels rel
      → HoldsListed w allowed_rels parent
  raise_to_parent parent rel (name, e) (inl h) = (name, subst (IsListed w allowed_rels) e h)
  raise_to_parent parent rel (name, e) (inr (tail, h)) = (
    name ++ (backslash ∷ tail),
    subst (IsListed w allowed_rels)
        (ap (λ r. r ++ (backslash ∷ tail)) e
          ∙ append_assoc parent (backslash ∷ name) (backslash ∷ tail))
        h,
  )

  -- A directory that the test lets pass.
  may_go :
      (f : Frame)
      → IsHeld f
      → (not (is_allowed w allowed_rels f.rel) && not f.dirty) ≡ false
      → IsListed w allowed_rels f.rel ⊎ HoldsListed w allowed_rels f.rel
  may_go f h passed = elim (Bool-cases (is_allowed w allowed_rels f.rel)) [
    | inl t ↦ inl t
    | inr n ↦ inr (h.dirty (ground arith))
  ]

  unlink_child-Held :
      (parent path rel : WString) (is_dir : Bool)
      → Stands root path rel
      → Under dir rel
      → IsBelow parent rel
      → Ensures I
          (ChildHeld parent)
          (unlink_child w fs os root dir_abs allowed_rels path rel is_dir)
  unfolding unlink_child
  unlink_child-Held parent path rel is_dir s u below =
      branch_split _ (λ _. pure-Ensures _ tt)
        (λ allowed. >>=-Ensures (k.reparse_kind path is_dir) λ kind _.
          branch-Ensures _ (pure-Ensures _ tt) (
            attempt-Ensures (k.delete_link path rel is_dir s u (not_flip allowed))
              (λ err. pure-Ensures _ tt)
              (pure-Ensures _ (raise_to_parent parent rel below (inl (not_flip allowed))))))

  delete_child-Held :
      (parent path rel : WString)
      → Stands root path rel
      → Under dir rel
      → IsBelow parent rel
      → Ensures I (ChildHeld parent) (delete_child w fs os root dir_abs allowed_rels path rel)
  unfolding delete_child
  delete_child-Held parent path rel s u below =
      branch_split _ (λ _. pure-Ensures _ tt)
        (λ allowed.
          attempt-Ensures (k.delete_file_one path rel s u (not_flip allowed))
            (λ err. pure-Ensures _ tt)
            (pure-Ensures _ (raise_to_parent parent rel below (inl (not_flip allowed)))))

  visit_child-Held :
      (top : Frame) (name : WString) (attrs : ℕ)
      → IsHeld top
      → Ensures I (ChildHeld top.rel) (visit_child w fs os root dir_abs allowed_rels top name attrs)
  unfolding visit_child
  visit_child-Held top name attrs h =
      let stands = child-Stands top name h in
      let under = child-Under top.rel name h.under in
      let below : IsBelow top.rel (join_rel top.rel name) =
        (name, join-Under top.rel name h.under) in
      branch-Ensures _ (unlink_child-Held top.rel _ _ _ stands under below) (
        branch-Ensures _ (delete_child-Held top.rel _ _ stands under below)
          (pure-Ensures _ (record { stands = stands; under = under; dirty = λ d. cc }, below)))

  after_child-Held :
      (continue : Frame → Action S Scan) (top : Frame) (child : Child)
      → IsHeld top
      → ChildHeld top.rel child
      → ((f : Frame) → IsHeld f → Ensures I (ScanHeld f.rel) (continue f))
      → Ensures I
          (ScanHeld top.rel)
          (after_child w fs os root dir_abs allowed_rels continue top child)
  unfolding after_child
  after_child-Held continue top removed h q go =
      go (record top { dirty = true })
        (record { stands = h.stands; under = h.under; dirty = λ _. q })
  after_child-Held continue top (subdir f) h q go = pure-Ensures _ (h, refl, q.0, q.1)
  after_child-Held continue top (gives_up o) h q go = pure-Ensures _ tt

  scan_children-Held :
      (children : List (WString × ℕ)) (top : Frame)
      → IsHeld top
      → Ensures I (ScanHeld top.rel) (scan_children w fs os root dir_abs allowed_rels children top)
  unfolding scan_children
  scan_children-Held [] top h = pure-Ensures _ (h, refl)
  scan_children-Held ((name, attrs) ∷ children) top h = >>=-Ensures k.was_cancelled λ stopped _.
      branch-Ensures _ (pure-Ensures _ tt) (
        >>=-Ensures (visit_child-Held top name attrs h)
          λ child q. after_child-Held _ top child h q (scan_children-Held children))

  pop-Held :
      (rel : WString) (below : List Frame)
      → IsListed w allowed_rels rel ⊎ HoldsListed w allowed_rels rel
      → Above rel below
      → StackHeld (pop below)
  pop-Held rel [] listed h = tt
  pop-Held rel (f ∷ below) listed (held, under, above) = (
    record {
      stands = held.stands;
      under = held.under;
      dirty = λ _. raise_to_parent f.rel rel under listed;
    },
    above,
  )

  remove_level-Held :
      (top : Frame) (below : List Frame)
      → IsHeld top
      → Above top.rel below
      → Ensures I TurnHeld (remove_level w fs os root dir_abs allowed_rels top below)
  unfolding remove_level
  remove_level-Held top below h hs =
      branch_split _ (λ _. pure-Ensures _ tt)
        λ passed.
          let listed = may_go top h passed in
          let popped = pop-Held top.rel below listed hs in
          >>=-Ensures k.was_cancelled λ stopped _. branch-Ensures _ (pure-Ensures _ tt) (
            >>-Ensures (k.clear_attributes top.abs top.rel h.stands h.under listed) (
              >>=-Ensures (k.remove_directory top.abs top.rel h.stands h.under listed) λ gone _.
                branch-Ensures _ (pure-Ensures _ popped) (
                  >>=-Ensures k.last_error
                    λ code _. branch-Ensures _ (pure-Ensures _ popped) (pure-Ensures _ tt))))

  after_scan-Held :
      (rel : WString) (below : List Frame) (scan : Scan)
      → ScanHeld rel scan
      → Above rel below
      → Ensures I TurnHeld (after_scan w fs os root dir_abs allowed_rels below scan)
  unfolding after_scan
  after_scan-Held rel below (emptied top) (h, e) hs =
      remove_level-Held top below h (subst (λ r. Above r below) (sym e) hs)
  after_scan-Held rel below (descends top child) (h, e, h', (name, b)) hs = pure-Ensures _ (
    h',
    (
      h,
      (name, subst (λ r. child.rel ≡ r ++ (backslash ∷ name)) (sym e) b),
      subst (λ r. Above r below) (sym e) hs,
    ),
  )
  after_scan-Held rel below (stops o) h hs = pure-Ensures _ tt

  after_listing-Held :
      (top : Frame) (below : List Frame) (listing : Option (List (WString × ℕ)))
      → IsHeld top
      → Above top.rel below
      → Ensures I TurnHeld (after_listing w fs os root dir_abs allowed_rels top below listing)
  unfolding after_listing
  after_listing-Held top below (some entries) h hs =
      >>=-Ensures (scan_children-Held _ top h) λ scan q. after_scan-Held top.rel below scan q hs
  after_listing-Held top below none h hs =
      >>=-Ensures k.last_error
        λ code _. branch-Ensures _ (remove_level-Held top below h hs) (pure-Ensures _ tt)

  turn-Held :
      (stack : List Frame)
      → StackHeld stack
      → Ensures I TurnHeld (turn w fs os root dir_abs allowed_rels stack)
  unfolding turn
  turn-Held [] hs = pure-Ensures _ tt
  turn-Held (top ∷ below) hs = >>=-Ensures k.was_cancelled λ stopped _.
      branch-Ensures _ (pure-Ensures _ tt)
        (>>=-Ensures (k.find_files _) λ listing _. after_listing-Held top below listing hs.0 hs.1)

  after_turn-Keeps :
      (continue : List Frame → Action S (Option DeleteDirOutcome)) (t : Turn)
      → TurnHeld t
      → ((stack : List Frame) → StackHeld stack → Ensures I Anything (continue stack))
      → Ensures I Anything (after_turn w fs os root dir_abs allowed_rels continue t)
  unfolding after_turn
  after_turn-Keeps continue (ended o) q go = pure-Ensures _ tt
  after_turn-Keeps continue (again stack) q go = go stack q

  turns-Keeps :
      (n : ℕ) (stack : List Frame)
      → StackHeld stack
      → Ensures I Anything (turns w fs os root dir_abs allowed_rels n stack)
  unfolding turns
  turns-Keeps zero stack hs = pure-Ensures _ tt
  turns-Keeps (suc n) stack hs =
      >>=-Ensures (turn-Held stack hs) λ t q. after_turn-Keeps _ t q (turns-Keeps n)

  guarded_start-Keeps :
      (n : ℕ) (attrs : Option ℕ)
      → Stands root dir_abs dir
      → Ensures I Anything (guarded_start w fs os root dir_abs allowed_rels n dir attrs)
  unfolding guarded_start
  guarded_start-Keeps n none s =
      >>=-Ensures k.last_error λ code _. branch-Ensures _ (pure-Ensures _ tt) (pure-Ensures _ tt)
  guarded_start-Keeps n (some attrs) s = branch-Ensures _ (pure-Ensures _ tt) (
      branch-Ensures _ (pure-Ensures _ tt)
        (turns-Keeps n _ (record { stands = s; under = inl refl; dirty = λ d. cc }, tt)))

  drop-root : (r s : WString) → drop (suc (length r)) (r ++ (backslash ∷ s)) ≡ s
  drop-root [] s = refl
  drop-root (d ∷ r) s = drop-root r s

  -- What holds of the machine holds after any number of turns of the loop of `DeleteDirGuarded`, ended
  -- or not, if reading keeps it and the following calls keep it: the removal of a file or a link at a
  -- path below the guarded directory whose folded form is in the list of allowed paths, and the change
  -- of attributes and the removal of a directory that is the guarded one or lies below it, and whose
  -- folded path is in the list or that has a path below it whose folded form is in the list.
  pub delete_dir_guarded_for-Keeps :
      (n : ℕ) (s : S)
      → Stands root dir_abs dir
      → I s
      → I ((delete_dir_guarded_for w fs os root dir_abs allowed_rels n s).1)
  unfolding delete_dir_guarded_for
  delete_dir_guarded_for-Keeps n s at i =
      let base : drop (suc (length (normalize_root root))) dir_abs ≡ dir =
        ap (drop (suc (length (normalize_root root)))) at ∙ drop-root (normalize_root root) dir in
      (>>=-Ensures (k.check_parent_chain dir_abs) λ why _. branch-Ensures _ (pure-Ensures _ tt) (
          branch-Ensures _ (pure-Ensures _ tt) (
            >>=-Ensures (k.file_attributes _) λ attrs _.
              subst
                (λ d.
                  Ensures I Anything (guarded_start w fs os root dir_abs allowed_rels n d attrs))
                (sym base) (guarded_start-Keeps n attrs at)))).keeps
        s i
