-- ===== src/Session.antt =====
-- The records of src/Session/ScanSession.h and the decisions of src/Session/SessionLogic.cpp.
pub mod Resume
pub mod Laws
use check_sync_files.Common.{
  ℕ, Bool, true, false, ◌&&◌, ◌||◌, not, List, ◌∷◌, if◌then◌else◌, ltb, leb, ◌==◌, ◌-◌, eq_bool,
}
use check_sync_files.Text.{WString, Bytes, eqw}
use check_sync_files.Entry.{
  ScanMode, presence, size_only, content, PartialPattern, edges, center, random,
}
use check_sync_files.Result.{Status, Stats}

pub record VerifyInfo : Type 0 where
  pub percent_requested : ℕ
  -- An `int` in the code, a natural number here.
  pub percent_effective : ℕ
  pub pattern : PartialPattern
  pub pattern_random : Bool

pub record ScanSettings : Type 0 where
  pub mode : ScanMode
  pub case_sensitive : Bool
  pub backend : Bytes
  pub verify : VerifyInfo
  pub hash_threads : ℕ

pub record JournalEntry : Type 0 where
  pub relative_path : WString
  pub size_a : ℕ
  pub mtime_a : ℕ
  pub has_hash_a : Bool
  pub hash_a : Bytes
  pub size_b : ℕ
  pub mtime_b : ℕ
  pub has_hash_b : Bool
  pub hash_b : Bytes
  pub verdict : Status
  pub verified_percent : ℕ
  pub verified_pattern : PartialPattern
  pub is_directory : Bool

-- `hashing::HashMetadataChanged`.
unfoldable pub hash_metadata_changed : ℕ → ℕ → ℕ → ℕ → Bool
hash_metadata_changed size_before mtime_before size_after mtime_after =
    not (size_before == size_after) || not (mtime_before == mtime_after)

unfoldable pub fingerprint_stale : ℕ → ℕ → ℕ → ℕ → Bool
unfolding hash_metadata_changed
fingerprint_stale saved_size saved_mtime cur_size cur_mtime =
    hash_metadata_changed saved_size saved_mtime cur_size cur_mtime

unfoldable pub needs_reverify : JournalEntry → ℕ → ℕ → ℕ → ℕ → Bool
unfolding fingerprint_stale
needs_reverify saved cur_size_a cur_mtime_a cur_size_b cur_mtime_b =
    fingerprint_stale saved.size_a saved.mtime_a cur_size_a cur_mtime_a
    || fingerprint_stale saved.size_b saved.mtime_b cur_size_b cur_mtime_b

-- `==` on the enumerations.
abbrev pub same_mode : ScanMode → ScanMode → Bool
same_mode presence presence = true
same_mode size_only size_only = true
same_mode content content = true
same_mode _ _ = false

abbrev pub same_pattern : PartialPattern → PartialPattern → Bool
same_pattern edges edges = true
same_pattern center center = true
same_pattern random random = true
same_pattern _ _ = false

-- The reason that `CheckResumeCompatible` prints, with the two values that it prints.
pub data Reason : Type 0 where
  compatible : Reason
  mode_differs : ScanMode → ScanMode → Reason
  case_sensitivity_differs : Reason
  backend_differs : Bytes → Bytes → Reason
  percent_differs : ℕ → ℕ → Reason
  pattern_differs : PartialPattern → PartialPattern → Reason

pub record CompatResult : Type 0 where
  pub ok : Bool
  pub reason : Reason

unfoldable pub check_resume_compatible : ScanSettings → ScanSettings → CompatResult
check_resume_compatible saved current =
    if not (same_mode saved.mode current.mode)
    then record { ok = false; reason = mode_differs saved.mode current.mode }
    else if not (eq_bool saved.case_sensitive current.case_sensitive)
    then record { ok = false; reason = case_sensitivity_differs }
    else if not (eqw saved.backend current.backend)
    then record { ok = false; reason = backend_differs saved.backend current.backend }
    else if not (saved.verify.percent_effective == current.verify.percent_effective)
    then record {
      ok = false;
      reason = percent_differs saved.verify.percent_effective current.verify.percent_effective;
    }
    else if ltb saved.verify.percent_effective 100
        && not (same_pattern saved.verify.pattern current.verify.pattern)
    then record { ok = false; reason = pattern_differs saved.verify.pattern current.verify.pattern }
    else record { ok = true; reason = compatible }

unfoldable pub should_checkpoint : ℕ → ℕ → ℕ → ℕ → ℕ → Bool
should_checkpoint rows_since_checkpoint rows_every now_secs last_checkpoint_secs secs_every =
    if ltb 0 rows_every && leb rows_every rows_since_checkpoint
    then true
    else if ltb 0 secs_every
        && (leb last_checkpoint_secs now_secs && leb secs_every (now_secs - last_checkpoint_secs))
    then true
    else false
