-- ===== src/Session/Laws.antt =====
-- When src/Session/SessionLogic.cpp lets a saved session be resumed.
use check_sync_files.Common.{◌≡◌, ◌<◌, ◌↔◌, true, arith}
use check_sync_files.Text.Laws.{eqw_iff}
use check_sync_files.Entry.{ScanMode, PartialPattern}
use check_sync_files.Session.{ScanSettings, same_mode, same_pattern, check_resume_compatible}

-- The settings that the saved verdicts depend on are the same; the pattern counts for a partial
-- level only, and the number of threads does not count.
pub record IsCompatible (saved current : ScanSettings) : Type 0 where
  pub mode : saved.mode ≡ current.mode
  pub case_sensitive : saved.case_sensitive ≡ current.case_sensitive
  pub backend : saved.backend ≡ current.backend
  pub percent : saved.verify.percent_effective ≡ current.verify.percent_effective
  pub pattern : saved.verify.percent_effective < 100 → saved.verify.pattern ≡ current.verify.pattern

same_mode_iff : (a b : ScanMode) → (same_mode a b ≡ true) ↔ (a ≡ b)
same_mode_iff a b = ground arith

same_pattern_iff : (a b : PartialPattern) → (same_pattern a b ≡ true) ↔ (a ≡ b)
same_pattern_iff a b = ground arith

-- A session may be resumed exactly if the settings that its verdicts depend on are those of the run.
pub check_resume_compatible_iff :
    (saved current : ScanSettings)
    → ((check_resume_compatible saved current).ok ≡ true) ↔ IsCompatible saved current
unfolding check_resume_compatible
check_resume_compatible_iff saved current = (
  (λ h. record {
    mode = ground (arith, same_mode_iff saved.mode current.mode);
    case_sensitive = ground arith;
    backend = ground (arith, eqw_iff saved.backend current.backend);
    percent = ground arith;
    pattern = λ p. ground (arith, same_pattern_iff saved.verify.pattern current.verify.pattern);
  }),
  λ c. ground (
    arith,
    same_mode_iff saved.mode current.mode,
    c.mode,
    c.case_sensitive,
    c.backend,
    c.percent,
    c.pattern,
    eqw_iff saved.backend current.backend,
    same_pattern_iff saved.verify.pattern current.verify.pattern,
  ),
)
