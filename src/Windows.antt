-- ===== src/Windows.antt =====
-- What the program takes from Windows and from bcrypt: case mapping, UTF-8 conversion and SHA-256.
-- None of it is code of this repository, so it is a parameter of the model.
use check_sync_files.Common.{ℕ, ◌≡◌, Option, some, ◌∷◌, map}
use check_sync_files.Text.{WString, Bytes, backslash}

-- Each field is the result of the call, `none` where the call reports a failure (a length that is
-- not positive, or a status that is not success).
pub record Win : Type 0 where
  pub lc_map_upper : WString → Option WString
  pub wide_to_utf8 : WString → Option Bytes
  pub utf8_to_wide : Bytes → Option WString
  pub sha256 : Bytes → Option Bytes

-- `LCMapStringEx` with `LCMAP_UPPERCASE` and the invariant locale maps each code unit by a table,
-- in which the backslash stands for itself.
pub record IsCharwise (w : Win) : Type 0 where
  pub upper : ℕ → ℕ
  pub upper-backslash : upper backslash ≡ backslash
  pub lc_map_upper_lem : (c : ℕ) (s : WString) → w.lc_map_upper (c ∷ s) ≡ some (map upper (c ∷ s))
