-- ===== src/Common/Int.antt =====
-- `int`: integers over the native numbers, as far as the sources compare them with small literals.
use Prim.Native.Nat.{ℕ}
use mathlib.Core.Bool.{Bool, false}
use check_sync_files.Common.Tests.{leb, if◌then◌else◌}

pub data ℤ : Type 0 where
  pos negsuc : ℕ → ℤ

-- `i >= n`, for a natural `n`.
abbrev pub at_least : ℕ → ℤ → Bool
at_least n (pos i) = leb n i
at_least n (negsuc i) = false

-- `if (i < 1) i = 1;` and the value as an unsigned number.
abbrev pub clamp_one : ℤ → ℕ
clamp_one (pos i) = if leb 1 i then i else 1
clamp_one (negsuc i) = 1
