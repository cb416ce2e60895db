-- ===== src/Numbers/Laws.antt =====
-- What src/Util/StrictNumbers.h accepts.
use check_sync_files.Common.{
  ℕ, ◌+◌, ◌*◌, ◌-◌, ◌≤◌, ◌<◌, ◌≡◌, refl, Bool, true, not, ◌&&◌, none, some, [], ◌∷◌, leb,
  if◌then◌else◌, arith, u64_mod,
}
use check_sync_files.Text.{WString, empty}
use check_sync_files.Numbers.{parse_digits, parse_uint64}

abbrev pub all_digits : WString → Bool
all_digits [] = true
all_digits (c ∷ s) = (leb 48 c && leb c 57) && all_digits s

-- The value of digits after a value, without bound.
abbrev pub value : ℕ → WString → ℕ
value v [] = v
value v (c ∷ s) = value (v * 10 + (c - 48)) s

value_grows : (v : ℕ) (s : WString) → v ≤ value v s
value_grows v [] = omega arith
value_grows v (c ∷ s) = omega (arith, value_grows (v * 10 + (c - 48)) s)

parse_digits_lem :
    (max v : ℕ) (s : WString)
    → 9 ≤ max
    → max < u64_mod
    → v ≤ max
    → parse_digits max v s
      ≡ (if all_digits s && leb (value v s) max then some (value v s) else none)
unfolding parse_digits
parse_digits_lem max v [] h k b = ground arith
parse_digits_lem max v (c ∷ s) h k b =
    let next = v * 10 + (c - 48) in
    ground (arith, parse_digits_lem max next s h k, value_grows next s)

-- With a bound from 9 up to below 2^64, a string is accepted exactly if it is not empty, all its
-- characters are decimal digits and its value, computed without bound, is at most the bound; the
-- result is that value, so no intermediate product wraps around.
pub parse_uint64_exact :
    (s : WString) (max : ℕ)
    → 9 ≤ max
    → max < u64_mod
    → parse_uint64 s max
      ≡ (if not (empty s) && (all_digits s && leb (value 0 s) max) then some (value 0 s) else none)
unfolding parse_uint64
parse_uint64_exact [] max h k = refl
parse_uint64_exact (c ∷ s) max h k = parse_digits_lem max 0 (c ∷ s) h k (omega arith)
