-- ===== src/Numbers.antt =====
-- src/Util/StrictNumbers.h: decimal numbers with an upper bound.
pub mod Laws
use check_sync_files.Common.{
  ℕ, zero, suc, ◌+◌, ◌*◌, ◌/◌, ◌-◌, ◌%◌, ◌||◌, Option, none, some, [], ◌∷◌, ltb, if◌then◌else◌,
  u64_mod,
}
use check_sync_files.Text.{WString}
use check_sync_files.Entry.{add64, sub64}

-- The loop: `v` is the value of the digits read so far.
unfoldable pub parse_digits : ℕ → ℕ → WString → Option ℕ
parse_digits max v [] = some v
parse_digits max v (c ∷ s) =
    let d = c - 48 in
    let rest = parse_digits max (add64 (v * 10 % u64_mod) d) s in
    if ltb c 48 || ltb 57 c then none else if ltb (sub64 max d / 10) v then none else rest

-- `ParseUInt64`: the value that is written to `out`, or a refusal.
unfoldable pub parse_uint64 : WString → ℕ → Option ℕ
unfolding parse_digits
parse_uint64 [] max = none
parse_uint64 (c ∷ s) max = parse_digits max 0 (c ∷ s)

-- `kMaxThreads`.
abbrev pub max_threads : ℕ
max_threads = 4096

unfoldable pub parse_thread_count : WString → Option ℕ
unfolding parse_uint64
parse_thread_count s = parse_uint64 s max_threads

-- `std::to_wstring` of a number below 10 to the power of the fuel.
unfoldable pub decimal : ℕ → ℕ → WString → WString
decimal zero n acc = acc
decimal (suc fuel) n acc =
    let rest = decimal fuel (n / 10) ((48 + n % 10) ∷ acc) in
    if ltb n 10 then (48 + n % 10) ∷ acc else rest

-- `std::to_wstring(uint64_t)`: at most 20 digits.
unfoldable pub to_wstring : ℕ → WString
unfolding decimal
to_wstring n = decimal 20 n []
