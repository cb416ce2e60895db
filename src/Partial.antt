-- ===== src/Partial.antt =====
-- src/Hashing/PartialRead.cpp: which byte ranges of a file are read and hashed.
pub mod Laws
use check_sync_files.Common.{
  ℕ, ◌+◌, ◌*◌, ◌/◌, ◌%◌, Bool, true, false, if◌then◌else◌, leb, ◌==◌, u64_mod, ℤ, pos, at_least,
  clamp_one,
}
use check_sync_files.Entry.{PartialPattern, edges, center, random, inc64, add64, sub64}

pub record PartialReadPlan : Type 0 where
  pub off1 : ℕ
  pub len1 : ℕ
  pub off2 : ℕ
  pub len2 : ℕ
  pub is_full_read : Bool

pub record EffectiveVerify : Type 0 where
  pub percent : ℤ
  pub pattern : PartialPattern

-- `kPartialMib` and `kFullReadThreshold`.
abbrev pub partial_mib : ℕ
partial_mib = 1048576

abbrev pub full_read_threshold : ℕ
full_read_threshold = 2097152

-- 100 MiB.
abbrev pub percent_unit : ℕ
percent_unit = 104857600

abbrev mul64 : ℕ → ℕ → ℕ
mul64 a b = (a * b) % u64_mod

abbrev pub full_read : PartialReadPlan
full_read = record { off1 = 0; len1 = 0; off2 = 0; len2 = 0; is_full_read = true }

-- The number of blocks to read: the percentage of the size in MiB, rounded half up, at least one.
unfoldable pub target_blocks : ℕ → ℕ → ℕ
target_blocks size up =
    let q = size / percent_unit in
    let r = size % percent_unit in
    let target = add64 (mul64 q up) (add64 (mul64 r up) (percent_unit / 2) / percent_unit) in
    if target == 0 then 1 else target

-- The blocks of the whole file.
unfoldable pub whole_mibs : ℕ → ℕ
whole_mibs size = sub64 (add64 size partial_mib) 1 / partial_mib

unfoldable pub center_plan : ℕ → ℕ → PartialReadPlan
center_plan size target =
    let discard = sub64 (size / partial_mib) target in
    let before = inc64 discard / 2 in
    if leb (whole_mibs size) target then full_read else record {
      off1 = mul64 before partial_mib;
      len1 = mul64 target partial_mib;
      off2 = 0;
      len2 = 0;
      is_full_read = false;
    }

unfoldable pub edges_plan : ℕ → ℕ → PartialReadPlan
edges_plan size target =
    let head = inc64 target / 2 in
    let tail = target / 2 in
    let len2 = mul64 tail partial_mib in
    if leb (whole_mibs size) target then full_read else record {
      off1 = 0;
      len1 = mul64 head partial_mib;
      off2 = if tail == 0 then 0 else sub64 size len2;
      len2 = if tail == 0 then 0 else len2;
      is_full_read = false;
    }

-- `pattern == Random` falls back to `Edges`.
unfoldable pub plan_blocks : PartialPattern → ℕ → ℕ → PartialReadPlan
unfolding center_plan edges_plan
plan_blocks center size target = center_plan size target
plan_blocks edges size target = edges_plan size target
plan_blocks random size target = edges_plan size target

unfoldable pub compute_partial_read_plan : ℕ → ℤ → PartialPattern → PartialReadPlan
unfolding plan_blocks target_blocks whole_mibs
compute_partial_read_plan size percent pattern =
    if leb size full_read_threshold
    then full_read
    else if at_least 100 percent
    then full_read
    else plan_blocks pattern size (target_blocks size (clamp_one percent))

unfoldable pub effective_level : PartialReadPlan → ℤ → PartialPattern → EffectiveVerify
effective_level plan requested_percent resolved_pattern =
    if plan.is_full_read then record { percent = pos 100; pattern = edges } else record {
      percent = requested_percent;
      pattern = elim resolved_pattern [ edges ↦ edges | center ↦ center | random ↦ edges ];
    }
