-- ===== src/Partial/Laws.antt =====
-- The ranges that src/Hashing/PartialRead.cpp plans, against the size of the file.
use check_sync_files.Common.{
  ℕ, zero, suc, ◌+◌, ◌*◌, ◌/◌, ◌%◌, ◌≤◌, ◌<◌, ◌≡◌, ◌⊎◌, inl, inr, true, false, if◌then◌else◌, leb,
  ◌==◌, u64_mod, ℤ, at_least, clamp_one, ap, if_split, arith, refl, Bool-cases,
}
use check_sync_files.Entry.{PartialPattern, edges, center, random}
use check_sync_files.Partial.{
  PartialReadPlan, partial_mib, percent_unit, full_read, target_blocks, whole_mibs, center_plan,
  edges_plan, plan_blocks, compute_partial_read_plan,
}

-- A full read, or blocks within the file that do not overlap and hold `target` MiB, less than it.
pub record IsSample (size target : ℕ) (p : PartialReadPlan) : Type 0 where
  pub inside1 : p.off1 + p.len1 ≤ size
  pub inside2 : p.off2 + p.len2 ≤ size
  pub disjoint : (p.len2 ≡ 0) ⊎ (p.off1 + p.len1 ≤ p.off2)
  pub amount : (p.is_full_read ≡ true) ⊎ (p.len1 + p.len2 ≡ target * partial_mib)
  pub partial : (p.is_full_read ≡ true) ⊎ (p.len1 + p.len2 < size)

full_read-IsSample : (size target : ℕ) → IsSample size target full_read
full_read-IsSample size target = record {
  inside1 = omega arith;
  inside2 = omega arith;
  disjoint = inl refl;
  amount = inl refl;
  partial = inl refl;
}

-- Fewer blocks than the file has: they fit it, whatever the wrap-around of the sum.
below_whole :
    (size target : ℕ)
    → size < u64_mod
    → leb (whole_mibs size) target ≡ false
    → target * partial_mib < size
unfolding whole_mibs
below_whole size target s h = ground arith

center_plan-IsSample :
    (size target : ℕ) → size < u64_mod → IsSample size target (center_plan size target)
unfolding center_plan
center_plan-IsSample size target s =
    if_split (IsSample size target) (leb (whole_mibs size) target)
      (λ _. full_read-IsSample size target)
      λ h.
        let fits = below_whole size target s h in
        record {
          inside1 = omega arith;
          inside2 = omega arith;
          disjoint = inl refl;
          amount = inr (omega arith);
          partial = inr (omega arith);
        }

edges_plan-IsSample :
    (size target : ℕ) → size < u64_mod → IsSample size target (edges_plan size target)
unfolding edges_plan
edges_plan-IsSample size target s =
    if_split (IsSample size target) (leb (whole_mibs size) target)
      (λ _. full_read-IsSample size target)
      λ h.
        let fits = below_whole size target s h in
        record {
          inside1 = omega arith;
          inside2 = ground arith;
          disjoint = elim (Bool-cases (target / 2 == 0)) [
            | inl e ↦ inl (rw e refl)
            | inr e ↦ inr (rw e (ground arith))
          ];
          amount = inr (ground arith);
          partial = inr (ground arith);
        }

plan_blocks-IsSample :
    (pattern : PartialPattern) (size target : ℕ)
    → size < u64_mod
    → IsSample size target (plan_blocks pattern size target)
unfolding plan_blocks
plan_blocks-IsSample center size target s = center_plan-IsSample size target s
plan_blocks-IsSample edges size target s = edges_plan-IsSample size target s
plan_blocks-IsSample random size target s = edges_plan-IsSample size target s

-- For a size below 2^64 a plan of `ComputePartialReadPlan` reads the whole file, or it reads one or two ranges that lie
-- within the file and do not overlap, and that hold as many MiB as the target, less than the file.
pub compute_partial_read_plan-IsSample :
    (size : ℕ) (percent : ℤ) (pattern : PartialPattern)
    → size < u64_mod
    → IsSample size
        (target_blocks size (clamp_one percent))
        (compute_partial_read_plan size percent pattern)
unfolding compute_partial_read_plan
compute_partial_read_plan-IsSample size percent pattern s =
    let target = target_blocks size (clamp_one percent) in
    if_split (IsSample size target) (leb size 2097152) (λ _. full_read-IsSample size target)
      λ _.
        if_split (IsSample size target) (at_least 100 percent) (λ _. full_read-IsSample size target)
          λ _. plan_blocks-IsSample pattern size target s

mul_le : (a b n : ℕ) → b ≤ n → a * b ≤ a * n
mul_le zero b n h = omega arith
mul_le (suc a) b n h = omega (arith, mul_le a b n h, h)

split_product : (q r u d : ℕ) → (q * d + r) * u ≡ (q * u) * d + r * u
split_product q r u d = grind arith

split_size :
    (size up : ℕ) → size * up ≡ (size / percent_unit * percent_unit + size % percent_unit) * up
split_size size up = ap (λ s. s * up) (omega arith)

-- For a size below 2^64 and at most 100 percent, the split that keeps every intermediate result
-- below 2^64 computes the exact value: the size times
-- the percentage over 100 MiB, rounded half up, and 1 in place of 0.
pub target_blocks-exact :
    (size up : ℕ)
    → size < u64_mod
    → up ≤ 100
    → let exact = (size * up + percent_unit / 2) / percent_unit in
      target_blocks size up ≡ (if exact == 0 then 1 else exact)
unfolding target_blocks
target_blocks-exact size up s u =
    let q = size / percent_unit in
    let r = size % percent_unit in
    ground (
      arith,
      mul_le q up 100 u,
      mul_le r up 100 u,
      split_product q r up percent_unit,
      split_size size up,
    )
