-- ===== src/Classify/OneMore.antt =====
-- Lists of counters of which one grows by one, for the counters of src/Comparison/ClassifyUtil.cpp.
use check_sync_files.Common.{
  ℕ, ◌+◌, ◌≤◌, ◌≡◌, refl, List, [], ◌∷◌, ◌⊎◌, inl, inr, arith, ◌==◌, Bool-cases,
}

-- The second list is the first one with one of its numbers greater by one.
abbrev pub OneMore : List ℕ → List ℕ → Type 0
OneMore [] _ = ⊥
OneMore (n ∷ ns) [] = ⊥
OneMore (n ∷ ns) (m ∷ ms) = ((m ≡ n + 1) × (ms ≡ ns)) ⊎ ((m ≡ n) × OneMore ns ms)

abbrev pub AtLeast : List ℕ → List ℕ → Type 0
AtLeast [] [] = Unit {0}
AtLeast [] (m ∷ ms) = ⊥
AtLeast (n ∷ ns) [] = ⊥
AtLeast (n ∷ ns) (m ∷ ms) = (n ≤ m) × AtLeast ns ms

abbrev pub sum : List ℕ → ℕ
sum [] = 0
sum (n ∷ ns) = n + sum ns

AtLeast-sum : (ns ms : List ℕ) → AtLeast ns ms → sum ns ≤ sum ms
AtLeast-sum [] [] h = omega arith
AtLeast-sum [] (m ∷ ms) h = elim h [ ]
AtLeast-sum (n ∷ ns) [] h = elim h [ ]
AtLeast-sum (n ∷ ns) (m ∷ ms) h = omega (arith, h.0, AtLeast-sum ns ms h.1)

AtLeast-equal : (ns ms : List ℕ) → AtLeast ns ms → sum ms ≡ sum ns → ms ≡ ns
AtLeast-equal [] [] h e = refl
AtLeast-equal [] (m ∷ ms) h e = elim h [ ]
AtLeast-equal (n ∷ ns) [] h e = elim h [ ]
AtLeast-equal (n ∷ ns) (m ∷ ms) h e =
    let more = AtLeast-sum ns ms h.1 in
    let same : m ≡ n = omega (arith, h.0, more, e) in
    let rest : ms ≡ ns = AtLeast-equal ns ms h.1 (omega (arith, h.0, more, e)) in cc

-- Numbers that do not fall, and of which the sum grows by one: one of them grows by one.
pub AtLeast-OneMore : (ns ms : List ℕ) → AtLeast ns ms → sum ms ≡ sum ns + 1 → OneMore ns ms
AtLeast-OneMore [] [] h e = absurd (omega (arith, e))
AtLeast-OneMore [] (m ∷ ms) h e = elim h [ ]
AtLeast-OneMore (n ∷ ns) [] h e = elim h [ ]
AtLeast-OneMore (n ∷ ns) (m ∷ ms) h e =
    let more = AtLeast-sum ns ms h.1 in
    elim (Bool-cases (m == n)) [
      | inl t ↦ inr (ground arith, AtLeast-OneMore ns ms h.1 (ground (arith, h.0, more, e)))
      | inr f ↦
          inl (ground (arith, h.0, more, e), AtLeast-equal ns ms h.1 (ground (arith, h.0, more, e)))
    ]
