-- ===== src/Text/Order.antt =====
-- The order of strings, sorting, and what a binary search for a prefix finds in a sorted vector.
use check_sync_files.Common.{
  ◌≡◌, ◌∙◌, refl, Bool, true, false, List, [], ◌∷◌, arith, inl, inr, Bool-cases, any, All, All-map,
}
use check_sync_files.Text.{
  WString, eqw, starts_with, ltw, lower_bound, insert_sorted, sort_strings, unique,
}
use check_sync_files.Text.Laws.{eqw_iff}

-- No later string is less than an earlier one.
abbrev pub Sorted : List WString → Type 0
Sorted [] = Unit
Sorted (x ∷ xs) = All (λ y. ltw y x ≡ false) xs × Sorted xs

pub ltw_le_trans : (x y z : WString) → ltw y x ≡ false → ltw z y ≡ false → ltw z x ≡ false
unfolding ltw
ltw_le_trans [] y z h k = refl
ltw_le_trans (a ∷ x) [] z h k = cc
ltw_le_trans (a ∷ x) (b ∷ y) [] h k = cc
ltw_le_trans (a ∷ x) (b ∷ y) (c ∷ z) h k = ground (arith, ltw_le_trans x y z)

pub ltw_asym : (x y : WString) → ltw x y ≡ true → ltw y x ≡ false
unfolding ltw
ltw_asym [] y h = refl
ltw_asym (a ∷ x) [] h = cc
ltw_asym (a ∷ x) (b ∷ y) h = ground (arith, ltw_asym x y)

module _ (P : WString → Type 0) where
  insert_sorted-All :
      (v : WString) (xs : List WString) → P v → All P xs → All P (insert_sorted v xs)
  unfolding insert_sorted
  insert_sorted-All v [] h k = (h, tt)
  insert_sorted-All v (x ∷ xs) h k = elim (Bool-cases (ltw x v)) [
    | inl e ↦ rw e (k.0, insert_sorted-All v xs h k.1)
    | inr e ↦ rw e (h, k)
  ]

  pub sort_strings-All : (xs : List WString) → All P xs → All P (sort_strings xs)
  unfolding sort_strings
  sort_strings-All [] h = tt
  sort_strings-All (x ∷ xs) h = insert_sorted-All x (sort_strings xs) h.0 (sort_strings-All xs h.1)

  pub unique-All : (xs : List WString) → All P xs → All P (unique xs)
  unfolding unique
  unique-All [] h = tt
  unique-All (x ∷ []) h = h
  unique-All (x ∷ y ∷ xs) h = elim (Bool-cases (eqw x y)) [
    | inl e ↦ rw e (unique-All (y ∷ xs) h.1)
    | inr e ↦ rw e (h.0, unique-All (y ∷ xs) h.1)
  ]

insert_sorted-Sorted : (v : WString) (xs : List WString) → Sorted xs → Sorted (insert_sorted v xs)
unfolding insert_sorted
insert_sorted-Sorted v [] h = (tt, tt)
insert_sorted-Sorted v (x ∷ xs) h = elim (Bool-cases (ltw x v)) [
  | inl e ↦ rw e (
    insert_sorted-All (λ y. ltw y x ≡ false) v xs (ltw_asym x v e) h.0,
    insert_sorted-Sorted v xs h.1,
  )
  | inr e ↦ rw e (
    (
      e,
      All-map (λ y. ltw y x ≡ false) (λ y. ltw y v ≡ false) xs (λ y le. ltw_le_trans v x y e le)
          h.0,
    ),
    h,
  )
]

pub sort_strings-Sorted : (xs : List WString) → Sorted (sort_strings xs)
unfolding sort_strings
sort_strings-Sorted [] = tt
sort_strings-Sorted (x ∷ xs) = insert_sorted-Sorted x (sort_strings xs) (sort_strings-Sorted xs)

-- A string with a prefix does not come before that prefix.
starts_with-ltw : (p x : WString) → starts_with p x ≡ true → ltw x p ≡ false
unfolding starts_with ltw
starts_with-ltw [] x h = refl
starts_with-ltw (c ∷ p) [] h = cc
starts_with-ltw (c ∷ p) (d ∷ x) h = ground (arith, starts_with-ltw p x)

-- What lies between a prefix and a string that has it has it too.
between_prefix :
    (p x y : WString)
    → ltw x p ≡ false
    → ltw y x ≡ false
    → starts_with p y ≡ true
    → starts_with p x ≡ true
unfolding starts_with ltw
between_prefix [] x y h k s = refl
between_prefix (c ∷ p) [] y h k s = cc
between_prefix (c ∷ p) (d ∷ x) [] h k s = cc
between_prefix (c ∷ p) (d ∷ x) (e ∷ y) h k s = ground (arith, between_prefix p x y)

-- Whether some string of a vector satisfies a test is unchanged by sorting it ...
any-insert_sorted :
    (p : WString → Bool) (v : WString) (xs : List WString)
    → any p (insert_sorted v xs) ≡ any p (v ∷ xs)
unfolding insert_sorted
any-insert_sorted p v [] = refl
any-insert_sorted p v (x ∷ xs) = ground (arith, any-insert_sorted p v xs)

pub any-sort_strings : (p : WString → Bool) (xs : List WString) → any p (sort_strings xs) ≡ any p xs
unfolding sort_strings
any-sort_strings p [] = refl
any-sort_strings p (x ∷ xs) = any-insert_sorted p x (sort_strings xs) ∙ rw (any-sort_strings p xs)

-- ... and by dropping equal neighbours.
pub any-unique : (p : WString → Bool) (xs : List WString) → any p (unique xs) ≡ any p xs
unfolding unique
any-unique p [] = refl
any-unique p (x ∷ []) = refl
any-unique p (x ∷ y ∷ xs) = ground (arith, any-unique p (y ∷ xs), eqw_iff x y)

pub unique-Sorted : (xs : List WString) → Sorted xs → Sorted (unique xs)
unfolding unique
unique-Sorted [] h = tt
unique-Sorted (x ∷ []) h = h
unique-Sorted (x ∷ y ∷ xs) h = elim (Bool-cases (eqw x y)) [
  | inl e ↦ rw e (unique-Sorted (y ∷ xs) h.1)
  | inr e ↦ rw e (unique-All (λ z. ltw z x ≡ false) (y ∷ xs) h.0, unique-Sorted (y ∷ xs) h.1)
]

-- `it != end && it->compare(0, prefix.size(), prefix) == 0`, at an iterator.
abbrev pub head_starts_with : WString → List WString → Bool
head_starts_with p [] = false
head_starts_with p (x ∷ xs) = starts_with p x

-- `it != end && *it == v`.
abbrev pub head_is : WString → List WString → Bool
head_is v [] = false
head_is v (x ∷ xs) = eqw x v

none_before :
    (p x : WString) (xs : List WString)
    → ltw x p ≡ false
    → All (λ y. ltw y x ≡ false) xs
    → starts_with p x ≡ false
    → any (starts_with p) xs ≡ false
none_before p x [] h k n = refl
none_before p x (y ∷ xs) h k n =
    ground (arith, between_prefix p x y h k.0, none_before p x xs h k.1 n)

-- In a sorted vector the search finds a string with a prefix exactly if there is one.
pub lower_bound-prefix :
    (p : WString) (xs : List WString)
    → Sorted xs
    → head_starts_with p (lower_bound xs p) ≡ any (starts_with p) xs
unfolding lower_bound
lower_bound-prefix p [] h = refl
lower_bound-prefix p (x ∷ xs) h = elim (Bool-cases (ltw x p)) [
  | inl e ↦ rw e (ground (arith, lower_bound-prefix p xs h.1, starts_with-ltw p x))
  | inr e ↦ rw e (ground (arith, none_before p x xs e h.0))
]

ltw_irrefl : (x : WString) → ltw x x ≡ false
unfolding ltw
ltw_irrefl [] = refl
ltw_irrefl (a ∷ x) = ground (arith, ltw_irrefl x)

ltw_antisym : (x y : WString) → ltw x y ≡ false → ltw y x ≡ false → x ≡ y
unfolding ltw
ltw_antisym [] [] h k = refl
ltw_antisym [] (b ∷ y) h k = cc
ltw_antisym (a ∷ x) [] h k = cc
ltw_antisym (a ∷ x) (b ∷ y) h k = ground (arith, ltw_antisym x y)

absent_before :
    (v x : WString) (xs : List WString)
    → ltw x v ≡ false
    → All (λ y. ltw y x ≡ false) xs
    → eqw x v ≡ false
    → any (λ y. eqw y v) xs ≡ false
absent_before v x [] h k n = refl
absent_before v x (y ∷ xs) h k n =
    ground (arith, eqw_iff x v, eqw_iff y v, ltw_antisym x v h, absent_before v x xs h k.1 n)

-- In a sorted vector the search finds a string exactly if it is there.
pub lower_bound-mem :
    (v : WString) (xs : List WString)
    → Sorted xs
    → head_is v (lower_bound xs v) ≡ any (λ y. eqw y v) xs
unfolding lower_bound
lower_bound-mem v [] h = refl
lower_bound-mem v (x ∷ xs) h = elim (Bool-cases (ltw x v)) [
  | inl e ↦ rw e (ground (arith, lower_bound-mem v xs h.1, eqw_iff x v, ltw_irrefl x))
  | inr e ↦ rw e (ground (arith, absent_before v x xs e h.0))
]
