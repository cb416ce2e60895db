-- ===== src/Sorting.antt =====
-- `std::sort` with a comparison that leaves ties: the model keeps tied elements in their order,
-- which is one of the results that the standard allows. The laws hold of every such result.
use check_sync_files.Common.{
  ℕ, ◌+◌, ◌≤◌, ◌≡◌, refl, Bool, List, [], ◌∷◌, ◌++◌, if◌then◌else◌, arith, All, All-map, All-append,
  inl, inr, Bool-cases, ltb,
}

module _ {ℓ} {A : Type ℓ} where
  unfoldable pub insert_by : (A → A → Bool) → A → List A → List A
  insert_by less x [] = x ∷ []
  insert_by less x (y ∷ ys) =
      let rest = insert_by less x ys in if less y x then y ∷ rest else x ∷ y ∷ ys

  unfoldable pub sort_by : (A → A → Bool) → List A → List A
  unfolding insert_by
  sort_by less [] = []
  sort_by less (x ∷ xs) = insert_by less x (sort_by less xs)

  -- The sum of a measure over a list.
  abbrev pub sum_of : (A → ℕ) → List A → ℕ
  sum_of f [] = 0
  sum_of f (x ∷ xs) = f x + sum_of f xs

  pub sum_of-append : (f : A → ℕ) (xs ys : List A) → sum_of f (xs ++ ys) ≡ sum_of f xs + sum_of f ys
  sum_of-append f [] ys = omega arith
  sum_of-append f (x ∷ xs) ys = omega (arith, sum_of-append f xs ys)

-- Every earlier element stands in a relation to every later one.
abbrev pub Pairwise : {A : Type 0} → (A → A → Type 0) → List A → Type 0
Pairwise R [] = Unit
Pairwise R (x ∷ xs) = All (R x) xs × Pairwise R xs

module _ {A : Type 0} (less : A → A → Bool) where
  pub sum_of-insert_by :
      (f : A → ℕ) (x : A) (xs : List A) → sum_of f (insert_by less x xs) ≡ f x + sum_of f xs
  unfolding insert_by
  sum_of-insert_by f x [] = refl
  sum_of-insert_by f x (y ∷ ys) = ground (arith, sum_of-insert_by f x ys)

  pub sum_of-sort_by : (f : A → ℕ) (xs : List A) → sum_of f (sort_by less xs) ≡ sum_of f xs
  unfolding sort_by
  sum_of-sort_by f [] = refl
  sum_of-sort_by f (x ∷ xs) =
      omega (arith, sum_of-insert_by f x (sort_by less xs), sum_of-sort_by f xs)

  insert_by-All :
      (P : A → Type 0) (x : A) (xs : List A) → P x → All P xs → All P (insert_by less x xs)
  unfolding insert_by
  insert_by-All P x [] h k = (h, tt)
  insert_by-All P x (y ∷ ys) h k = elim (Bool-cases (less y x)) [
    | inl e ↦ rw e (k.0, insert_by-All P x ys h k.1)
    | inr e ↦ rw e (h, k)
  ]

  pub sort_by-All : (P : A → Type 0) (xs : List A) → All P xs → All P (sort_by less xs)
  unfolding sort_by
  sort_by-All P [] h = tt
  sort_by-All P (x ∷ xs) h = insert_by-All P x (sort_by less xs) h.0 (sort_by-All P xs h.1)

-- With the comparison of a measure the result is in the order of that measure.
module _ {A : Type 0} (f : A → ℕ) where
  abbrev pub smaller : A → A → Bool
  smaller a b = ltb (f a) (f b)

  abbrev pub larger : A → A → Bool
  larger a b = ltb (f b) (f a)

  insert_smaller :
      (x : A) (xs : List A)
      → Pairwise (λ a b. f a ≤ f b) xs
      → Pairwise (λ a b. f a ≤ f b) (insert_by smaller x xs)
  unfolding insert_by
  insert_smaller x [] h = (tt, tt)
  insert_smaller x (y ∷ ys) h = elim (Bool-cases (smaller y x)) [
    | inl e ↦
        rw e
          (insert_by-All smaller (λ b. f y ≤ f b) x ys (ground arith) h.0, insert_smaller x ys h.1)
    | inr e ↦
        rw e (
          (ground arith, All-map (λ b. f y ≤ f b) (λ b. f x ≤ f b) ys (λ b k. ground arith) h.0),
          h,
        )
  ]

  pub sort_smaller : (xs : List A) → Pairwise (λ a b. f a ≤ f b) (sort_by smaller xs)
  unfolding sort_by
  sort_smaller [] = tt
  sort_smaller (x ∷ xs) = insert_smaller x (sort_by smaller xs) (sort_smaller xs)

  insert_larger :
      (x : A) (xs : List A)
      → Pairwise (λ a b. f b ≤ f a) xs
      → Pairwise (λ a b. f b ≤ f a) (insert_by larger x xs)
  unfolding insert_by
  insert_larger x [] h = (tt, tt)
  insert_larger x (y ∷ ys) h = elim (Bool-cases (larger y x)) [
    | inl e ↦
        rw e (insert_by-All larger (λ b. f b ≤ f y) x ys (ground arith) h.0, insert_larger x ys h.1)
    | inr e ↦
        rw e (
          (ground arith, All-map (λ b. f b ≤ f y) (λ b. f b ≤ f x) ys (λ b k. ground arith) h.0),
          h,
        )
  ]

  pub sort_larger : (xs : List A) → Pairwise (λ a b. f b ≤ f a) (sort_by larger xs)
  unfolding sort_by
  sort_larger [] = tt
  sort_larger (x ∷ xs) = insert_larger x (sort_by larger xs) (sort_larger xs)

pub Pairwise-append :
    {A : Type 0} (R : A → A → Type 0) (xs ys : List A)
    → Pairwise R xs
    → Pairwise R ys
    → All (λ x. All (R x) ys) xs
    → Pairwise R (xs ++ ys)
Pairwise-append R [] ys h k c = k
Pairwise-append R (x ∷ xs) ys h k c =
    (All-append (R x) xs ys h.0 c.0, Pairwise-append R xs ys h.1 k c.1)
