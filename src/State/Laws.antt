-- ===== src/State/Laws.antt =====
-- Reasoning on actions: what an action keeps true of the state, and what it returns.
use check_sync_files.Common.{◌≡◌, refl, Bool, inl, inr, true, false}
use check_sync_files.Text.{WString}
use check_sync_files.State.{Action, Attempt, pure, ◌>>=◌, ◌>>◌, choose, attempt, branch}

-- From a state with `I`, the action returns a value with `P`, in a state with `I`.
pub record Ensures {S A : Type 0} (I : S → Type 0) (P : A → Type 0) (m : Action S A) : Type 0 where
  pub returns : (s : S) → I s → P ((m s).0)
  pub keeps : (s : S) → I s → I ((m s).1)

-- Nothing is said of the value.
abbrev pub Anything : {A : Type 0} → A → Type 0
Anything a = Unit {0}

module _ {S : Type 0} {I : S → Type 0} where
  pub pure-Ensures : {A : Type 0} {P : A → Type 0} (a : A) → P a → Ensures I P (pure a)
  unfolding pure
  pure-Ensures a p = record { returns = λ s i. p; keeps = λ s i. i }

  pub >>=-Ensures :
      {A B : Type 0} {Q : A → Type 0} {P : B → Type 0} {m : Action S A} {f : A → Action S B}
      → Ensures I Q m
      → ((a : A) → Q a → Ensures I P (f a))
      → Ensures I P (m >>= f)
  unfolding ◌>>=◌
  >>=-Ensures {m = m} h k = record {
    returns = λ s i. (k ((m s).0) (h.returns s i)).returns ((m s).1) (h.keeps s i);
    keeps = λ s i. (k ((m s).0) (h.returns s i)).keeps ((m s).1) (h.keeps s i);
  }

  pub >>-Ensures :
      {A B : Type 0} {Q : A → Type 0} {P : B → Type 0} {m : Action S A} {k : Action S B}
      → Ensures I Q m
      → Ensures I P k
      → Ensures I P (m >> k)
  unfolding ◌>>◌
  >>-Ensures h k = >>=-Ensures h λ _ _. k

  pub attempt-Ensures :
      {A : Type 0} {P : A → Type 0} {m : Attempt S} {f : WString → Action S A} {k : Action S A}
      → Ensures I Anything m
      → ((err : WString) → Ensures I P (f err))
      → Ensures I P k
      → Ensures I P (attempt m f k)
  unfolding attempt
  attempt-Ensures {P = P} {f = f} {k = k} h on_failure rest =
      >>=-Ensures h λ r _. elim r as (λ x. Ensures I P (choose f k x)) [
        | inl err ↦ on_failure err
        | inr _ ↦ rest
      ]

  pub branch-Ensures :
      {A : Type 0} {P : A → Type 0} (b : Bool) {m k : Action S A}
      → Ensures I P m
      → Ensures I P k
      → Ensures I P (branch b m k)
  unfolding branch
  branch-Ensures true h h' = h
  branch-Ensures false h h' = h'

  -- Each branch under its test.
  pub branch_split :
      {A : Type 0} {P : A → Type 0} (b : Bool) {m k : Action S A}
      → (b ≡ true → Ensures I P m)
      → (b ≡ false → Ensures I P k)
      → Ensures I P (branch b m k)
  unfolding branch
  branch_split true h h' = h refl
  branch_split false h h' = h' refl
