-- ===== src/State.antt =====
-- Code that reads and changes the state of the machine it runs on, as a function of that state.
-- Nothing in it is code of the program: it is the notation for the files that call Windows.
pub mod Laws
use check_sync_files.Common.{Bool, true, false, ◌⊎◌, inl, inr}
use check_sync_files.Text.{WString}

abbrev pub Action : Type 0 → Type 0 → Type 0
Action S A = S → A × S

-- A function that returns `true`, or `false` with an error text in its last parameter.
abbrev pub Attempt : Type 0 → Type 0
Attempt S = Action S (WString ⊎ Unit {0})

unfoldable pub pure : {S A : Type 0} → A → Action S A
pure a s = (a, s)

infixl 5 ◌>>=◌ ◌>>◌
unfoldable pub ◌>>=◌ : {S A B : Type 0} → Action S A → (A → Action S B) → Action S B
◌>>=◌ m f s = let (a, s') = m s in f a s'

unfoldable pub ◌>>◌ : {S A B : Type 0} → Action S A → Action S B → Action S B
unfolding ◌>>=◌
m >> k = m >>= λ _. k

abbrev pub succeed : {S : Type 0} → Attempt S
succeed = pure (inr tt)

abbrev pub refuse : {S : Type 0} → WString → Attempt S
refuse why = pure (inl why)

-- `if (!m(err)) { on_failure } else { k }`.
abbrev pub choose :
    {S A : Type 0} → (WString → Action S A) → Action S A → WString ⊎ Unit {0} → Action S A
choose on_failure k (inl err) = on_failure err
choose on_failure k (inr _) = k

unfoldable pub attempt :
    {S A : Type 0} → Attempt S → (WString → Action S A) → Action S A → Action S A
attempt m on_failure k = m >>= choose on_failure k

-- `if (b) { m } else { k }`.
unfoldable pub branch : {S A : Type 0} → Bool → Action S A → Action S A → Action S A
branch true m k = m
branch false m k = k
