-- ===== src/Map.antt =====
-- `std::unordered_map<std::wstring, V>` as an association list. An insertion at a new key stands
-- last; the program depends on no order of iteration, and sorts where one shows.
pub mod Laws
use check_sync_files.Common.{
  ℕ, suc, ◌+◌, ◌≡◌, Option, none, some, List, [], ◌∷◌, Bool, true, false, if◌then◌else◌,
}
use check_sync_files.Text.{WString, eqw}

abbrev pub Map {ℓ} : Type ℓ → Type ℓ
Map V = List (WString × V)

module _ {ℓ} {V : Type ℓ} where
  -- `find`.
  unfoldable pub lookup : WString → Map V → Option V
  lookup k [] = none
  lookup k ((j, v) ∷ m) = if eqw j k then some v else lookup k m

  -- `m[k] = v`, `emplace` at a new key, assignment through the iterator at a known one.
  unfoldable pub insert : WString → V → Map V → Map V
  insert k v [] = (k, v) ∷ []
  insert k v ((j, u) ∷ m) = if eqw j k then (j, v) ∷ m else (j, u) ∷ insert k v m

  -- `erase`.
  unfoldable pub erase : WString → Map V → Map V
  erase k [] = []
  erase k ((j, v) ∷ m) = if eqw j k then m else (j, v) ∷ erase k m

-- No key stands twice.
module _ {ℓ} {V : Type ℓ} where
  abbrev pub NodupKeys : Map V → Type ℓ
  NodupKeys [] = Unit
  NodupKeys ((k, v) ∷ m) = (lookup k m ≡ none) × NodupKeys m

  -- The sum of a measure over the values.
  abbrev pub total : (V → ℕ) → Map V → ℕ
  total f [] = 0
  total f ((k, v) ∷ m) = f v + total f m
