-- ===== src/Map/Laws.antt =====
-- Laws of the map operations.
use mathlib.Core.Path.{subst}
use check_sync_files.Common.{
  ℕ, ◌+◌, ◌≡◌, refl, sym, none, some, [], ◌∷◌, if◌then◌else◌, arith, All, inl, inr, Bool-cases,
}
use check_sync_files.Text.{WString, eqw}
use check_sync_files.Text.Laws.{eqw_iff}
use check_sync_files.Map.{Map, lookup, insert, erase, NodupKeys, total}

module _ {V : Type 0} where
  pub lookup-insert :
      (k j : WString) (v : V) (m : Map V)
      → lookup j (insert k v m) ≡ (if eqw k j then some v else lookup j m)
  unfolding lookup insert
  lookup-insert k j v [] = refl
  lookup-insert k j v ((i, u) ∷ m) =
      ground (arith, eqw_iff k j, eqw_iff i k, eqw_iff i j, lookup-insert k j v m)

  pub lookup-erase :
      (k j : WString) (m : Map V)
      → NodupKeys m
      → lookup j (erase k m) ≡ (if eqw k j then none else lookup j m)
  unfolding lookup erase
  lookup-erase k j [] h = ground arith
  lookup-erase k j ((i, u) ∷ m) h =
      ground (arith, eqw_iff k j, eqw_iff i k, eqw_iff i j, lookup-erase k j m h.1)

  pub insert-NodupKeys : (k : WString) (v : V) (m : Map V) → NodupKeys m → NodupKeys (insert k v m)
  unfolding insert lookup
  insert-NodupKeys k v [] h = (refl, tt)
  insert-NodupKeys k v ((i, u) ∷ m) h = elim (Bool-cases (eqw i k)) [
    | inl e ↦ rw e h
    | inr e ↦ rw e (
      ground (arith, lookup-insert k i v m, eqw_iff k i, eqw_iff i k),
      insert-NodupKeys k v m h.1,
    )
  ]

  pub erase-NodupKeys : (k : WString) (m : Map V) → NodupKeys m → NodupKeys (erase k m)
  unfolding erase
  erase-NodupKeys k [] h = tt
  erase-NodupKeys k ((i, u) ∷ m) h = elim (Bool-cases (eqw i k)) [
    | inl e ↦ rw e h.1
    | inr e ↦
        rw e (
          ground (arith, lookup-erase k i m h.1, eqw_iff k i, eqw_iff i k),
          erase-NodupKeys k m h.1,
        )
  ]

  pub insert-All :
      (P : WString × V → Type 0) (k : WString) (v : V) (m : Map V)
      → P (k, v)
      → All P m
      → All P (insert k v m)
  unfolding insert
  insert-All P k v [] h a = (h, tt)
  insert-All P k v ((i, u) ∷ m) h a = elim (Bool-cases (eqw i k)) [
    | inl e ↦ rw e (subst (λ j. P (j, v)) (sym ((eqw_iff i k).0 e)) h, a.1)
    | inr e ↦ rw e (a.0, insert-All P k v m h a.1)
  ]

  pub erase-All : (P : WString × V → Type 0) (k : WString) (m : Map V) → All P m → All P (erase k m)
  unfolding erase
  erase-All P k [] a = tt
  erase-All P k ((i, u) ∷ m) a = elim (Bool-cases (eqw i k)) [
    | inl e ↦ rw e a.1
    | inr e ↦ rw e (a.0, erase-All P k m a.1)
  ]

  pub lookup-All :
      (P : WString × V → Type 0) (k : WString) (m : Map V) {v : V}
      → All P m
      → lookup k m ≡ some v
      → P (k, v)
  unfolding lookup
  lookup-All P k [] a h = cc
  lookup-All P k ((i, u) ∷ m) {v} a h = elim (Bool-cases (eqw i k)) [
    | inl e ↦ subst (λ p. P p) (ground (arith, eqw_iff i k)) a.0
    | inr e ↦ lookup-All P k m a.1 (ground arith)
  ]

  pub total-insert_new :
      (f : V → ℕ) (k : WString) (v : V) (m : Map V)
      → lookup k m ≡ none
      → total f (insert k v m) ≡ total f m + f v
  unfolding insert lookup
  total-insert_new f k v [] h = omega arith
  total-insert_new f k v ((i, u) ∷ m) h = ground (arith, total-insert_new f k v m)

  pub total-insert_old :
      (f : V → ℕ) (k : WString) (v : V) (m : Map V) {u : V}
      → lookup k m ≡ some u
      → total f (insert k v m) + f u ≡ total f m + f v
  unfolding insert lookup
  total-insert_old f k v [] h = cc
  total-insert_old f k v ((i, t) ∷ m) {u = u} h = ground (arith, total-insert_old f k v m {u = u})

  pub total-erase :
      (f : V → ℕ) (k : WString) (m : Map V) {u : V}
      → lookup k m ≡ some u
      → total f (erase k m) + f u ≡ total f m
  unfolding erase lookup
  total-erase f k [] h = cc
  total-erase f k ((i, t) ∷ m) {u = u} h = ground (arith, total-erase f k m {u = u})
