-- ===== src/Text/Laws.antt =====
-- Equality and prefixes of strings.
use check_sync_files.Common.{ℕ, ◌≤◌, ◌≡◌, ◌↔◌, refl, true, List, [], ◌∷◌, ◌++◌, arith, length}
use check_sync_files.Text.{eqw, starts_with}

pub eqw_refl : (s : List ℕ) → eqw s s ≡ true
unfolding eqw
eqw_refl [] = refl
eqw_refl (a ∷ s) = ground (arith, eqw_refl s)

pub eqw→eq : (s t : List ℕ) → eqw s t ≡ true → s ≡ t
unfolding eqw
eqw→eq [] [] h = refl
eqw→eq [] (b ∷ t) h = cc
eqw→eq (a ∷ s) [] h = cc
eqw→eq (a ∷ s) (b ∷ t) h = ground (arith, eqw→eq s t)

pub eqw_iff : (s t : List ℕ) → (eqw s t ≡ true) ↔ (s ≡ t)
eqw_iff s t = (eqw→eq s t, λ e. rw e (eqw_refl t))

pub starts_with-append : (p s : List ℕ) → starts_with p (p ++ s) ≡ true
unfolding starts_with
starts_with-append [] s = refl
starts_with-append (c ∷ p) s = ground (arith, starts_with-append p s)

pub starts_with-length : (p s : List ℕ) → starts_with p s ≡ true → length p ≤ length s
unfolding starts_with
starts_with-length [] s h = omega arith
starts_with-length (c ∷ p) [] h = cc
starts_with-length (c ∷ p) (d ∷ s) h = ground (arith, starts_with-length p s)

pub starts_with-append_left :
    (p q s : List ℕ) → starts_with (p ++ q) s ≡ true → starts_with p s ≡ true
unfolding starts_with
starts_with-append_left [] q s h = refl
starts_with-append_left (c ∷ p) q [] h = cc
starts_with-append_left (c ∷ p) q (d ∷ s) h = ground (arith, starts_with-append_left p q s)
