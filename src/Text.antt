-- ===== src/Text.antt =====
-- `std::wstring` as the list of its UTF-16 code units, with the tests of <string> that the program
-- uses: `==`, `<`, `compare(0, n, p) == 0`, and `std::lower_bound`, `std::sort` and `std::unique`
-- over vectors of strings. A `std::string` is the list of its bytes.
pub mod Order
pub mod Laws
use Prim.Native.Char.{code}
use Prim.Native.String.{String}
use check_sync_files.Common.{ℕ, Bool, true, false, ◌&&◌, List, [], ◌∷◌, ltb, ◌==◌, if◌then◌else◌}

abbrev pub WString : Type 0
WString = List ℕ

abbrev pub Bytes : Type 0
Bytes = List ℕ

-- A string literal of the source.
unfoldable pub lit : String → List ℕ
lit String.[] = []
lit (String.◌∷◌ c s) = code c ∷ lit s

-- The separator of canonical paths, U+005C.
abbrev pub backslash : ℕ
backslash = 92

abbrev pub slash : ℕ
slash = 47

abbrev pub dot : ℕ
dot = 46

abbrev pub colon : ℕ
colon = 58

abbrev pub empty : List ℕ → Bool
empty [] = true
empty (c ∷ s) = false

unfoldable pub eqw : List ℕ → List ℕ → Bool
eqw [] [] = true
eqw [] (b ∷ t) = false
eqw (a ∷ s) [] = false
eqw (a ∷ s) (b ∷ t) = a == b && eqw s t

-- `s.compare(0, p.size(), p) == 0`, also `s.rfind(p, 0) == 0`: the prefix stands first.
unfoldable pub starts_with : List ℕ → List ℕ → Bool
starts_with [] s = true
starts_with (p ∷ ps) [] = false
starts_with (p ∷ ps) (c ∷ s) = p == c && starts_with ps s

-- `operator<` of two strings.
unfoldable pub ltw : List ℕ → List ℕ → Bool
ltw s [] = false
ltw [] (b ∷ t) = true
ltw (a ∷ s) (b ∷ t) = if ltb a b then true else (a == b && ltw s t)

-- The part of a sorted vector from `std::lower_bound` on.
unfoldable pub lower_bound : List WString → WString → List WString
lower_bound [] v = []
lower_bound (x ∷ xs) v = let rest = lower_bound xs v in if ltw x v then rest else x ∷ xs

unfoldable pub insert_sorted : WString → List WString → List WString
insert_sorted v [] = v ∷ []
insert_sorted v (x ∷ xs) = let rest = insert_sorted v xs in if ltw x v then x ∷ rest else v ∷ x ∷ xs

-- `std::sort` with `operator<`, a total order: equal strings are alike, so the result is unique.
unfoldable pub sort_strings : List WString → List WString
unfolding insert_sorted
sort_strings [] = []
sort_strings (x ∷ xs) = insert_sorted x (sort_strings xs)

-- `std::unique` with `erase`: of equal neighbours one stays.
unfoldable pub unique : List WString → List WString
unique [] = []
unique (x ∷ []) = x ∷ []
unique (x ∷ y ∷ xs) = let rest = unique (y ∷ xs) in if eqw x y then rest else x ∷ rest
