-- ===== src/Snapshot/Stream.antt =====
-- The `Writer` and the `Reader` of src/Filesystem/FileIndexSerializer.cpp: little-endian numbers
-- and strings with their length in front.
pub mod Laws
use check_sync_files.Common.{
  ◌&&◌, ℕ, zero, suc, ◌+◌, ◌*◌, ◌/◌, ◌%◌, Bool, true, false, List, [], ◌∷◌, ◌++◌, ◌⊎◌, inl, inr,
  ltb, not, ◌||◌, if◌then◌else◌, length,
}
use check_sync_files.Text.{Bytes}

-- `kMaxPathLen`.
abbrev pub max_path_len : ℕ
max_path_len = 16777216

-- The bytes that are left in the stream, and `valid`. A read that meets the end takes what is left.
pub record Reader : Type 0 where
  pub left : Bytes
  pub valid : Bool

-- `PutU8`, `PutU32` and `PutU64`, by the number of bytes.
unfoldable pub put_int : ℕ → ℕ → Bytes
put_int zero v = []
put_int (suc n) v = v % 256 ∷ put_int n (v / 256)

unfoldable pub put_str : Bytes → Bytes
put_str s = put_int 8 (length s) ++ s

-- The value of little-endian bytes.
unfoldable pub value_of : Bytes → ℕ
value_of [] = 0
value_of (b ∷ s) = b + 256 * value_of s

-- `in.read` of a number of bytes: those that were there, what is left, and whether all were there.
pub record Taken : Type 0 where
  pub got : Bytes
  pub left : Bytes
  pub whole : Bool

abbrev pub keep_byte : ℕ → Taken → Taken
keep_byte b t = record t { got = b ∷ t.got }

unfoldable pub take_bytes : ℕ → Bytes → Taken
take_bytes zero s = record { got = []; left = s; whole = true }
take_bytes (suc n) [] = record { got = []; left = []; whole = false }
take_bytes (suc n) (b ∷ s) = keep_byte b (take_bytes n s)

-- A reading step that may end the reading with an error.
abbrev pub Parse : Type 0 → Type 0 → Type 0
Parse E A = Reader → E ⊎ (A × Reader)

module _ {E : Type 0} where
  unfoldable pub parsed : {A : Type 0} → A → Parse E A
  parsed a r = inr (a, r)

  unfoldable pub refused : {A : Type 0} → E → Parse E A
  refused err r = inl err

  infixl 5 ◌>>=◌ ◌>>◌
  unfoldable pub ◌>>=◌ : {A B : Type 0} → Parse E A → (A → Parse E B) → Parse E B
  ◌>>=◌ m f r = elim (m r) [ inl err ↦ inl err | inr (a, r') ↦ f a r' ]

  unfoldable pub ◌>>◌ : {A B : Type 0} → Parse E A → Parse E B → Parse E B
  unfolding ◌>>=◌
  m >> k = m >>= λ _. k

  -- `in.read(p, n); if (!in) valid = false;`.
  unfoldable pub read : ℕ → Parse E Bytes
  unfolding take_bytes
  read n r =
      let t = take_bytes n r.left in
      inr (t.got, record { left = t.left; valid = r.valid && t.whole })

  -- `GetU8`, `GetU32` and `GetU64`: a number that is cut short has the value of its bytes.
  unfoldable pub get_int : ℕ → Parse E ℕ
  get_int n = do bytes ← read n; parsed (value_of bytes)

  -- `if (!valid)`.
  unfoldable pub require : E → Parse E (Unit {0})
  require err r = if r.valid then inr (tt, r) else inl err

  -- `GetBytes`, whose failure the caller reports as `err`.
  unfoldable pub get_bytes : ℕ → E → Parse E Bytes
  get_bytes n err = do bytes ← read n; require err; parsed bytes

  -- `GetStr`, likewise.
  unfoldable pub get_str : E → Parse E Bytes
  get_str err = do
    n ← get_int 8
    require err
    if ltb max_path_len n then refused err else get_bytes n err
