-- ===== src/Snapshot/Stream/Laws.antt =====
-- What the readers of src/Filesystem/FileIndexSerializer.cpp get back of what its writers put.
use check_sync_files.Common.{
  ℕ, zero, suc, ◌*◌, ◌/◌, ◌≤◌, ◌<◌, ◌≡◌, refl, ap, sym, ◌∙◌, true, false, [], ◌∷◌, ◌++◌, inr, arith,
  ltb, length,
}
use mathlib.Core.List.{append_assoc}
use check_sync_files.Text.{Bytes}
use check_sync_files.Snapshot.Stream.{
  max_path_len, Reader, put_int, put_str, value_of, keep_byte, take_bytes, Parse, parsed, ◌>>=◌,
  ◌>>◌, read, get_int, require, get_bytes, get_str,
}

-- A stream that has not failed.
abbrev pub at : Bytes → Reader
at s = record { left = s; valid = true }

-- 256 to the power of the number of bytes.
abbrev pub width : ℕ → ℕ
width zero = 1
width (suc n) = 256 * width n

length-put_int : (n v : ℕ) → length (put_int n v) ≡ n
unfolding put_int
length-put_int zero v = refl
length-put_int (suc n) v = ap suc (length-put_int n (v / 256))

value_of-put_int : (n v : ℕ) → v < width n → value_of (put_int n v) ≡ v
unfolding put_int value_of
value_of-put_int zero v h = omega arith
value_of-put_int (suc n) v h = omega (arith, value_of-put_int n (v / 256) (omega arith))

take_bytes-append :
    (s rest : Bytes)
    → take_bytes (length s) (s ++ rest) ≡ record { got = s; left = rest; whole = true }
unfolding take_bytes
take_bytes-append [] rest = refl
take_bytes-append (b ∷ s) rest = ap (keep_byte b) (take_bytes-append s rest)

module _ {E : Type 0} where
  -- A step that succeeds hands its value on.
  pub >>=-step :
      {A B : Type 0} (m : Parse E A) (f : A → Parse E B) {r r' : Reader} {a : A}
      → m r ≡ inr (a, r')
      → (m >>= f) r ≡ f a r'
  unfolding ◌>>=◌
  >>=-step m f h = rw (h, ◌>>=◌)

  pub >>-step :
      {A B : Type 0} (m : Parse E A) (k : Parse E B) {r r' : Reader} {a : A}
      → m r ≡ inr (a, r')
      → (m >> k) r ≡ k r'
  unfolding ◌>>◌
  >>-step m k h = >>=-step m (λ _. k) h

  pub require-at : (err : E) (s : Bytes) → require err (at s) ≡ inr (tt, at s)
  unfolding require
  require-at err s = refl

  read-append :
      (n : ℕ) (s rest : Bytes) → length s ≡ n → read {E = E} n (at (s ++ rest)) ≡ inr (s, at rest)
  unfolding read
  read-append n s rest h = rw (sym h, take_bytes-append s rest) refl

  pub get_bytes-append :
      (n : ℕ) (err : E) (s rest : Bytes)
      → length s ≡ n
      → get_bytes n err (at (s ++ rest)) ≡ inr (s, at rest)
  unfolding get_bytes parsed
  get_bytes-append n err s rest h =
      >>=-step _ _ (read-append n s rest h) ∙ >>-step _ _ (require-at err rest)

  pub get_int-put_int :
      (n v : ℕ) (rest : Bytes)
      → v < width n
      → get_int {E = E} n (at (put_int n v ++ rest)) ≡ inr (v, at rest)
  unfolding get_int parsed
  get_int-put_int n v rest h =
      >>=-step _ _ (read-append n (put_int n v) rest (length-put_int n v))
      ∙ ap (λ x. inr (x, at rest)) (value_of-put_int n v h)

  pub get_str-put_str :
      (err : E) (s rest : Bytes)
      → length s ≤ max_path_len
      → get_str err (at (put_str s ++ rest)) ≡ inr (s, at rest)
  unfolding get_str put_str
  get_str-put_str err s rest h =
      let small : ltb max_path_len (length s) ≡ false = ground arith in
      rw (append_assoc (put_int 8 (length s)) s rest) (
        >>=-step _ _ (get_int-put_int 8 (length s) (s ++ rest) (omega arith))
        ∙ (>>-step _ _ (require-at err (s ++ rest))
            ∙ rw small (get_bytes-append (length s) err s rest refl)))
