-- ===== src/Reparse/Payload/Bounds.antt =====
-- What `ParseReparsePayload` of src/Filesystem/ReparsePoint.cpp reads of a reparse buffer.
use mathlib.Core.Path.{subst}
use check_sync_files.Snapshot.Stream.{value_of}
use check_sync_files.Common.{
  not_flip, sym, ◌∙◌, ◌⊎◌, ℕ, zero, suc, ◌+◌, ◌-◌, ◌*◌, ◌/◌, ◌%◌, ◌≤◌, ◌≡◌, refl, Bool, true, not,
  some, List, [], ◌∷◌, ltb, ◌==◌, if◌then◌else◌, length, drop, take, arith, Bool-cases, inl, inr,
  if_split,
}
use check_sync_files.Text.{WString, Bytes, starts_with}
use check_sync_files.Entry.{ReparseKind}
use check_sync_files.Reparse.Payload.{
  nt_prefix, slice_in_range, ranges_valid, units, slice, extract_target, read_u16, Payload,
  parse_names, parse_reparse_payload, symlink_tag, mount_tag,
}

length-units : (s : Bytes) → length (units s) ≡ length s / 2
unfolding units
length-units [] = refl
length-units (a ∷ []) = refl
length-units (a ∷ b ∷ s) = omega (arith, length-units s)

length-take : (n : ℕ) (s : List ℕ) → n ≤ length s → length (take n s) ≡ n
length-take zero s h = refl
length-take (suc n) [] h = omega arith
length-take (suc n) (c ∷ s) h = omega (arith, length-take n s (omega arith))

length-drop : (n : ℕ) (s : List ℕ) → length (drop n s) ≡ length s - n
length-drop zero s = omega arith
length-drop (suc n) [] = omega arith
length-drop (suc n) (c ∷ s) = omega (arith, length-drop n s)

-- The bytes in front of the names, by the tag.
abbrev pub header_size : Bytes → ℕ
header_size buf = if value_of (take 4 buf) == symlink_tag then 20 else 16

-- The name whose offset and length (in bytes) stand at the two places lies within the buffer.
abbrev pub Fits : Bytes → ℕ → ℕ → Type 0
Fits buf off len =
    (header_size buf + read_u16 buf off + read_u16 buf len ≤ length buf)
    × (read_u16 buf off % 2 ≡ 0)
    × (read_u16 buf len % 2 ≡ 0)

-- The name that is read: the substitute name, or the print name where that one is empty.
abbrev pub name_offset : Bytes → ℕ
name_offset buf = if ltb 0 (read_u16 buf 10) then read_u16 buf 8 else read_u16 buf 12

abbrev pub name_length : Bytes → ℕ
name_length buf = if ltb 0 (read_u16 buf 10) then read_u16 buf 10 else read_u16 buf 14

abbrev pub name_of : Bytes → WString
name_of buf = slice (units (drop (header_size buf) buf)) (name_offset buf) (name_length buf)

-- A link's buffer with both names inside, and a target that is the whole of the name to read, without
-- a `\??\` in front.
pub record IsWithin (buf : Bytes) (target : WString) : Type 0 where
  pub tagged : (value_of (take 4 buf) ≡ symlink_tag) ⊎ (value_of (take 4 buf) ≡ mount_tag)
  pub header : header_size buf ≤ length buf
  pub substitute : Fits buf 8 10
  pub print : Fits buf 12 14
  pub whole : length (name_of buf) * 2 ≡ name_length buf
  pub stripped :
      target ≡ (if starts_with nt_prefix (name_of buf) then drop 4 (name_of buf) else name_of buf)

slice_in_range-parts :
    (base off len bytes : ℕ)
    → slice_in_range base off len bytes ≡ true
    → (base + off + len ≤ bytes) × (off % 2 ≡ 0) × (len % 2 ≡ 0)
unfolding slice_in_range
slice_in_range-parts base off len bytes h = ground arith

length-slice :
    (base off len : ℕ) (buf : Bytes)
    → base + off + len ≤ length buf
    → off % 2 ≡ 0
    → len % 2 ≡ 0
    → length (slice (units (drop base buf)) off len) * 2 ≡ len
unfolding slice
length-slice base off len buf h o l = omega (
  arith,
  length-take (len / 2) (drop (off / 2) (units (drop base buf))) (
      omega (
        arith,
        length-drop (off / 2) (units (drop base buf)),
        length-units (drop base buf),
        length-drop base buf,
      )),
)

ranges_valid-Fits :
    (buf : Bytes)
    → ranges_valid
        (header_size buf)
        (length buf)
        (read_u16 buf 8)
        (read_u16 buf 10)
        (read_u16 buf 12)
        (read_u16 buf 14)
      ≡ true
    → Fits buf 8 10 × Fits buf 12 14
unfolding ranges_valid
ranges_valid-Fits buf h = (
  slice_in_range-parts (header_size buf) (read_u16 buf 8) (read_u16 buf 10) (length buf)
      (ground arith),
  slice_in_range-parts (header_size buf) (read_u16 buf 12) (read_u16 buf 14) (length buf)
      (ground arith),
)

name_of-whole :
    (buf : Bytes) → Fits buf 8 10 → Fits buf 12 14 → length (name_of buf) * 2 ≡ name_length buf
name_of-whole buf (i, o, l) (i', o', l') = elim (Bool-cases (ltb 0 (read_u16 buf 10))) [
  | inl t ↦ rw t (length-slice (header_size buf) (read_u16 buf 8) (read_u16 buf 10) buf i o l)
  | inr f ↦ rw f (length-slice (header_size buf) (read_u16 buf 12) (read_u16 buf 14) buf i' o' l')
]

extract_target-name :
    (buf : Bytes)
    → extract_target
        (units (drop (header_size buf) buf))
        (read_u16 buf 8)
        (read_u16 buf 10)
        (read_u16 buf 12)
        (read_u16 buf 14)
      ≡ (if starts_with nt_prefix (name_of buf) then drop 4 (name_of buf) else name_of buf)
unfolding extract_target
extract_target-name buf = elim (Bool-cases (ltb 0 (read_u16 buf 10))) [
  | inl t ↦ rw t refl
  | inr f ↦ rw f refl
]

some_injective : {s t : WString} → some s ≡ some t → s ≡ t
some_injective e = ground arith

-- A payload with a target has one that lies in the buffer.
record Holds (buf : Bytes) (p : Payload) : Type 0 where
  within : (t : WString) → p.target ≡ some t → IsWithin buf t

header_names-Holds :
    (buf : Bytes) (kind : ReparseKind) (truncated : WString)
    → (value_of (take 4 buf) ≡ symlink_tag) ⊎ (value_of (take 4 buf) ≡ mount_tag)
    → Holds buf (parse_names buf (header_size buf) kind truncated)
unfolding parse_names
header_names-Holds buf kind truncated tagged =
    if_split (Holds buf) (ltb (length buf) (header_size buf)) (λ _. record { within = λ t e. cc })
      (λ full.
        if_split (Holds buf)
          (not (
            ranges_valid (header_size buf) (length buf) (read_u16 buf 8) (read_u16 buf 10)
              (read_u16 buf 12) (read_u16 buf 14)))
          (λ _. record { within = λ t e. cc })
          (λ f.
            let (sub, print) = ranges_valid-Fits buf (not_flip f) in
            record {
              within = λ t e. record {
                tagged = tagged;
                header = ground arith;
                substitute = sub;
                print = print;
                whole = name_of-whole buf sub print;
                stripped = sym (some_injective e) ∙ extract_target-name buf;
              };
            }))

parse_names-Holds :
    (buf : Bytes) (fixed : ℕ) (kind : ReparseKind) (truncated : WString)
    → (value_of (take 4 buf) ≡ symlink_tag) ⊎ (value_of (take 4 buf) ≡ mount_tag)
    → header_size buf ≡ fixed
    → Holds buf (parse_names buf fixed kind truncated)
parse_names-Holds buf fixed kind truncated tagged e =
    subst (λ n. Holds buf (parse_names buf n kind truncated)) e
      (header_names-Holds buf kind truncated tagged)

parse_reparse_payload-Holds :
    (buf : Bytes) (is_directory : Bool) → Holds buf (parse_reparse_payload buf is_directory)
unfolding parse_reparse_payload
parse_reparse_payload-Holds buf is_directory =
    let tag = value_of (take 4 buf) in
    if_split (Holds buf) (ltb (length buf) 4) (λ _. record { within = λ t e. cc })
      (λ _.
        if_split (Holds buf) (tag == symlink_tag)
          (λ is. parse_names-Holds buf 20 _ _ (inl (ground arith)) (rw is refl))
          (λ isnt.
            if_split (Holds buf) (tag == mount_tag)
              (λ is. parse_names-Holds buf 16 _ _ (inr (ground arith)) (rw isnt refl))
              (λ _. record { within = λ t e. cc })))

-- Whatever the bytes of a reparse buffer are, the decoder gives back a target only of a symlink or
-- junction tag, of a whole header, and when both names, at the offsets and with the lengths that the
-- header holds, lie behind the header and within the buffer, all four numbers being even. The target
-- is then the whole substitute name (the print name where that is empty), without a `\??\` in front.
pub parse_reparse_payload-IsWithin :
    (buf : Bytes) (is_directory : Bool) (target : WString)
    → (parse_reparse_payload buf is_directory).target ≡ some target
    → IsWithin buf target
parse_reparse_payload-IsWithin buf is_directory target h =
    (parse_reparse_payload-Holds buf is_directory).within target h
