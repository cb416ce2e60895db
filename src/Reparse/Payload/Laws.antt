-- ===== src/Reparse/Payload/Laws.antt =====
-- What src/Filesystem/ReparsePoint.cpp reads from a reparse buffer.
use check_sync_files.Common.{
  ℕ, ◌+◌, ◌*◌, ◌/◌, ◌%◌, ◌≤◌, ◌<◌, ◌≡◌, refl, ap, ◌∙◌, Bool, true, false, some, [], ◌∷◌, ◌++◌, ltb,
  length, length-append, drop, take, All, arith,
}
use check_sync_files.Text.{WString, Bytes, lit}
use check_sync_files.Text.Laws.{starts_with-append}
use check_sync_files.Entry.{ReparseKind, junction}
use check_sync_files.Snapshot.Stream.{put_int, value_of}
use check_sync_files.Reparse.Payload.{
  nt_prefix, slice_in_range, ranges_valid, units, slice, extract_target, read_u16, parse_names,
  parse_reparse_payload, bytes_of, junction_buffer, mount_tag,
}

-- A unit of a string is a 16-bit number.
abbrev pub IsUnits : WString → Type 0
IsUnits s = All (λ c. c < 65536) s

length-bytes_of : (s : WString) → length (bytes_of s) ≡ length s * 2
unfolding bytes_of
length-bytes_of [] = refl
length-bytes_of (c ∷ s) = omega (arith, length-bytes_of s)

units-bytes_of :
    (s : WString) (rest : Bytes) → IsUnits s → units (bytes_of s ++ rest) ≡ s ++ units rest
unfolding units bytes_of
units-bytes_of [] rest h = refl
units-bytes_of (c ∷ s) rest h =
    let byte : c % 256 + 256 * (c / 256 % 256) ≡ c = omega (arith, h.0) in
    rw (byte, units-bytes_of s rest h.1) refl

take-append : (s rest : WString) → take (length s) (s ++ rest) ≡ s
take-append [] rest = refl
take-append (c ∷ s) rest = ap (λ t. c ∷ t) (take-append s rest)

-- The names that a buffer with these fields holds: a substitute name at the start of the names.
extract_target-prefixed :
    (target more : WString) (print_off print_len : ℕ)
    → extract_target
        ((nt_prefix ++ target) ++ more)
        0
        (length (nt_prefix ++ target) * 2)
        print_off
        print_len
      ≡ target
unfolding extract_target slice
extract_target-prefixed target more print_off print_len =
    let half : (length (nt_prefix ++ target) * 2) / 2 ≡ length (nt_prefix ++ target) =
      omega arith in
    let test : ltb 0 (length (nt_prefix ++ target) * 2) ≡ true = ground arith in
    rw (test, half, take-append (nt_prefix ++ target) more, starts_with-append nt_prefix target)
      (take-append target more)

-- A buffer whose fields and names are known, and lie within it.
module _ (buf names : Bytes) (a b c d : ℕ) where
  names_read :
      (kind : ReparseKind) (truncated : WString)
      → length buf ≡ 16 + length names
      → drop 16 buf ≡ names
      → read_u16 buf 8 ≡ a
      → read_u16 buf 10 ≡ b
      → read_u16 buf 12 ≡ c
      → read_u16 buf 14 ≡ d
      → ranges_valid 16 (16 + length names) a b c d ≡ true
      → parse_names buf 16 kind truncated
        ≡ record { kind = kind; target = some (extract_target (units names) a b c d); error = [] }
  unfolding parse_names
  names_read kind truncated len rest fa fb fc fd h =
      let long : ltb (length buf) 16 ≡ false = ground arith in
      rw (long, fa, fb, fc, fd, len, h, rest) refl

  mount_read :
      (is_directory : Bool)
      → length buf ≡ 16 + length names
      → value_of (take 4 buf) ≡ mount_tag
      → parse_reparse_payload buf is_directory
        ≡ parse_names buf 16 junction (lit "reparse payload troncato: header mount incompleto")
  unfolding parse_reparse_payload
  mount_read is_directory len tag =
      let long : ltb (length buf) 4 ≡ false = ground arith in rw (long, tag) refl

-- A buffer of a mount point with any fields.
abbrev mount_buffer : ℕ → ℕ → ℕ → ℕ → ℕ → Bytes → Bytes
mount_buffer total a b c d names =
    put_int 4 mount_tag
    ++ (put_int 2 total
        ++ (put_int 2 0
            ++ (put_int 2 a ++ (put_int 2 b ++ (put_int 2 c ++ (put_int 2 d ++ names))))))

module _ (total a b c d : ℕ) (names : Bytes) where
  length-mount_buffer : length (mount_buffer total a b c d names) ≡ 16 + length names
  unfolding put_int
  length-mount_buffer = omega arith

  mount_buffer-tag : value_of (take 4 (mount_buffer total a b c d names)) ≡ mount_tag
  unfolding put_int value_of
  mount_buffer-tag = refl

  mount_buffer-names : drop 16 (mount_buffer total a b c d names) ≡ names
  unfolding put_int
  mount_buffer-names = refl

  mount_buffer-fields :
      a < 65536
      → b < 65536
      → c < 65536
      → d < 65536
      → (read_u16 (mount_buffer total a b c d names) 8 ≡ a)
        × (read_u16 (mount_buffer total a b c d names) 10 ≡ b)
        × (read_u16 (mount_buffer total a b c d names) 12 ≡ c)
        × (read_u16 (mount_buffer total a b c d names) 14 ≡ d)
  unfolding put_int value_of read_u16
  mount_buffer-fields ha hb hc hd = (ground arith, ground arith, ground arith, ground arith)

  parse-mount_buffer :
      (is_directory : Bool)
      → a < 65536
      → b < 65536
      → c < 65536
      → d < 65536
      → ranges_valid 16 (16 + length names) a b c d ≡ true
      → parse_reparse_payload (mount_buffer total a b c d names) is_directory ≡ record {
        kind = junction;
        target = some (extract_target (units names) a b c d);
        error = [];
      }
  parse-mount_buffer is_directory ha hb hc hd h =
      let buf = mount_buffer total a b c d names in
      let (fa, fb, fc, fd) = mount_buffer-fields ha hb hc hd in
      mount_read buf names a b c d is_directory length-mount_buffer mount_buffer-tag
      ∙ names_read buf names a b c d junction _ length-mount_buffer mount_buffer-names fa fb fc fd h

-- The names of a junction lie within the buffer.
junction_ranges :
    (target : WString)
    → let sub = nt_prefix ++ target in
      let names = bytes_of sub ++ (0 ∷ 0 ∷ (bytes_of target ++ (0 ∷ 0 ∷ []))) in
      ranges_valid 16
        (16 + length names)
        0
        (length sub * 2)
        (length sub * 2 + 2)
        (length target * 2)
      ≡ true
unfolding ranges_valid slice_in_range
junction_ranges target =
    let sub = nt_prefix ++ target in
    let left = 0 ∷ 0 ∷ (bytes_of target ++ (0 ∷ 0 ∷ [])) in
    ground (
      arith,
      length-append (bytes_of sub) left,
      length-bytes_of sub,
      length-append (bytes_of target) (0 ∷ 0 ∷ []),
      length-bytes_of target,
    )

-- What `CreateLink` writes for a junction is decoded by `ParseReparsePayload` to a junction with the
-- same target, for every target of 16-bit units of at most 16,378 units (then every length and
-- offset fits its 16-bit field).
pub parse_reparse_payload-junction_buffer :
    (target : WString) (is_directory : Bool)
    → IsUnits target
    → length target ≤ 16378
    → parse_reparse_payload (junction_buffer target) is_directory
      ≡ record { kind = junction; target = some target; error = [] }
unfolding junction_buffer
parse_reparse_payload-junction_buffer target is_directory u h =
    let n = length target in
    let sub = nt_prefix ++ target in
    let names = bytes_of sub ++ (0 ∷ 0 ∷ (bytes_of target ++ (0 ∷ 0 ∷ []))) in
    let total = 8 + length sub * 2 + 2 + n * 2 + 2 in
    parse-mount_buffer total 0 (length sub * 2) (length sub * 2 + 2) (n * 2) names is_directory
      (omega arith) (omega arith) (omega arith) (omega arith) (junction_ranges target)
    ∙ ap (λ t. record { kind = junction; target = some t; error = [] })
        (rw
          (units-bytes_of sub (0 ∷ 0 ∷ (bytes_of target ++ (0 ∷ 0 ∷ [])))
            (omega arith, (omega arith, (omega arith, (omega arith, u)))))
          (extract_target-prefixed target _ _ _))
