-- ===== src/Reparse/Payload.antt =====
-- src/Filesystem/ReparsePoint.cpp: the decoder of a reparse buffer (ParseReparsePayload) and the
-- buffer that CreateLink writes for a junction.
pub mod Laws
pub mod Bounds
use check_sync_files.Common.{
  ℕ, ◌+◌, ◌*◌, ◌/◌, ◌%◌, Bool, true, false, ◌&&◌, ◌||◌, not, Option, none, some, List, [], ◌∷◌,
  ◌++◌, ltb, leb, ◌==◌, if◌then◌else◌, length, drop, take, replicate,
}
use check_sync_files.Text.{WString, Bytes, backslash, starts_with, lit}
use check_sync_files.Entry.{ReparseKind, symlink_file, symlink_dir, junction, other, unknown}
use check_sync_files.Snapshot.Stream.{put_int, value_of}

-- `kNtPrefix`, L"\\??\\".
abbrev pub nt_prefix : WString
nt_prefix = backslash ∷ 63 ∷ 63 ∷ backslash ∷ []

-- IO_REPARSE_TAG_SYMLINK and IO_REPARSE_TAG_MOUNT_POINT.
abbrev pub symlink_tag : ℕ
symlink_tag = 2684354572

abbrev pub mount_tag : ℕ
mount_tag = 2684354563

unfoldable pub slice_in_range : ℕ → ℕ → ℕ → ℕ → Bool
slice_in_range path_base off len bytes =
    off % 2 == 0 && (len % 2 == 0 && leb (path_base + off + len) bytes)

unfoldable pub ranges_valid : ℕ → ℕ → ℕ → ℕ → ℕ → ℕ → Bool
unfolding slice_in_range
ranges_valid path_base bytes sub_off sub_len print_off print_len =
    slice_in_range path_base sub_off sub_len bytes
    && slice_in_range path_base print_off print_len bytes

-- `reinterpret_cast<const wchar_t*>`: two bytes to a unit.
unfoldable pub units : Bytes → WString
units [] = []
units (a ∷ []) = []
units (a ∷ b ∷ s) = (a + 256 * b) ∷ units s

-- `slice`: the offset and the length are in bytes.
unfoldable pub slice : WString → ℕ → ℕ → WString
slice base off len = take (len / 2) (drop (off / 2) base)

unfoldable pub extract_target : WString → ℕ → ℕ → ℕ → ℕ → WString
unfolding slice
extract_target base sub_off sub_len print_off print_len =
    let target =
      if ltb 0 sub_len then slice base sub_off sub_len else slice base print_off print_len in
    if starts_with nt_prefix target then drop 4 target else target

-- A number outside of the buffer reads as 0.
unfoldable pub read_u16 : Bytes → ℕ → ℕ
unfolding value_of
read_u16 buf at = if leb (at + 2) (length buf) then value_of (take 2 (drop at buf)) else 0

-- What the function gives back: the kind in any case, the target when it returns true, and the
-- message of a refusal.
pub record Payload : Type 0 where
  pub kind : ReparseKind
  pub target : Option WString
  pub error : WString

abbrev pub rejected : ReparseKind → WString → Payload
rejected kind error = record { kind = kind; target = none; error = error }

-- The names behind a fixed header of `fixed` bytes.
unfoldable pub parse_names : Bytes → ℕ → ReparseKind → WString → Payload
unfolding ranges_valid read_u16 extract_target units
parse_names buf fixed kind truncated =
    let sub_off = read_u16 buf 8 in
    let sub_len = read_u16 buf 10 in
    let print_off = read_u16 buf 12 in
    let print_len = read_u16 buf 14 in
    if ltb (length buf) fixed
    then rejected unknown truncated
    else if not (ranges_valid fixed (length buf) sub_off sub_len print_off print_len)
    then rejected unknown (lit "reparse payload non conforme: nomi fuori range")
    else record {
      kind = kind;
      target = some (extract_target (units (drop fixed buf)) sub_off sub_len print_off print_len);
      error = [];
    }

unfoldable pub parse_reparse_payload : Bytes → Bool → Payload
unfolding parse_names
parse_reparse_payload buf is_directory =
    let tag = value_of (take 4 buf) in
    if ltb (length buf) 4
    then rejected unknown (lit "reparse payload troncato: tag illeggibile")
    else if tag == symlink_tag
    then parse_names buf 20 (if is_directory then symlink_dir else symlink_file)
        (lit "reparse payload troncato: header symlink incompleto")
    else if tag == mount_tag
    then parse_names buf 16 junction (lit "reparse payload troncato: header mount incompleto")
    else rejected other []

-- `memcpy` from the units of a string.
unfoldable pub bytes_of : WString → Bytes
bytes_of [] = []
bytes_of (c ∷ s) = c % 256 ∷ c / 256 % 256 ∷ bytes_of s

-- The buffer of `CreateLink` for a junction: the raw names without a terminator, a gap of two bytes
-- between them, and a final NUL. The lengths are cut to 16 bits.
unfoldable pub junction_buffer : WString → Bytes
unfolding bytes_of
junction_buffer target =
    let sub = nt_prefix ++ target in
    let sub_bytes = length sub * 2 in
    let print_bytes = length target * 2 in
    put_int 4 mount_tag
    ++ (put_int 2 (8 + sub_bytes + 2 + print_bytes + 2)
        ++ (put_int 2 0
            ++ (put_int 2 0
                ++ (put_int 2 sub_bytes
                    ++ (put_int 2 (sub_bytes + 2)
                        ++ (put_int 2 print_bytes
                            ++ (bytes_of sub ++ (0 ∷ 0 ∷ (bytes_of target ++ (0 ∷ 0 ∷ []))))))))))
