-- ===== src/Tests/Snapshot.antt =====
-- The round trip of a snapshot, at an index of one hashed file.
use check_sync_files.Common.{◌≡◌, refl, true, [], ◌∷◌, inr, some, arith, length}
use check_sync_files.Text.{lit, Bytes, eqw}
use check_sync_files.Path.{to_utf8, from_utf8}
use check_sync_files.Entry.{plain}
use check_sync_files.Result.{zero_digest}
use check_sync_files.Map.{lookup}
use check_sync_files.Index.{FileIndex, index_key, get_hash}
use check_sync_files.Index.Laws.{IsValid}
use check_sync_files.Snapshot.{write_snapshot, read_snapshot}
use check_sync_files.Snapshot.RoundTrip.{IsSavable}
use check_sync_files.Snapshot.Laws.{IsCopyOf, read_snapshot-write_snapshot}
use check_sync_files.Tests.Data.{ascii, left, entry}

abbrev one_file : FileIndex
one_file = record {
  entries = (lit "a", entry (lit "a") 5 plain) ∷ [];
  hashes = (lit "a", zero_digest) ∷ [];
  stats = record { files = 1; dirs = 0; bytes = 5 };
  case_sensitive = true;
  collision_count = 0;
}

same_length : (x d : Bytes) → some x ≡ some d → length x ≡ 32 → length d ≡ 32
same_length x d h e = ground arith

one_file-IsValid : IsValid ascii one_file
unfolding index_key lookup
one_file-IsValid = record {
  filed = ((refl, omega arith), tt);
  distinct = (refl, tt);
  files = refl;
  dirs = refl;
  bytes = refl;
}

one_file-IsSavable : IsSavable ascii one_file left
unfolding to_utf8 from_utf8 lit get_hash lookup index_key eqw
one_file-IsSavable = record {
  root_text = record { round = refl; short = omega arith };
  files = omega arith;
  dirs = omega arith;
  bytes = omega arith;
  count = omega arith;
  storable = (
    record {
      path = record { round = refl; short = omega arith };
      target = record { round = refl; short = omega arith };
      size = omega arith;
      mtime = omega arith;
      attributes = omega arith;
      id = omega arith;
      digest = λ d h. same_length zero_digest d h refl;
    },
    tt,
  );
}

read_snapshot-write_snapshot_example :
    (loaded : FileIndex) × (read_snapshot ascii (write_snapshot ascii one_file left)
      ≡ inr (loaded, left))
    × IsCopyOf ascii one_file loaded
read_snapshot-write_snapshot_example =
    read_snapshot-write_snapshot ascii one_file left one_file-IsValid one_file-IsSavable
