-- ===== src/Tests/Export.antt =====
-- The theorems on exports, at paths that need escaping.
use check_sync_files.Common.{◌<◌, ◌≡◌, true, some, [], ◌∷◌, ◌++◌, All, All-map, any, ◌==◌, arith}
use check_sync_files.Text.{WString, lit}
use check_sync_files.Path.{to_utf8}
use check_sync_files.Numbers.{to_wstring}
use check_sync_files.Result.{missing}
use check_sync_files.Export.{quote, status_token, json_escape, csv_row, hex_digest}
use check_sync_files.Export.Json.{within_string, json_string, json_string-json_escape}
use check_sync_files.Export.Csv.{at_start, csv_record}
use check_sync_files.Export.Csv.Rows.{IsAsciiFaithful, path_cell, csv_record-csv_row}
use check_sync_files.Result.{zero_digest}
use check_sync_files.Tests.Data.{ascii, row}
use check_sync_files.Common.{false}

each_is_there : (s : WString) → All (λ b. any (λ c. c == b) s ≡ true) s
each_is_there [] = tt
each_is_there (c ∷ s) = (
  ground arith,
  All-map (λ b. any (λ d. d == b) s ≡ true) (λ b. any (λ d. d == b) (c ∷ s) ≡ true) s
      (λ b h. ground arith) (each_is_there s),
)

ascii_units : (s : WString) → All (λ b. b < 128 → any (λ c. c == b) s ≡ true) (to_utf8 ascii s)
unfolding to_utf8
ascii_units [] = tt
ascii_units (c ∷ t) =
    All-map (λ b. any (λ d. d == b) (c ∷ t) ≡ true)
      (λ b. b < 128 → any (λ d. d == b) (c ∷ t) ≡ true) (c ∷ t) (λ b h small. h)
      (each_is_there (c ∷ t))

ascii-IsAsciiFaithful : IsAsciiFaithful ascii
ascii-IsAsciiFaithful = record { ascii_lem = ascii_units }

json_string-json_escape_example :
    json_string within_string (json_escape ascii (lit "a\"\\\n") ++ (quote ∷ lit ","))
    ≡ some (to_utf8 ascii (lit "a\"\\\n"), lit ",")
json_string-json_escape_example = json_string-json_escape ascii (lit "a\"\\\n") (lit ",")

csv_record-csv_row_example :
    csv_record at_start (csv_row ascii (row missing (lit "=a,\"b") false) ++ lit "EXTRA,")
    ≡ some (
      status_token missing
          ∷ path_cell ascii (lit "=a,\"b")
          ∷ to_wstring 5
          ∷ to_wstring 0
          ∷ hex_digest false zero_digest
          ∷ hex_digest false zero_digest
          ∷ [],
      lit "EXTRA,",
    )
csv_record-csv_row_example =
    csv_record-csv_row ascii ascii-IsAsciiFaithful (row missing (lit "=a,\"b") false) (lit "EXTRA,")
