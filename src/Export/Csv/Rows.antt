-- ===== src/Export/Csv/Rows.antt =====
-- What a row of a CSV export (src/Export/CsvExporter.cpp) is to a reader of CSV.
use mathlib.Core.List.{append_assoc}
use check_sync_files.Common.{
  ℕ, zero, suc, ◌+◌, ◌/◌, ◌%◌, ◌<◌, ◌≡◌, refl, ap, ◌∙◌, Bool, true, false, not, ◌&&◌, some, [], ◌∷◌,
  ◌++◌, ◌==◌, if◌then◌else◌, arith, All, any, Bool-cases, inl, inr,
}
use check_sync_files.Text.{WString, Bytes, lit}
use check_sync_files.Windows.{Win}
use check_sync_files.Path.{to_utf8}
use check_sync_files.Numbers.{decimal, to_wstring}
use check_sync_files.Result.{
  Status, identical, missing, extra, size_mismatch, content_mismatch, identical_partial,
  content_mismatch_partial, read_error, access_denied, changed_during_scan, FileResult,
}
use check_sync_files.Export.{
  quote, comma, line_feed, apostrophe, status_token, needs_quotes, formula_risk, double_quotes,
  csv_escape, hex_digit, hex_bytes, hex_digest, csv_row,
}
use check_sync_files.Export.Csv.{
  at_start, cons_cell, csv_record, IsBare, first_cell, last_cell, quoted_cell,
}

-- A byte of the UTF-8 form below 128 stands for the same unit of the text.
pub record IsAsciiFaithful (w : Win) : Type 0 where
  pub ascii_lem : (s : WString) → All (λ b. b < 128 → any (λ c. c == b) s ≡ true) (to_utf8 w s)

status_token-IsBare : (st : Status) → IsBare (status_token st)
unfolding status_token lit needs_quotes
status_token-IsBare identical = refl
status_token-IsBare missing = refl
status_token-IsBare extra = refl
status_token-IsBare size_mismatch = refl
status_token-IsBare content_mismatch = refl
status_token-IsBare identical_partial = refl
status_token-IsBare content_mismatch_partial = refl
status_token-IsBare read_error = refl
status_token-IsBare access_denied = refl
status_token-IsBare changed_during_scan = refl

digit-IsBare : (n : ℕ) → needs_quotes (48 + n % 10) ≡ false
unfolding needs_quotes
digit-IsBare n = ground arith

decimal-IsBare : (fuel n : ℕ) (acc : Bytes) → IsBare acc → IsBare (decimal fuel n acc)
unfolding decimal
decimal-IsBare zero n acc h = h
decimal-IsBare (suc fuel) n acc h =
    ground (arith, digit-IsBare n, decimal-IsBare fuel (n / 10) ((48 + n % 10) ∷ acc))

to_wstring-IsBare : (n : ℕ) → IsBare (to_wstring n)
unfolding to_wstring
to_wstring-IsBare n = decimal-IsBare 20 n [] refl

hex_digit-IsBare : (v : ℕ) → v < 16 → needs_quotes (hex_digit v) ≡ false
unfolding needs_quotes
hex_digit-IsBare v h = ground arith

hex_bytes-IsBare : (s : Bytes) → IsBare (hex_bytes s)
unfolding hex_bytes
hex_bytes-IsBare [] = refl
hex_bytes-IsBare (b ∷ s) = ground (
  arith,
  hex_digit-IsBare (b / 16 % 16) (omega arith),
  hex_digit-IsBare (b % 16) (omega arith),
  hex_bytes-IsBare s,
)

hex_digest-IsBare : (has : Bool) (s : Bytes) → IsBare (hex_digest has s)
unfolding hex_digest
hex_digest-IsBare true s = hex_bytes-IsBare s
hex_digest-IsBare false s = refl

any-is :
    (s : WString) (b : ℕ)
    → any (λ c. c == b) s ≡ true
    → any needs_quotes s ≡ false
    → needs_quotes b ≡ false
unfolding needs_quotes
any-is [] b h k = cc
any-is (c ∷ s) b h k = ground (arith, any-is s b)

needs_quotes-small : (b : ℕ) → needs_quotes b ≡ true → b < 128
unfolding needs_quotes
needs_quotes-small b h = ground arith

bytes-IsBare :
    (s : WString) (u : Bytes)
    → any needs_quotes s ≡ false
    → All (λ b. b < 128 → any (λ c. c == b) s ≡ true) u
    → IsBare u
bytes-IsBare s [] h k = refl
bytes-IsBare s (b ∷ u) h k = elim (Bool-cases (needs_quotes b)) [
  | inl t ↦ absurd (grind (arith, any-is s b (k.0 (needs_quotes-small b t)) h))
  | inr f ↦ rw f (bytes-IsBare s u h k.1)
]

-- The text of the path cell: an apostrophe stands before a text that begins like a formula.
abbrev pub path_cell : Win → WString → Bytes
path_cell w s = if formula_risk s then apostrophe ∷ to_utf8 w s else to_utf8 w s

quoted_start :
    (u rest : Bytes)
    → csv_record at_start ((quote ∷ (double_quotes u ++ (quote ∷ []))) ++ (comma ∷ rest))
      ≡ cons_cell u (csv_record at_start rest)
unfolding csv_record
quoted_start u rest =
    rw (append_assoc (double_quotes u) (quote ∷ []) (comma ∷ rest)) (quoted_cell u rest)

-- A quote is not the apostrophe that stands before a formula.
marked_start :
    (u rest : Bytes)
    → csv_record at_start
        ((quote ∷ apostrophe ∷ (double_quotes u ++ (quote ∷ []))) ++ (comma ∷ rest))
      ≡ cons_cell (apostrophe ∷ u) (csv_record at_start rest)
unfolding double_quotes
marked_start u rest = quoted_start (apostrophe ∷ u) rest

-- A cell and the comma behind it, in front of the rest of a row and of the file.
bare_then :
    (u more rest : Bytes)
    → IsBare u
    → csv_record at_start ((u ++ (comma ∷ more)) ++ rest)
      ≡ cons_cell u (csv_record at_start (more ++ rest))
bare_then u more rest h = rw (append_assoc u (comma ∷ more) rest) (first_cell u (more ++ rest) h)

end_row :
    (u rest : Bytes)
    → IsBare u
    → csv_record at_start ((u ++ (line_feed ∷ [])) ++ rest) ≡ some (u ∷ [], rest)
end_row u rest h = rw (append_assoc u (line_feed ∷ []) rest) (last_cell u rest h)

and_false : (b : Bool) → (b && false) ≡ false
and_false true = refl
and_false false = refl

module _ (w : Win) (faithful : IsAsciiFaithful w) where
  path_cell-read :
      (s : WString) (rest : Bytes)
      → csv_record at_start (csv_escape w s ++ (comma ∷ rest))
        ≡ cons_cell (path_cell w s) (csv_record at_start rest)
  unfolding csv_escape
  path_cell-read s rest = elim (Bool-cases (formula_risk s)) [
    | inl t ↦ rw (t, and_false (not (any needs_quotes s))) (marked_start (to_utf8 w s) rest)
    | inr f ↦ elim (Bool-cases (any needs_quotes s)) [
      | inl q ↦ rw (f, q) (quoted_start (to_utf8 w s) rest)
      | inr n ↦
          rw (f, n)
            (first_cell (to_utf8 w s) rest (bytes-IsBare s (to_utf8 w s) n (faithful.ascii_lem s)))
    ]
  ]

  path_then :
      (s : WString) (more rest : Bytes)
      → csv_record at_start ((csv_escape w s ++ (comma ∷ more)) ++ rest)
        ≡ cons_cell (path_cell w s) (csv_record at_start (more ++ rest))
  path_then s more rest =
      rw (append_assoc (csv_escape w s) (comma ∷ more) rest) (path_cell-read s (more ++ rest))

  -- A row of the export, whatever the path is, is one record of six cells: the token of the status,
  -- the UTF-8 form of the path (with an apostrophe before a path that begins like a formula), the
  -- two sizes in decimal and the two digests. This is what `csv_record` reads, which has the quoting
  -- of RFC 4180 but ends a record at a line feed outside of quotes, and it stops where the row ends,
  -- whatever follows. UTF-8 conversion is taken to keep ASCII.
  pub csv_record-csv_row :
      (p : FileResult) (rest : Bytes)
      → csv_record at_start (csv_row w p ++ rest)
        ≡ some (
          status_token p.status
              ∷ path_cell w p.relative_path
              ∷ to_wstring p.size_source
              ∷ to_wstring p.size_dest
              ∷ hex_digest p.has_hash_source p.hash_source
              ∷ hex_digest p.has_hash_dest p.hash_dest
              ∷ [],
          rest,
        )
  unfolding csv_row
  csv_record-csv_row p rest =
      bare_then (status_token p.status) _ rest (status_token-IsBare p.status)
      ∙ ap (cons_cell (status_token p.status)) (
          path_then p.relative_path _ rest
          ∙ ap (cons_cell (path_cell w p.relative_path)) (
              bare_then (to_wstring p.size_source) _ rest (to_wstring-IsBare p.size_source)
              ∙ ap (cons_cell (to_wstring p.size_source)) (
                  bare_then (to_wstring p.size_dest) _ rest (to_wstring-IsBare p.size_dest)
                  ∙ ap (cons_cell (to_wstring p.size_dest)) (
                      bare_then (hex_digest p.has_hash_source p.hash_source) _ rest
                        (hex_digest-IsBare p.has_hash_source p.hash_source)
                      ∙ ap (cons_cell (hex_digest p.has_hash_source p.hash_source)) (
                          end_row (hex_digest p.has_hash_dest p.hash_dest) rest
                            (hex_digest-IsBare p.has_hash_dest p.hash_dest))))))
