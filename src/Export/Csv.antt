-- ===== src/Export/Csv.antt =====
-- The rows of a CSV export (`WriteCsv` of src/Export/CsvExporter.cpp), to a reader with the quoting of
-- RFC 4180 that ends a record at a line feed, as the export writes it (RFC 4180 has CR LF there).
pub mod Rows
use mathlib.Core.List.{append_assoc}
use check_sync_files.Common.{
  ℕ, zero, suc, ◌+◌, ◌/◌, ◌%◌, ◌<◌, ◌≡◌, refl, sym, ap, ◌∙◌, Bool, true, false, not, ◌&&◌, ◌||◌,
  Option, none, some, List, [], ◌∷◌, ◌++◌, ltb, ◌==◌, if◌then◌else◌, arith, All, any, Bool-cases,
  inl, inr,
}
use check_sync_files.Text.{WString, Bytes, lit}
use check_sync_files.Windows.{Win}
use check_sync_files.Path.{to_utf8}
use check_sync_files.Numbers.{decimal, to_wstring}
use check_sync_files.Result.{
  Status, identical, missing, extra, size_mismatch, content_mismatch, identical_partial,
  content_mismatch_partial, read_error, access_denied, changed_during_scan, FileResult,
}
use check_sync_files.Export.{
  quote, comma, line_feed, carriage_return, apostrophe, status_token, csv_formula_trigger,
  needs_quotes, formula_risk, double_quotes, csv_escape, hex_digit, hex_bytes, hex_digest, csv_row,
}

-- At the start of a cell; within a cell without quotes; within quotes; after a quote within quotes.
pub data Place : Type 0 where
  at_start within_bare within_quotes after_quote : Place

-- The cells of a record and what follows it, with a byte more in the first cell, or a cell more.
abbrev pub cons_byte : ℕ → Option (List Bytes × Bytes) → Option (List Bytes × Bytes)
cons_byte c none = none
cons_byte c (some ([], rest)) = none
cons_byte c (some (u ∷ cells, rest)) = some ((c ∷ u) ∷ cells, rest)

abbrev pub cons_cell : Bytes → Option (List Bytes × Bytes) → Option (List Bytes × Bytes)
cons_cell u none = none
cons_cell u (some (cells, rest)) = some (u ∷ cells, rest)

-- What a separator ends.
abbrev pub end_cell : ℕ → Bytes → Option (List Bytes × Bytes) → Option (List Bytes × Bytes)
end_cell c s next =
    if c == comma then cons_cell [] next else if c == line_feed then some ([] ∷ [], s) else none

-- A record: cells with commas between them, up to a line feed. A cell in quotes holds any byte, a
-- quote written twice; a cell without quotes holds no quote and no carriage return.
unfoldable pub csv_record : Place → Bytes → Option (List Bytes × Bytes)
unfolding needs_quotes
csv_record place [] = none
csv_record at_start (c ∷ s) =
    let next = csv_record at_start s in
    let bare = csv_record within_bare s in
    let quoted = csv_record within_quotes s in
    if c == quote then quoted else if needs_quotes c then end_cell c s next else cons_byte c bare
csv_record within_bare (c ∷ s) =
    let next = csv_record at_start s in
    let bare = csv_record within_bare s in
    if needs_quotes c then end_cell c s next else cons_byte c bare
csv_record within_quotes (c ∷ s) =
    let quoted = csv_record within_quotes s in
    let seen = csv_record after_quote s in if c == quote then seen else cons_byte c quoted
csv_record after_quote (c ∷ s) =
    let next = csv_record at_start s in
    let quoted = csv_record within_quotes s in
    if c == quote then cons_byte quote quoted else end_cell c s next

abbrev pub IsBare : Bytes → Type 0
IsBare u = any needs_quotes u ≡ false

cons_byte-cons_cell :
    (c : ℕ) (u : Bytes) (o : Option (List Bytes × Bytes))
    → cons_byte c (cons_cell u o) ≡ cons_cell (c ∷ u) o
cons_byte-cons_cell c u none = refl
cons_byte-cons_cell c u (some (cells, rest)) = refl

-- A cell without quotes, up to the comma behind it.
bare_cell :
    (u rest : Bytes)
    → IsBare u
    → csv_record within_bare (u ++ (comma ∷ rest)) ≡ cons_cell u (csv_record at_start rest)
unfolding csv_record needs_quotes
bare_cell [] rest h = refl
bare_cell (c ∷ u) rest h =
    ground (arith, bare_cell u rest, cons_byte-cons_cell c u (csv_record at_start rest))

first_cell :
    (u rest : Bytes)
    → IsBare u
    → csv_record at_start (u ++ (comma ∷ rest)) ≡ cons_cell u (csv_record at_start rest)
unfolding csv_record needs_quotes
first_cell [] rest h = refl
first_cell (c ∷ u) rest h =
    ground (arith, bare_cell u rest, cons_byte-cons_cell c u (csv_record at_start rest))

bare_end :
    (u rest : Bytes)
    → IsBare u
    → csv_record within_bare (u ++ (line_feed ∷ rest)) ≡ some (u ∷ [], rest)
unfolding csv_record needs_quotes
bare_end [] rest h = refl
bare_end (c ∷ u) rest h = ground (arith, bare_end u rest)

last_cell :
    (u rest : Bytes)
    → IsBare u
    → csv_record at_start (u ++ (line_feed ∷ rest)) ≡ some (u ∷ [], rest)
unfolding csv_record needs_quotes
last_cell [] rest h = refl
last_cell (c ∷ u) rest h = ground (arith, bare_end u rest)

quoted_cell :
    (u rest : Bytes)
    → csv_record within_quotes (double_quotes u ++ (quote ∷ comma ∷ rest))
      ≡ cons_cell u (csv_record at_start rest)
unfolding csv_record double_quotes
quoted_cell [] rest = refl
quoted_cell (c ∷ u) rest =
    ground (arith, quoted_cell u rest, cons_byte-cons_cell c u (csv_record at_start rest))
