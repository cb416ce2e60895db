-- ===== src/Export.antt =====
-- src/Export/ExportUtil.cpp, CsvExporter.cpp and JsonExporter.cpp: the bytes of an export. The file
-- itself (creating it, a full disk) is left out.
pub mod Json
pub mod Csv
use check_sync_files.Common.{
  ℕ, ◌-◌, ◌+◌, ◌/◌, ◌%◌, Bool, true, false, ◌||◌, ◌&&◌, not, Option, none, some, List, [], ◌∷◌,
  ◌++◌, ltb, ◌==◌, if◌then◌else◌, any, map,
}
use check_sync_files.Text.{WString, Bytes, lit, empty, eqw, dot}
use check_sync_files.Windows.{Win}
use check_sync_files.Path.{to_utf8}
use check_sync_files.Numbers.{to_wstring}
use check_sync_files.Entry.{PartialPattern, edges, center, random}
use check_sync_files.Session.{VerifyInfo}
use check_sync_files.Result.{
  Status, identical, missing, extra, size_mismatch, content_mismatch, identical_partial,
  content_mismatch_partial, read_error, access_denied, changed_during_scan, FileResult, ResultSet,
}

unfoldable pub status_token : Status → Bytes
status_token identical = lit "IDENTICO"
status_token missing = lit "MANCANTE"
status_token extra = lit "EXTRA"
status_token size_mismatch = lit "DIM_DIVERSA"
status_token content_mismatch = lit "CONTENUTO_DIVERSO"
status_token identical_partial = lit "IDENTICO_PARZIALE"
status_token content_mismatch_partial = lit "CONTENUTO_DIVERSO_PARZIALE"
status_token read_error = lit "ERRORE_LETTURA"
status_token access_denied = lit "ACCESSO_NEGATO"
status_token changed_during_scan = lit "MODIFICATO_DURANTE_SCAN"

abbrev pub quote : ℕ
quote = 34

abbrev pub comma : ℕ
comma = 44

abbrev pub line_feed : ℕ
line_feed = 10

abbrev pub carriage_return : ℕ
carriage_return = 13

abbrev pub apostrophe : ℕ
apostrophe = 39

-- One of `= + - @ \t \r \f`.
unfoldable pub csv_formula_trigger : ℕ → Bool
csv_formula_trigger c =
    c == 61 || (c == 43 || (c == 45 || (c == 64 || (c == 9 || (c == carriage_return || c == 12)))))

-- A character that makes quotes necessary.
unfoldable pub needs_quotes : ℕ → Bool
needs_quotes c = c == comma || (c == quote || (c == line_feed || c == carriage_return))

abbrev pub formula_risk : WString → Bool
formula_risk [] = false
formula_risk (c ∷ s) = csv_formula_trigger c

-- Each quote is written twice.
unfoldable pub double_quotes : Bytes → Bytes
double_quotes [] = []
double_quotes (c ∷ s) =
    let rest = double_quotes s in if c == quote then quote ∷ quote ∷ rest else c ∷ rest

unfoldable pub csv_escape : Win → WString → Bytes
unfolding needs_quotes csv_formula_trigger double_quotes
csv_escape w s =
    let u8 = to_utf8 w s in
    if not (any needs_quotes s) && not (formula_risk s)
    then u8
    else if formula_risk s
    then quote ∷ apostrophe ∷ (double_quotes u8 ++ (quote ∷ []))
    else quote ∷ (double_quotes u8 ++ (quote ∷ []))

-- `hex[v & 0xF]`.
abbrev pub hex_digit : ℕ → ℕ
hex_digit v = if ltb v 10 then 48 + v else 87 + v

-- What one byte becomes in a JSON string.
unfoldable pub json_escape_byte : ℕ → Bytes
json_escape_byte c =
    if c == quote
    then 92 ∷ quote ∷ []
    else if c == 92
    then 92 ∷ 92 ∷ []
    else if c == 8
    then 92 ∷ 98 ∷ []
    else if c == 12
    then 92 ∷ 102 ∷ []
    else if c == 10
    then 92 ∷ 110 ∷ []
    else if c == 13
    then 92 ∷ 114 ∷ []
    else if c == 9
    then 92 ∷ 116 ∷ []
    else if ltb c 32
    then 92 ∷ 117 ∷ 48 ∷ 48 ∷ hex_digit (c / 16) ∷ hex_digit (c % 16) ∷ []
    else c ∷ []

unfoldable pub json_escape_bytes : Bytes → Bytes
unfolding json_escape_byte
json_escape_bytes [] = []
json_escape_bytes (c ∷ s) = json_escape_byte c ++ json_escape_bytes s

unfoldable pub json_escape : Win → WString → Bytes
unfolding json_escape_bytes
json_escape w s = json_escape_bytes (to_utf8 w s)

unfoldable pub hex_bytes : Bytes → Bytes
hex_bytes [] = []
hex_bytes (b ∷ s) = hex_digit (b / 16 % 16) ∷ hex_digit (b % 16) ∷ hex_bytes s

unfoldable pub hex_digest : Bool → Bytes → Bytes
unfolding hex_bytes
hex_digest has digest = if has then hex_bytes digest else []

-- `WriteCsv`: the row of a problem, and the file.
unfoldable pub csv_row : Win → FileResult → Bytes
csv_row w p =
    status_token p.status
    ++ (comma
        ∷ (csv_escape w p.relative_path
            ++ (comma
                ∷ (to_wstring p.size_source
                    ++ (comma
                        ∷ (to_wstring p.size_dest
                            ++ (comma
                                ∷ (hex_digest p.has_hash_source p.hash_source
                                    ++ (comma
                                        ∷ (hex_digest p.has_hash_dest p.hash_dest
                                            ++ (line_feed ∷ [])))))))))))

unfoldable pub csv_rows : Win → List FileResult → Bytes
csv_rows w [] = []
csv_rows w (p ∷ ps) = csv_row w p ++ csv_rows w ps

unfoldable pub write_csv : Win → ResultSet → Bytes
unfolding csv_rows
write_csv w result =
    239
    ∷ 187
    ∷ 191
    ∷ (lit "status,path,size_source,size_destination,hash_source,hash_destination\n"
        ++ csv_rows w result.problems)

-- `WriteProblemObject`.
unfoldable pub problem_object : Win → FileResult → Bytes
problem_object w p =
    lit "{\"status\":\""
    ++ (status_token p.status
        ++ (lit "\",\"path\":\""
            ++ (json_escape w p.relative_path
                ++ (lit "\",\"size_source\":"
                    ++ (to_wstring p.size_source
                        ++ (lit ",\"size_destination\":"
                            ++ (to_wstring p.size_dest
                                ++ (lit ",\"hash_source\":\""
                                    ++ (hex_digest p.has_hash_source p.hash_source
                                        ++ (lit "\",\"hash_destination\":\""
                                            ++ (hex_digest p.has_hash_dest p.hash_dest
                                                ++ lit "\"}")))))))))))

-- The rows of the array, with a comma between two of them.
unfoldable pub problem_objects : Win → List FileResult → Bytes
problem_objects w [] = []
problem_objects w (p ∷ []) = problem_object w p
problem_objects w (p ∷ q ∷ ps) =
    problem_object w p ++ (comma ∷ line_feed ∷ problem_objects w (q ∷ ps))

-- The slowest directories of a run; `T` is the type of the seconds, a `double`.
pub record DirTiming (T : Type 0) : Type 0 where
  pub list_a : List (WString × T)
  pub walk_a : List (WString × T)
  pub list_b : List (WString × T)
  pub walk_b : List (WString × T)
  pub hash_a : List (WString × T)
  pub hash_b : List (WString × T)

abbrev pub verify_pattern_token : PartialPattern → Bytes
verify_pattern_token center = lit "center"
verify_pattern_token edges = lit "edges"
verify_pattern_token random = lit "edges"

-- The part of `WriteJson` behind the lists of directories.
unfoldable pub write_run : ℕ → VerifyInfo → Bytes
write_run cache_hits verify =
    lit ",\"hash_cache_hits\":"
    ++ (to_wstring cache_hits
        ++ (lit ",\"verify\":{\"mode\":\""
            ++ ((if ltb verify.percent_effective 100 then lit "partial" else lit "full")
                ++ (lit "\",\"percent_requested\":"
                    ++ (to_wstring verify.percent_requested
                        ++ (lit ",\"pattern\":\""
                            ++ (verify_pattern_token verify.pattern
                                ++ (lit "\",\"random\":"
                                    ++ ((if verify.pattern_random then lit "true" else lit "false")
                                        ++ lit "}}}\n")))))))))

-- `show` is what `operator<<` prints for a `double`.
module _ (w : Win) {T : Type 0} (show : T → Bytes) where
  unfoldable pub dir_object : WString × T → Bytes
  dir_object (dir, seconds) =
      lit "{\"dir\":\""
      ++ (json_escape w dir ++ (lit "\",\"seconds\":" ++ (show seconds ++ lit "}")))

  unfoldable pub dir_objects : List (WString × T) → Bytes
  dir_objects [] = []
  dir_objects (e ∷ []) = dir_object e
  dir_objects (e ∷ f ∷ entries) = dir_object e ++ (comma ∷ dir_objects (f ∷ entries))

  -- `WriteDirList`, without the comma that stands behind all lists but the last.
  unfoldable pub dir_list : Bytes → List (WString × T) → Bytes
  dir_list name entries = quote ∷ (name ++ (lit "\":[" ++ (dir_objects entries ++ lit "]")))

  -- `WriteJson`.
  unfoldable pub write_json : ResultSet → DirTiming T → ℕ → VerifyInfo → Bytes
  write_json result timing cache_hits verify =
      lit "{\"problems\":[\n"
      ++ (problem_objects w result.problems
          ++ (lit "\n],\"slowest_dirs\":{"
              ++ (dir_list (lit "list_a") timing.list_a
                  ++ (comma
                      ∷ (dir_list (lit "walk_a") timing.walk_a
                          ++ (comma
                              ∷ (dir_list (lit "list_b") timing.list_b
                                  ++ (comma
                                      ∷ (dir_list (lit "walk_b") timing.walk_b
                                          ++ (comma
                                              ∷ (dir_list (lit "hash_a") timing.hash_a
                                                  ++ (comma
                                                      ∷ (dir_list (lit "hash_b") timing.hash_b
                                                          ++ write_run cache_hits
                                                            verify)))))))))))))
