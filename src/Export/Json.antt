-- ===== src/Export/Json.antt =====
-- The strings of a JSON export (`JsonEscape` of src/Export/ExportUtil.cpp), read as RFC 8259 says.
use mathlib.Core.List.{append_assoc}
use mathlib.Core.Path.{subst}
use check_sync_files.Common.{
  sym, ap, ==_iff, Bool-cases, inl, inr, ltb→lt, ℕ, zero, suc, ◌-◌, ◌+◌, ◌*◌, ◌/◌, ◌%◌, ◌<◌, ◌≡◌,
  refl, ◌∙◌, true, false, ◌&&◌, Option, none, some, [], ◌∷◌, ◌++◌, ltb, leb, ◌==◌, if◌then◌else◌,
  arith,
}
use check_sync_files.Text.{WString, Bytes}
use check_sync_files.Windows.{Win}
use check_sync_files.Path.{to_utf8}
use check_sync_files.Export.{quote, hex_digit, json_escape_byte, json_escape_bytes, json_escape}

-- The value of a hexadecimal digit.
abbrev pub digit_value : ℕ → Option ℕ
digit_value c =
    if leb 48 c && leb c 57
    then some (c - 48)
    else if leb 97 c && leb c 102
    then some (c - 87)
    else if leb 65 c && leb c 70
    then some (c - 55)
    else none

-- The character that stands after a backslash, `u` left aside.
abbrev pub short_escape : ℕ → Option ℕ
short_escape c =
    if c == 34
    then some 34
    else if c == 92
    then some 92
    else if c == 47
    then some 47
    else if c == 98
    then some 8
    else if c == 102
    then some 12
    else if c == 110
    then some 10
    else if c == 114
    then some 13
    else if c == 116
    then some 9
    else none

-- Within a string; after a backslash; in `\u`, with the digits still to come and their value so far.
pub data Place : Type 0 where
  within_string after_backslash : Place
  in_code : ℕ → ℕ → Place

abbrev cons_byte : ℕ → Option (Bytes × Bytes) → Option (Bytes × Bytes)
cons_byte c none = none
cons_byte c (some (s, rest)) = some (c ∷ s, rest)

-- The bytes of a JSON string up to its closing quote, and what follows it. A control character or
-- an unknown escape is refused, and so is a code of more than one byte in UTF-8, which this reader
-- does not need.
unfoldable pub json_string : Place → Bytes → Option (Bytes × Bytes)
json_string at [] = none
json_string within_string (c ∷ s) =
    let rest = json_string within_string s in
    let escaped = json_string after_backslash s in
    if c == quote
    then some ([], s)
    else if c == 92
    then escaped
    else if ltb c 32
    then none
    else cons_byte c rest
json_string after_backslash (c ∷ s) =
    let rest = json_string within_string s in
    let code = json_string (in_code 4 0) s in
    if c == 117 then code else elim (short_escape c) [ none ↦ none | some d ↦ cons_byte d rest ]
json_string (in_code zero v) (c ∷ s) = none
json_string (in_code (suc zero) v) (c ∷ s) =
    let rest = json_string within_string s in
    elim (digit_value c) [
      | none ↦ none
      | some d ↦ if ltb (v * 16 + d) 128 then cons_byte (v * 16 + d) rest else none
    ]
json_string (in_code (suc (suc n)) v) (c ∷ s) = elim (digit_value c) [
  | none ↦ none
  | some d ↦ json_string (in_code (suc n) (v * 16 + d)) s
]

digit_value-hex_digit : (v : ℕ) → v < 16 → digit_value (hex_digit v) ≡ some v
digit_value-hex_digit v h = ground arith

code_step :
    (n v c d : ℕ) (s : Bytes)
    → digit_value c ≡ some d
    → json_string (in_code (suc (suc n)) v) (c ∷ s) ≡ json_string (in_code (suc n) (v * 16 + d)) s
unfolding json_string
code_step n v c d s h = rw (h, json_string)

code_end :
    (v c d : ℕ) (s : Bytes)
    → digit_value c ≡ some d
    → v * 16 + d < 128
    → json_string (in_code (suc zero) v) (c ∷ s)
      ≡ cons_byte (v * 16 + d) (json_string within_string s)
unfolding json_string
code_end v c d s h small =
    let test : ltb (v * 16 + d) 128 ≡ true = ground arith in rw (h, json_string, test)

-- `\u00` with two digits is the control character.
json_string-code :
    (c : ℕ) (s : Bytes)
    → c < 32
    → json_string (in_code 4 0) (48 ∷ 48 ∷ hex_digit (c / 16) ∷ hex_digit (c % 16) ∷ s)
      ≡ cons_byte c (json_string within_string s)
json_string-code c s h =
    code_step 2 0 48 0 _ refl
    ∙ (code_step 1 0 48 0 _ refl
        ∙ (code_step 0 0 _ (c / 16) _ (digit_value-hex_digit (c / 16) (omega arith))
            ∙ (code_end (0 * 16 + c / 16) _ (c % 16) s
                  (digit_value-hex_digit (c % 16) (omega arith)) (omega arith)
                ∙ ap (λ d. cons_byte d (json_string within_string s)) (omega arith))))

module _ (s : Bytes) where
  abbrev IsReadBack : ℕ → Type 0
  IsReadBack c =
      json_string within_string (json_escape_byte c ++ s)
      ≡ cons_byte c (json_string within_string s)

  at_literal : (c d : ℕ) → IsReadBack d → (c == d) ≡ true → IsReadBack c
  at_literal c d h e = subst IsReadBack (sym ((==_iff c d).0 e)) h

  -- Neither a quote nor a backslash, nor one of the controls with a letter of their own.
  at_other :
      (c : ℕ)
      → (c == quote) ≡ false
      → (c == 92) ≡ false
      → (c == 8) ≡ false
      → (c == 12) ≡ false
      → (c == 10) ≡ false
      → (c == 13) ≡ false
      → (c == 9) ≡ false
      → IsReadBack c
  unfolding json_escape_byte json_string
  at_other c a b d e f g h = elim (Bool-cases (ltb c 32)) [
    | inl t ↦ rw (a, b, d, e, f, g, h, t) (json_string-code c s (ltb→lt c 32 t))
    | inr t ↦ rw (a, b, d, e, f, g, h, t) (rw (a, b, t) refl)
  ]

  json_string-byte : (c : ℕ) → IsReadBack c
  unfolding json_escape_byte json_string
  json_string-byte c = elim (Bool-cases (c == quote)) [
    | inl t ↦ at_literal c quote refl t
    | inr a ↦ elim (Bool-cases (c == 92)) [
      | inl t ↦ at_literal c 92 refl t
      | inr b ↦ elim (Bool-cases (c == 8)) [
        | inl t ↦ at_literal c 8 refl t
        | inr d ↦ elim (Bool-cases (c == 12)) [
          | inl t ↦ at_literal c 12 refl t
          | inr e ↦ elim (Bool-cases (c == 10)) [
            | inl t ↦ at_literal c 10 refl t
            | inr f ↦ elim (Bool-cases (c == 13)) [
              | inl t ↦ at_literal c 13 refl t
              | inr g ↦ elim (Bool-cases (c == 9)) [
                | inl t ↦ at_literal c 9 refl t
                | inr h ↦ at_other c a b d e f g h
              ]
            ]
          ]
        ]
      ]
    ]
  ]

json_string-bytes :
    (s rest : Bytes)
    → json_string within_string (json_escape_bytes s ++ (quote ∷ rest)) ≡ some (s, rest)
unfolding json_escape_bytes json_string
json_string-bytes [] rest = refl
json_string-bytes (c ∷ s) rest =
    rw
      (
        append_assoc (json_escape_byte c) (json_escape_bytes s) (quote ∷ rest),
        json_string-byte (json_escape_bytes s ++ (quote ∷ rest)) c,
        json_string-bytes s rest,
      )
      refl

-- The text that `JsonEscape` writes, with a quote behind it, is one JSON string: the reader of JSON
-- stops at that quote and not before, and gives back the UTF-8 bytes of the text; the written text
-- has no control character and no quote that is not escaped, for any text.
pub json_string-json_escape :
    (w : Win) (s : WString) (rest : Bytes)
    → json_string within_string (json_escape w s ++ (quote ∷ rest)) ≡ some (to_utf8 w s, rest)
unfolding json_escape
json_string-json_escape w s rest = json_string-bytes (to_utf8 w s) rest
