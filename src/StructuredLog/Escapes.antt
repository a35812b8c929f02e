-- ===== src/StructuredLog/Escapes.antt =====
-- `escape` of src/observability/structured_log.cpp, and how JSON reads a text.
use mathlib.Core.List.{append_assoc}
use trader_two.Prelude.{
  ℕ, zero, suc, ◌+◌, ◌-◌, ◌*◌, ◌/◌, ◌%◌, ◌<◌, ◌==◌, ltb, ◌≡◌, refl, ap, ◌∙◌, if◌then◌else◌, [], ◌∷◌,
  ◌++◌, Option, none, some, length, arith,
}
use trader_two.Text.{Bytes}

-- A digit of `%x`.
abbrev pub hex_digit : ℕ → ℕ
hex_digit d = if ltb d 10 then 48 + d else 87 + d

unfoldable pub escape_byte : ℕ → Bytes
escape_byte c =
    if c == b'"'
    then b'\\' ∷ b'"' ∷ []
    else if c == b'\\'
    then b'\\' ∷ b'\\' ∷ []
    else if c == 10
    then b'\\' ∷ b'n' ∷ []
    else if c == 13
    then b'\\' ∷ b'r' ∷ []
    else if c == 9
    then b'\\' ∷ b't' ∷ []
    else if ltb c 32
    then b'\\' ∷ b'u' ∷ b'0' ∷ b'0' ∷ hex_digit (c / 16) ∷ hex_digit (c % 16) ∷ []
    else c ∷ []

unfoldable pub escape : Bytes → Bytes
unfolding escape_byte
escape [] = []
escape (c ∷ s) = escape_byte c ++ escape s

-- The value of a digit in small letters.
abbrev hex_value : ℕ → ℕ
hex_value c = if ltb c 58 then c - 48 else c - 87

hex_char : Bytes → Option (Option ℕ × Bytes)
hex_char (a ∷ b ∷ c ∷ d ∷ s) =
    some (some (((hex_value a * 16 + hex_value b) * 16 + hex_value c) * 16 + hex_value d), s)
hex_char _ = none

-- What stands behind a backslash.
escaped_char : Bytes → Option (Option ℕ × Bytes)
unfolding hex_char
escaped_char [] = none
escaped_char (e ∷ s) =
    if e == b'"'
    then some (some b'"', s)
    else if e == b'\\'
    then some (some b'\\', s)
    else if e == b'n'
    then some (some 10, s)
    else if e == b'r'
    then some (some 13, s)
    else if e == b't'
    then some (some 9, s)
    else if e == b'u'
    then hex_char s
    else none

-- A character of a JSON text, or its closing quote.
next_char : Bytes → Option (Option ℕ × Bytes)
unfolding escaped_char
next_char [] = none
next_char (c ∷ s) =
    if c == b'"'
    then some (none, s)
    else if c == b'\\'
    then escaped_char s
    else if ltb c 32
    then none
    else some (some c, s)

-- The text up to its closing quote, and what follows.
unfoldable pub read_text : ℕ → Bytes → Option (Bytes × Bytes)
unfolding next_char
read_text zero s = none
read_text (suc fuel) s = elim (next_char s) [
  | none ↦ none
  | some (none, rest) ↦ some ([], rest)
  | some (some c, rest) ↦ elim (read_text fuel rest) [
    | none ↦ none
    | some (t, left) ↦ some (c ∷ t, left)
  ]
]

next_char-escape_byte : (c : ℕ) (s : Bytes) → next_char (escape_byte c ++ s) ≡ some (some c, s)
unfolding next_char escape_byte
next_char-escape_byte c s = ground arith

-- A JSON reader that starts behind the opening quote of an escaped text finds the text and its
-- closing quote, whatever bytes the text holds and whatever follows, where it has more rounds than
-- the text has bytes.
pub read_text-escape :
    (fuel : ℕ) (s rest : Bytes)
    → length s < fuel
    → read_text fuel (escape s ++ (b'"' ∷ rest)) ≡ some (s, rest)
unfolding read_text escape
read_text-escape zero s rest lt = absurd (omega arith)
read_text-escape (suc fuel) [] rest lt = refl
read_text-escape (suc fuel) (c ∷ s) rest lt =
    let next : next_char ((escape_byte c ++ escape s) ++ (b'"' ∷ rest))
        ≡ some (some c, escape s ++ (b'"' ∷ rest)) =
      ap next_char (append_assoc (escape_byte c) (escape s) (b'"' ∷ rest))
      ∙ next_char-escape_byte c (escape s ++ (b'"' ∷ rest)) in
    rw (next, read_text) (rw (read_text-escape fuel s rest (omega arith)) refl)
