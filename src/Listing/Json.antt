-- ===== src/Listing/Json.antt =====
-- src/list.rs, `js`: a text as a JSON string.
pub mod RoundTrip
pub mod Spells
pub mod Tokens
use cryo.Base.{ℕ, ◌+◌, ◌/◌, ◌%◌, true, false, List, [], ◌∷◌, ◌++◌, ltb, ◌==◌, ◌-◌, if◌then◌else◌}
use cryo.Base.Text.{Text}

-- `{:x}` of one digit.
abbrev pub hex_digit : ℕ → ℕ
hex_digit d = elim (ltb d 10) [ true ↦ b'0' + d | false ↦ b'a' + (d - 10) ]

-- `\u{:04x}` of a control character, which has two digits.
abbrev pub unicode_escape : ℕ → Text
unicode_escape c = b'\\' ∷ b'u' ∷ b'0' ∷ b'0' ∷ hex_digit (c / 16) ∷ hex_digit (c % 16) ∷ []

-- One character.
unfoldable pub escape : ℕ → Text
escape c =
    if c == b'"'
    then b'\\' ∷ b'"' ∷ []
    else if c == b'\\'
    then b'\\' ∷ b'\\' ∷ []
    else if c == b'\n'
    then b'\\' ∷ b'n' ∷ []
    else if c == b'\r'
    then b'\\' ∷ b'r' ∷ []
    else if c == b'\t'
    then b'\\' ∷ b't' ∷ []
    else if ltb c 32
    then unicode_escape c
    else c ∷ []

unfoldable pub escape_all : Text → Text
unfolding escape
escape_all [] = []
escape_all (c ∷ s) = escape c ++ escape_all s

unfoldable pub js : Text → Text
unfolding escape_all
js s = b'"' ∷ (escape_all s ++ (b'"' ∷ []))
