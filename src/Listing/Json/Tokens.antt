-- ===== src/Listing/Json/Tokens.antt =====
-- A reader of JSON's tokens, from RFC 8259: braces and brackets, commas and colons, strings, and
-- integers, with white space between them. It goes through a text character by character.
use cryo.Base.{
  ℕ, zero, suc, ◌+◌, ◌-◌, ◌*◌, ◌≡◌, refl, ap, Bool, true, false, Option, none, some, List, [], ◌∷◌,
  ◌++◌, ltb, leb, ◌==◌, ◌&&◌, ◌||◌, if◌then◌else◌,
}
use cryo.Base.Int.{ℤ, pos, negsuc}
use cryo.Base.Text.{Text}

pub data Token : Type 0 where
  open_object close_object open_array close_array comma colon : Token
  num : ℤ → Token
  str : Text → Token

-- Where the reader stands in a string: at a character, behind a backslash, or in the digits of a
-- character's number.
pub data Place : Type 0 where
  plain escaped : Place
  hex : ℕ → ℕ → Place

-- Where the reader stands: between tokens, behind a minus, in an integer's digits (with the sign
-- and what they are so far), or in a string (with its characters so far).
pub data Mode : Type 0 where
  between minus : Mode
  number : Bool → ℕ → Mode
  string : Text → Place → Mode

abbrev pub hex_value : ℕ → Option ℕ
hex_value c =
    if leb b'0' c && leb c b'9'
    then some (c - b'0')
    else if leb b'a' c && leb c b'f'
    then some (c - b'a' + 10)
    else if leb b'A' c && leb c b'F'
    then some (c - b'A' + 10)
    else none

-- What a letter behind a backslash stands for.
abbrev pub letter : ℕ → Option ℕ
letter c =
    if c == b'"'
    then some b'"'
    else if c == b'\\'
    then some b'\\'
    else if c == b'/'
    then some b'/'
    else if c == b'b'
    then some 8
    else if c == b'f'
    then some 12
    else if c == b'n'
    then some b'\n'
    else if c == b'r'
    then some b'\r'
    else if c == b't'
    then some b'\t'
    else none

abbrev pub is_digit : ℕ → Bool
is_digit c = leb b'0' c && leb c b'9'

abbrev is_space : ℕ → Bool
is_space c = c == b' ' || c == b'\t' || c == b'\n' || c == b'\r'

abbrev punctuation : ℕ → Option Token
punctuation c =
    if c == b'{'
    then some open_object
    else if c == b'}'
    then some close_object
    else if c == b'['
    then some open_array
    else if c == b']'
    then some close_array
    else if c == b','
    then some comma
    else if c == b':'
    then some colon
    else none

-- An integer by its sign.
abbrev pub signed : Bool → ℕ → ℤ
signed false n = pos n
signed true zero = pos 0
signed true (suc n) = negsuc n

-- A character between tokens, behind the tokens `out`.
start : List Token → ℕ → Option (List Token × Mode)
start out c =
    if is_space c
    then some (out, between)
    else if c == b'"'
    then some (out, string [] plain)
    else if c == b'-'
    then some (out, minus)
    else if is_digit c
    then some (out, number false (c - b'0'))
    else elim (punctuation c) [ none ↦ none | some t ↦ some (out ++ (t ∷ []), between) ]

-- A digit goes on; a space, a comma or a closing mark ends the number. Nothing follows a 0.
end_number : Bool → ℕ → ℕ → Option (List Token × Mode)
end_number neg n c =
    if is_space c || c == b',' || c == b']' || c == b'}'
    then start (num (signed neg n) ∷ []) c
    else none

in_string : Text → Place → ℕ → Option (List Token × Mode)
in_string s plain c =
    if c == b'"'
    then some (str s ∷ [], between)
    else if c == b'\\'
    then some ([], string s escaped)
    else if ltb c 32
    then none
    else some ([], string (s ++ (c ∷ [])) plain)
in_string s escaped c =
    if c == b'u'
    then some ([], string s (hex 3 0))
    else elim (letter c) [ none ↦ none | some d ↦ some ([], string (s ++ (d ∷ [])) plain) ]
in_string s (hex zero v) c = elim (hex_value c) [
  | none ↦ none
  | some d ↦ some ([], string (s ++ ((v * 16 + d) ∷ [])) plain)
]
in_string s (hex (suc more) v) c = elim (hex_value c) [
  | none ↦ none
  | some d ↦ some ([], string s (hex more (v * 16 + d)))
]

unfoldable pub step : Mode → ℕ → Option (List Token × Mode)
unfolding start end_number in_string
step between c = start [] c
step minus c = if is_digit c then some ([], number true (c - b'0')) else none
step (number neg n) c =
    if is_digit c
    then (if n == 0 then none else some ([], number neg (n * 10 + (c - b'0'))))
    else end_number neg n c
step (string s p) c = in_string s p c

-- What is left at the end of the text.
unfoldable pub ending : Mode → Option (List Token)
ending between = some []
ending (number neg n) = some (num (signed neg n) ∷ [])
ending _ = none

abbrev pub put : Token → Option (List Token) → Option (List Token)
put t none = none
put t (some ts) = some (t ∷ ts)

abbrev pub emit : List Token → Option (List Token) → Option (List Token)
emit [] o = o
emit (t ∷ out) o = put t (emit out o)

unfoldable pub tokens : Mode → Text → Option (List Token)
unfolding step ending
tokens m [] = ending m
tokens m (c ∷ s) = elim (step m c) [ none ↦ none | some (out, m') ↦ emit out (tokens m' s) ]

pub emit-append : (a b : List Token) (o : Option (List Token)) → emit a (emit b o) ≡ emit (a ++ b) o
emit-append [] b o = refl
emit-append (t ∷ a) b o = ap (put t) (emit-append a b o)

-- The tokens of a text that has them all.
pub emit-some : (a ts : List Token) → emit a (some ts) ≡ some (a ++ ts)
emit-some [] ts = refl
emit-some (t ∷ a) ts = ap (put t) (emit-some a ts)

-- One step of a known outcome.
pub tokens-step :
    (m m' : Mode) (c : ℕ) (s : Text) (out : List Token)
    → step m c ≡ some (out, m')
    → tokens m (c ∷ s) ≡ emit out (tokens m' s)
unfolding tokens
tokens-step m m' c s out h = rw (h, tokens) refl
