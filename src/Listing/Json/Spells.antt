-- ===== src/Listing/Json/Spells.antt =====
-- Texts that the reader of tokens takes for certain tokens, whatever follows: `js`'s strings, and
-- numbers with the mark behind them.
use cryo.Base.{
  ℕ, zero, suc, ◌+◌, ◌*◌, ◌/◌, ◌%◌, ◌<◌, ◌≡◌, refl, sym, ap, ◌∙◌, Bool, true, false, some, List, [],
  ◌∷◌, ◌++◌, arith, append_assoc, append-nil, ltb, Bool-cases, inl, inr,
}
use cryo.Base.Int.{ℤ, pos, negsuc}
use cryo.Base.Text.{Text, digits_within, digits_within-small, digits_within-large, digits, decimal}
use cryo.Listing.Json.{hex_digit, unicode_escape, escape, escape_all, js}
use cryo.Listing.Json.Tokens.{
  Token, num, str, comma, Mode, between, minus, number, string, plain, hex, hex_value, step, emit,
  tokens, emit-append, tokens-step, escaped, signed,
}

-- `s` is the tokens `ts`, and leaves the reader between tokens.
pub record Spells (s : Text) (ts : List Token) : Type 0 where
  pub apply : (r : Text) → tokens between (s ++ r) ≡ emit ts (tokens between r)

-- One text behind another.
infixr 5 ◌&◌
pub ◌&◌ : {s t : Text} {ts us : List Token} → Spells s ts → Spells t us → Spells (s ++ t) (ts ++ us)
◌&◌ {s} {t} {ts} {us} p q = record {
  apply = λ r.
      ap (tokens between) (append_assoc s t r)
      ∙ p.apply (t ++ r)
      ∙ ap (emit ts) (q.apply r)
      ∙ emit-append ts us (tokens between r);
}

-- A step that gives no token.
quiet : (m m' : Mode) (c : ℕ) (s : Text) → step m c ≡ some ([], m') → tokens m (c ∷ s) ≡ tokens m' s
quiet m m' c s h = tokens-step m m' c s [] h

hex_value-hex_digit : (d : ℕ) → d < 16 → hex_value (hex_digit d) ≡ some d
hex_value-hex_digit d h = ground arith

step-hex :
    (s : Text) (more v d c : ℕ)
    → hex_value c ≡ some d
    → step (string s (hex (suc more) v)) c ≡ some ([], string s (hex more (v * 16 + d)))
unfolding step
step-hex s more v d c h = ground arith

step-hex_last :
    (s : Text) (v d c : ℕ)
    → hex_value c ≡ some d
    → step (string s (hex 0 v)) c ≡ some ([], string (s ++ ((v * 16 + d) ∷ [])) plain)
unfolding step
step-hex_last s v d c h = ground arith

tokens-unicode_escape :
    (s : Text) (c : ℕ) (r : Text)
    → ltb c 32 ≡ true
    → tokens (string s plain) (unicode_escape c ++ r) ≡ tokens (string (s ++ (c ∷ [])) plain) r
tokens-unicode_escape s c r h =
    let high = hex_value-hex_digit (c / 16) (ground arith) in
    let low = hex_value-hex_digit (c % 16) (omega arith) in
    let digits2 = hex_digit (c / 16) ∷ hex_digit (c % 16) ∷ r in
    quiet (string s plain) (string s escaped) b'\\' (b'u' ∷ b'0' ∷ b'0' ∷ digits2)
      (unfold step in refl)
    ∙ quiet (string s escaped) (string s (hex 3 0)) b'u' (b'0' ∷ b'0' ∷ digits2)
        (unfold step in refl)
    ∙ quiet (string s (hex 3 0)) (string s (hex 2 0)) b'0' (b'0' ∷ digits2) (unfold step in refl)
    ∙ quiet (string s (hex 2 0)) (string s (hex 1 0)) b'0' digits2 (unfold step in refl)
    ∙ quiet (string s (hex 1 0)) (string s (hex 0 (0 * 16 + c / 16))) (hex_digit (c / 16))
        (hex_digit (c % 16) ∷ r) (step-hex s 0 0 (c / 16) (hex_digit (c / 16)) high)
    ∙ quiet (string s (hex 0 (0 * 16 + c / 16)))
        (string (s ++ (((0 * 16 + c / 16) * 16 + c % 16) ∷ [])) plain) (hex_digit (c % 16)) r
        (step-hex_last s (0 * 16 + c / 16) (c % 16) (hex_digit (c % 16)) low)
    ∙ ap (λ (x : ℕ). tokens (string (s ++ (x ∷ [])) plain) r) (omega arith)

-- Each character is read back from what it was written as.
tokens-escape :
    (s : Text) (c : ℕ) (r : Text)
    → tokens (string s plain) (escape c ++ r) ≡ tokens (string (s ++ (c ∷ [])) plain) r
unfolding tokens step escape
tokens-escape s c r = ground (arith, tokens-unicode_escape s c r)

tokens-escape_all :
    (s t : Text) (r : Text)
    → tokens (string s plain) (escape_all t ++ (b'"' ∷ r))
      ≡ emit (str (s ++ t) ∷ []) (tokens between r)
unfolding escape_all
tokens-escape_all s [] r =
    tokens-step (string s plain) between b'"' r (str s ∷ []) (unfold step in refl)
    ∙ ap (λ (x : Text). emit (str x ∷ []) (tokens between r)) (sym (append-nil s))
tokens-escape_all s (c ∷ t) r =
    ap (tokens (string s plain)) (append_assoc (escape c) (escape_all t) (b'"' ∷ r))
    ∙ tokens-escape s c (escape_all t ++ (b'"' ∷ r))
    ∙ tokens-escape_all (s ++ (c ∷ [])) t r
    ∙ ap (λ (x : Text). emit (str x ∷ []) (tokens between r)) (append_assoc s (c ∷ []) t)

pub js-Spells : (t : Text) → Spells (js t) (str t ∷ [])
unfolding js
js-Spells t = record {
  apply = λ r.
      quiet between (string [] plain) b'"' ((escape_all t ++ (b'"' ∷ [])) ++ r)
        (unfold step in refl)
      ∙ ap (tokens (string [] plain)) (append_assoc (escape_all t) (b'"' ∷ []) r)
      ∙ tokens-escape_all [] t r;
}

-- Digits, where the reader takes the first one for the start of a number.
module _ (m : Mode) (neg : Bool)
    (first : (d : ℕ) → d < 10 → step m (b'0' + d) ≡ some ([], number neg d)) where
  tokens-digits_within :
      (rounds n : ℕ) (s : Text)
      → n < rounds
      → tokens m (digits_within rounds n ++ s) ≡ tokens (number neg n) s
  tokens-digits_within zero n s h = absurd (omega arith)
  tokens-digits_within (suc rounds) n s h = elim (Bool-cases (ltb n 10)) [
    | inl small ↦
        ap (λ (x : Text). tokens m (x ++ s)) (digits_within-small rounds n small)
        ∙ quiet m (number neg n) (b'0' + n) s (first n (ground arith))
    | inr large ↦
        ap (λ (x : Text). tokens m (x ++ s)) (digits_within-large rounds n large)
        ∙ (ap (tokens m) (append_assoc (digits_within rounds (n / 10)) ((b'0' + n % 10) ∷ []) s)
            ∙ tokens-digits_within rounds (n / 10) ((b'0' + n % 10) ∷ s) (ground arith)
            ∙ quiet (number neg (n / 10)) (number neg n) (b'0' + n % 10) s
                (unfold step in ground arith))
  ]

first_digit : (d : ℕ) → d < 10 → step between (b'0' + d) ≡ some ([], number false d)
unfolding step
first_digit d h = ground arith

minus_digit : (d : ℕ) → d < 10 → step minus (b'0' + d) ≡ some ([], number true d)
unfolding step
minus_digit d h = ground arith

-- What a mark behind a number makes of it.
abbrev pub Ends : ℕ → List Token → Type 0
Ends c out = (neg : Bool) (n : ℕ) → step (number neg n) c ≡ some (num (signed neg n) ∷ out, between)

pub decimal-Spells :
    (z : ℤ) (c : ℕ) (out : List Token) → Ends c out → Spells (decimal z ++ (c ∷ [])) (num z ∷ out)
decimal-Spells (pos n) c out ends = record {
  apply = λ r.
      ap (tokens between) (append_assoc (digits n) (c ∷ []) r)
      ∙ tokens-digits_within between false first_digit (suc n) n (c ∷ r) (omega arith)
      ∙ tokens-step (number false n) between c r (num (pos n) ∷ out) (ends false n);
}
decimal-Spells (negsuc n) c out ends = record {
  apply = λ r.
      quiet between minus b'-' ((digits (suc n) ++ (c ∷ [])) ++ r) (unfold step in refl)
      ∙ ap (tokens minus) (append_assoc (digits (suc n)) (c ∷ []) r)
      ∙ tokens-digits_within minus true minus_digit (suc (suc n)) (suc n) (c ∷ r) (omega arith)
      ∙ tokens-step (number true (suc n)) between c r (num (negsuc n) ∷ out) (ends true (suc n));
}

pub comma-Ends : Ends b',' (comma ∷ [])
unfolding step
comma-Ends neg n = refl

pub newline-Ends : Ends b'\n' []
unfolding step
newline-Ends neg n = refl
