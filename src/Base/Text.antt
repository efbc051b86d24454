-- ===== src/Base/Text.antt =====
-- Text as the numbers of its characters, and numbers as text.
use Prim.Native.Char.{code}
use cryo.Base.{
  ℕ, zero, suc, ◌+◌, ◌-◌, ◌/◌, ◌%◌, String, List, [], ◌∷◌, ◌++◌, ltb, length, replicate, true,
  false, ◌≡◌, arith,
}
use cryo.Base.Int.{ℤ, pos, negsuc}

abbrev pub Text : Type 0
Text = List ℕ

-- What a literal says.
abbrev pub codes : String → Text
codes String.[] = []
codes (String.◌∷◌ c s) = code c ∷ codes s

-- A number has fewer decimal digits than one more than itself.
abbrev pub digits_within : ℕ → ℕ → Text
digits_within zero n = []
digits_within (suc rounds) n = elim (ltb n 10) [
  | true ↦ (b'0' + n) ∷ []
  | false ↦ digits_within rounds (n / 10) ++ ((b'0' + n % 10) ∷ [])
]

abbrev pub digits : ℕ → Text
digits n = digits_within (suc n) n

-- `{}` of a signed number.
abbrev pub decimal : ℤ → Text
decimal (pos n) = digits n
decimal (negsuc n) = b'-' ∷ digits (suc n)

-- `{:0width}`, which counts the sign.
abbrev pub padded : ℕ → ℤ → Text
padded width (pos n) = replicate (width - length (digits n)) b'0' ++ digits n
padded width (negsuc n) =
    b'-' ∷ (replicate (width - 1 - length (digits (suc n))) b'0' ++ digits (suc n))

pub digits_within-small :
    (rounds n : ℕ) → ltb n 10 ≡ true → digits_within (suc rounds) n ≡ (b'0' + n) ∷ []
digits_within-small rounds n h = ground arith

pub digits_within-large :
    (rounds n : ℕ)
    → ltb n 10 ≡ false
    → digits_within (suc rounds) n ≡ digits_within rounds (n / 10) ++ ((b'0' + n % 10) ∷ [])
digits_within-large rounds n h = ground arith
