-- ===== src/Base/Tables.antt =====
-- Texts as tables of rows and columns, and the numbers in them.
use cryo.Base.{
  ℕ, zero, suc, ◌+◌, ◌-◌, ◌*◌, ◌/◌, ◌%◌, ◌<◌, ◌≡◌, refl, ap, ◌∙◌, false, List, [], ◌∷◌, ◌++◌, ltb,
  ◌==◌, if◌then◌else◌, arith, append_assoc, Bool-cases, inl, inr,
}
use cryo.Base.Int.{ℤ, pos, negsuc}
use cryo.Base.Text.{Text, digits_within, digits_within-small, digits_within-large, digits, decimal}

-- The mark is not in the text.
abbrev pub Lacks : ℕ → Text → Type 0
Lacks mark [] = Unit
Lacks mark (c ∷ s) = ((c == mark) ≡ false) × Lacks mark s

pub Lacks-append : (mark : ℕ) (s t : Text) → Lacks mark s → Lacks mark t → Lacks mark (s ++ t)
Lacks-append mark [] t p q = q
Lacks-append mark (c ∷ s) t p q = (p.0, Lacks-append mark s t p.1 q)

abbrev pub tab : ℕ
tab = b'\t'

abbrev pub newline : ℕ
newline = b'\n'

-- No tab and no line end.
abbrev pub IsClean : Text → Type 0
IsClean s = Lacks tab s × Lacks newline s

pub IsClean-append : (s t : Text) → IsClean s → IsClean t → IsClean (s ++ t)
IsClean-append s t p q = (Lacks-append tab s t p.0 q.0, Lacks-append newline s t p.1 q.1)

-- A column, and a character, in front of the first row.
abbrev pub put_column : Text → List (List Text) → List (List Text)
put_column s [] = (s ∷ []) ∷ []
put_column s (row ∷ rows) = (s ∷ row) ∷ rows

abbrev pub put_char : ℕ → List (List Text) → List (List Text)
put_char c [] = ((c ∷ []) ∷ []) ∷ []
put_char c ([] ∷ rows) = ((c ∷ []) ∷ []) ∷ rows
put_char c ((s ∷ row) ∷ rows) = ((c ∷ s) ∷ row) ∷ rows

-- The rows of a text, each with its columns: a tab ends a column, and a line end a row.
pub table : Text → List (List Text)
table [] = []
table (c ∷ s) =
    let rows = table s in
    if c == tab
    then put_column [] rows
    else if c == newline
    then ([] ∷ []) ∷ rows
    else put_char c rows

pub table-nil : table [] ≡ []
unfolding table
table-nil = refl

table-tab : (s r : Text) → IsClean s → table (s ++ (tab ∷ r)) ≡ put_column s (table r)
unfolding table
table-tab [] r h = refl
table-tab (c ∷ s) r h = ground (arith, table-tab s r (h.0.1, h.1.1))

table-newline : (s r : Text) → IsClean s → table (s ++ (newline ∷ r)) ≡ (s ∷ []) ∷ table r
unfolding table
table-newline [] r h = refl
table-newline (c ∷ s) r h = ground (arith, table-newline s r (h.0.1, h.1.1))

-- What a text puts in front of the rows of what follows.
pub record Fills (s : Text) (put : List (List Text) → List (List Text)) : Type 0 where
  pub apply : (r : Text) → table (s ++ r) ≡ put (table r)

pub column :
    {rest : Text} {put : List (List Text) → List (List Text)} (s : Text)
    → IsClean s
    → Fills rest put
    → Fills (s ++ (tab ∷ rest)) (λ rows. put_column s (put rows))
column {rest} {put} s clean more = record {
  apply = λ r.
      ap table (append_assoc s (tab ∷ rest) r)
      ∙ table-tab s (rest ++ r) clean
      ∙ ap (put_column s) (more.apply r);
}

pub last_column : (s : Text) → IsClean s → Fills (s ++ (newline ∷ [])) (λ rows. (s ∷ []) ∷ rows)
last_column s clean = record {
  apply = λ r. ap table (append_assoc s (newline ∷ []) r) ∙ table-newline s r clean;
}

-- Marks in front of the digits are in no number.
digits_within-Lacks : (mark rounds n : ℕ) → mark < b'-' → Lacks mark (digits_within rounds n)
digits_within-Lacks mark zero n h = tt
digits_within-Lacks mark (suc rounds) n h = elim (Bool-cases (ltb n 10)) [
  | inl small ↦ rw (digits_within-small rounds n small) (ground arith, tt)
  | inr large ↦ rw (digits_within-large rounds n large) (
      Lacks-append mark (digits_within rounds (n / 10)) ((b'0' + n % 10) ∷ [])
        (digits_within-Lacks mark rounds (n / 10) h) (ground arith, tt))
]

decimal-Lacks : (mark : ℕ) (z : ℤ) → mark < b'-' → Lacks mark (decimal z)
decimal-Lacks mark (pos n) h = digits_within-Lacks mark (suc n) n h
decimal-Lacks mark (negsuc n) h = (ground arith, digits_within-Lacks mark (suc (suc n)) (suc n) h)

pub decimal-IsClean : (z : ℤ) → IsClean (decimal z)
decimal-IsClean z = (decimal-Lacks tab z (omega arith), decimal-Lacks newline z (omega arith))

-- The number that digits mean.
pub number_of : ℕ → Text → ℕ
number_of n [] = n
number_of n (c ∷ s) = number_of (n * 10 + (c - b'0')) s

number_of-append : (n : ℕ) (s t : Text) → number_of n (s ++ t) ≡ number_of (number_of n s) t
unfolding number_of
number_of-append n [] t = refl
number_of-append n (c ∷ s) t = number_of-append (n * 10 + (c - b'0')) s t

number_of-digits_within : (rounds n : ℕ) → n < rounds → number_of 0 (digits_within rounds n) ≡ n
unfolding number_of
number_of-digits_within zero n h = absurd (omega arith)
number_of-digits_within (suc rounds) n h = elim (Bool-cases (ltb n 10)) [
  | inl small ↦ ap (number_of 0) (digits_within-small rounds n small) ∙ omega arith
  | inr large ↦
      ap (number_of 0) (digits_within-large rounds n large)
      ∙ number_of-append 0 (digits_within rounds (n / 10)) ((b'0' + n % 10) ∷ [])
      ∙ ap (λ (k : ℕ). k * 10 + (b'0' + n % 10 - b'0'))
          (number_of-digits_within rounds (n / 10) (ground arith))
      ∙ omega arith
]

pub number_of-digits : (n : ℕ) → number_of 0 (digits n) ≡ n
number_of-digits n = number_of-digits_within (suc n) n (omega arith)
