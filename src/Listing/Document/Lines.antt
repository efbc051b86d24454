-- ===== src/Listing/Document/Lines.antt =====
-- The lines of the document that `print_json` prints, as tokens.
use cryo.Base.{ℕ, ◌≡◌, refl, sym, ap, ◌∙◌, Option, none, some, List, [], ◌∷◌, ◌++◌, append_assoc}
use cryo.Base.Int.{ℤ, pos}
use cryo.Base.Text.{Text, codes, digits, decimal}
use cryo.Listing.Document.{string_line}
use cryo.Listing.Json.{js}
use cryo.Listing.Json.Spells.{Spells, ◌&◌, js-Spells, decimal-Spells, comma-Ends, newline-Ends}
use cryo.Listing.Json.Tokens.{
  Token, close_object, comma, colon, num, str, between, emit, step, tokens,
}
use mathlib.Core.Path.{subst}

-- The tokens of the lines.
abbrev pub key : Text → List Token
key k = str k ∷ colon ∷ []

abbrev pub string_tokens : Text → Text → List Token
string_tokens k s = str k ∷ colon ∷ str s ∷ comma ∷ []

abbrev pub number_tokens : Text → ℤ → List Token
number_tokens k z = str k ∷ colon ∷ num z ∷ comma ∷ []

pub comma_line : Spells (codes ",\n") (comma ∷ [])
unfolding tokens step
comma_line = record { apply = λ r. refl }

pub newline_rest : Spells (codes "\n") []
unfolding tokens step
newline_rest = record { apply = λ r. refl }

pub spelt :
    (s : Text) (ts : List Token)
    → ((r : Text) → tokens between (s ++ r) ≡ emit ts (tokens between r))
    → Spells s ts
spelt s ts h = record { apply = h }

module _ (name k : Text) (named : Spells name (key k)) where
  pub string_line-Spells : (s : Text) → Spells (string_line name s) (string_tokens k s)
  string_line-Spells s = named & js-Spells s & comma_line

  -- A number with a comma and a new line behind it.
  pub decimal_line-Spells :
      (z : ℤ) → Spells (name ++ (decimal z ++ codes ",\n")) (number_tokens k z)
  decimal_line-Spells z =
      named
      & subst (λ (s : Text). Spells s (num z ∷ comma ∷ []))
          (append_assoc (decimal z) (b',' ∷ []) (codes "\n"))
          (decimal-Spells z b',' (comma ∷ []) comma-Ends & newline_rest)

-- A target of a link.
abbrev pub target_tokens : Option Text → List Token
target_tokens none = []
target_tokens (some t) = comma ∷ str (codes "target") ∷ colon ∷ str t ∷ []

abbrev pub target_text : Option Text → Text
target_text none = codes "\n"
target_text (some t) = codes ",\n      \"target\": " ++ (js t ++ codes "\n")

target_key : Spells (codes "\n      \"target\": ") (key (codes "target"))
unfolding tokens step
target_key = record { apply = λ r. refl }

-- A time, with the target that may follow it.
modified-Spells :
    (n : ℕ) (o : Option Text) → Spells (digits n ++ target_text o) (num (pos n) ∷ target_tokens o)
modified-Spells n none = decimal-Spells (pos n) b'\n' [] newline-Ends
modified-Spells n (some t) =
    subst (λ (s : Text). Spells s (num (pos n) ∷ target_tokens (some t)))
      (append_assoc (digits n) (b',' ∷ []) _)
      (decimal-Spells (pos n) b',' (comma ∷ []) comma-Ends
        & target_key
        & js-Spells t
        & newline_rest)

brace_line : Spells (codes "    }") (close_object ∷ [])
unfolding tokens step
brace_line = record { apply = λ r. refl }

pub last_line-Spells :
    (n : ℕ) (o : Option Text) (s : Text)
    → s ≡ target_text o
    → Spells
        (digits n ++ (s ++ codes "    }"))
        ((num (pos n) ∷ target_tokens o) ++ (close_object ∷ []))
last_line-Spells n o s e =
    subst (λ (t : Text). Spells t ((num (pos n) ∷ target_tokens o) ++ (close_object ∷ [])))
      (append_assoc (digits n) (target_text o) (codes "    }")
        ∙ ap (λ (t : Text). digits n ++ (t ++ codes "    }")) (sym e))
      (modified-Spells n o & brace_line)
