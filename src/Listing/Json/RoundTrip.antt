-- ===== src/Listing/Json/RoundTrip.antt =====
-- A reader of JSON strings, and what it makes of `js`.
use cryo.Base.{◌≡◌, refl, ap, ◌∙◌, Option, none, some, List, [], ◌∷◌, append-nil, sym}
use cryo.Base.Text.{Text}
use cryo.Listing.Json.{js}
use cryo.Listing.Json.Spells.{js-Spells}
use cryo.Listing.Json.Tokens.{Token, str, between, emit, tokens}

abbrev only_string : Option (List Token) → Option Text
only_string (some (str t ∷ [])) = some t
only_string _ = none

-- The text of a string that has nothing beside it.
pub read_string : Text → Option Text
read_string s = only_string (tokens between s)

-- A reader of JSON strings accepts what `js` writes, which so has no control character in it, and
-- gives the text back, whatever characters it has.
pub read_string-js : (s : Text) → read_string (js s) ≡ some s
unfolding read_string tokens
read_string-js s =
    ap (λ (x : Text). only_string (tokens between x)) (sym (append-nil (js s)))
    ∙ ap only_string ((js-Spells s).apply [])
    ∙ ended s
  where
    ended : (t : Text) → only_string (emit (str t ∷ []) (tokens between [])) ≡ some t
    ended t = refl
