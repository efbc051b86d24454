-- ===== src/Listing/Permissions.antt =====
-- src/list.rs, `format_permissions`.
use cryo.Base.{
  ℕ, ◌+◌, ◌*◌, ◌/◌, ◌%◌, ◌^◌, ◌≡◌, refl, ◌⊎◌, false, [], ◌∷◌, ◌==◌, if◌then◌else◌, arith,
}
use cryo.Base.Text.{Text, codes}

-- `if perms & 2^k != 0 { c } else { '-' }`
abbrev flag : ℕ → ℕ → ℕ → ℕ
flag k c perms = if perms / 2 ^ k % 2 == 0 then b'-' else c

unfoldable pub format_permissions : ℕ → Text
format_permissions perms =
    flag 8 b'r' perms
    ∷ flag 7 b'w' perms
    ∷ flag 6 b'x' perms
    ∷ flag 5 b'r' perms
    ∷ flag 4 b'w' perms
    ∷ flag 3 b'x' perms
    ∷ flag 2 b'r' perms
    ∷ flag 1 b'w' perms
    ∷ flag 0 b'x' perms
    ∷ []

-- `chmod`'s reading of the symbols: a dash is a zero, and each column is a bit.
abbrev pub mode_of : ℕ → Text → ℕ
mode_of mode [] = mode
mode_of mode (c ∷ s) = mode_of (mode * 2 + (if c == b'-' then 0 else 1)) s

flag_bit :
    (k c perms : ℕ)
    → (c == b'-') ≡ false
    → (if flag k c perms == b'-' then 0 else 1) ≡ perms / 2 ^ k % 2
flag_bit k c perms h = ground arith

-- Each column has its letter or a dash.
abbrev pub InColumns : Text → Text → Type 0
InColumns [] [] = Unit
InColumns (c ∷ s) (letter ∷ letters) = ((c ≡ b'-') ⊎ (c ≡ letter)) × InColumns s letters
InColumns _ _ = ⊥

in_column : (k c perms : ℕ) → (flag k c perms ≡ b'-') ⊎ (flag k c perms ≡ c)
in_column k c perms = ground arith

-- What is printed for a mode reads back as the mode's lower nine bits, and each of the nine
-- columns has its letter or a dash.
pub mode_of-format_permissions :
    (perms : ℕ)
    → (mode_of 0 (format_permissions perms) ≡ perms % 512)
      × InColumns (format_permissions perms) (codes "rwxrwxrwx")
unfolding format_permissions
mode_of-format_permissions perms = (
  omega (
    arith,
    flag_bit 8 b'r' perms refl,
    flag_bit 7 b'w' perms refl,
    flag_bit 6 b'x' perms refl,
    flag_bit 5 b'r' perms refl,
    flag_bit 4 b'w' perms refl,
    flag_bit 3 b'x' perms refl,
    flag_bit 2 b'r' perms refl,
    flag_bit 1 b'w' perms refl,
    flag_bit 0 b'x' perms refl,
  ),
  (
    in_column 8 b'r' perms,
    (
      in_column 7 b'w' perms,
      (
        in_column 6 b'x' perms,
        (
          in_column 5 b'r' perms,
          (
            in_column 4 b'w' perms,
            (
              in_column 3 b'x' perms,
              (in_column 2 b'r' perms, (in_column 1 b'w' perms, (in_column 0 b'x' perms, tt))),
            ),
          ),
        ),
      ),
    ),
  ),
)
