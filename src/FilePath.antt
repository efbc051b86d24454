-- ===== src/FilePath.antt =====
-- std::path on Unix, as far as the program uses it: a path is the list of its components.
use text.Mathlib.Text.{◌==◌ as str_eq}
use text.Mathlib.TextEquality.{eq_iff}
use cryo.Base.{
  String, ◌≡◌, refl, Bool, true, false, ◌&&◌, Option, none, some, List, [], ◌∷◌, ◌++◌, arith,
  if◌then◌else◌,
}

pub data Component : Type 0 where
  prefix : String → Component
  root_dir cur_dir parent_dir : Component
  normal : String → Component

abbrev pub FilePath : Type 0
FilePath = List Component

unfoldable pub component_eq : Component → Component → Bool
component_eq (prefix s) (prefix t) = str_eq s t
component_eq root_dir root_dir = true
component_eq cur_dir cur_dir = true
component_eq parent_dir parent_dir = true
component_eq (normal s) (normal t) = str_eq s t
component_eq _ _ = false

pub component_eq→eq : (a b : Component) → component_eq a b ≡ true → a ≡ b
unfolding component_eq
component_eq→eq (prefix s) (prefix t) h = ground (arith, eq_iff s t)
component_eq→eq (normal s) (normal t) h = ground (arith, eq_iff s t)
component_eq→eq root_dir root_dir h = refl
component_eq→eq cur_dir cur_dir h = refl
component_eq→eq parent_dir parent_dir h = refl
component_eq→eq _ _ h = cc

pub component_eq_refl : (a : Component) → component_eq a a ≡ true
unfolding component_eq
component_eq_refl (prefix s) = (eq_iff s s).1 refl
component_eq_refl (normal s) = (eq_iff s s).1 refl
component_eq_refl root_dir = refl
component_eq_refl cur_dir = refl
component_eq_refl parent_dir = refl

-- `==` of paths compares their components.
unfoldable pub path_eq : FilePath → FilePath → Bool
path_eq [] [] = true
path_eq [] (d ∷ q) = false
path_eq (c ∷ p) [] = false
path_eq (c ∷ p) (d ∷ q) = component_eq c d && path_eq p q

-- `p.strip_prefix(base)`, and `p.starts_with(base)`, its test.
unfoldable pub strip_prefix : FilePath → FilePath → Option FilePath
strip_prefix p [] = some p
strip_prefix [] (d ∷ base) = none
strip_prefix (c ∷ p) (d ∷ base) =
    let rest = strip_prefix p base in if component_eq c d then rest else none

unfoldable pub starts_with : FilePath → FilePath → Bool
starts_with p [] = true
starts_with [] (d ∷ base) = false
starts_with (c ∷ p) (d ∷ base) = component_eq c d && starts_with p base

-- `base.join(p)`: an absolute path replaces the base, and a `.` counts only at the start of a path.
unfoldable pub join : FilePath → FilePath → FilePath
join base (root_dir ∷ p) = root_dir ∷ p
join base (prefix s ∷ p) = prefix s ∷ p
join [] (cur_dir ∷ p) = cur_dir ∷ p
join (c ∷ base) (cur_dir ∷ p) = (c ∷ base) ++ p
join base p = base ++ p

-- `p.parent()` ends at a root, at a prefix, and at the empty path.
unfoldable pub parent : FilePath → Option FilePath
parent [] = none
parent (root_dir ∷ []) = none
parent (prefix s ∷ []) = none
parent (c ∷ []) = some []
parent (c ∷ d ∷ p) = elim (parent (d ∷ p)) [ some q ↦ some (c ∷ q) | none ↦ some (c ∷ []) ]

-- `p.file_name()`
unfoldable pub file_name : FilePath → Option String
file_name [] = none
file_name (normal s ∷ []) = some s
file_name (c ∷ []) = none
file_name (c ∷ d ∷ p) = file_name (d ∷ p)
