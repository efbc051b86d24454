-- ===== src/Create/Scan/Trees.antt =====
-- Directory trees, what is archived of them, and counting it.
use cryo.Base.{
  ℕ, suc, ◌+◌, ◌≡◌, refl, String, List, [], ◌∷◌, ◌++◌, map, arith, if◌then◌else◌, inr, ◌⊎◌,
}
use cryo.Create.Scan.{FileKind, directory, regular, link, special, DirEntry}
use cryo.Errors.{IoError}
use cryo.FilePath.{FilePath, normal, path_eq}

-- What a directory has, in the order that the system lists it: name, kind, and what a directory has
-- in turn.
pub data Forest : Type 0 where
  bare : Forest
  grow : String → FileKind → Forest → Forest → Forest

pub record Item : Type 0 where
  pub name : String
  pub kind : FileKind
  pub contents : Forest

abbrev pub items : Forest → List Item
items bare = []
items (grow n k c rest) = record { name = n; kind = k; contents = c } ∷ items rest

abbrev pub below : FilePath → String → FilePath
below dir n = dir ++ (normal n ∷ [])

-- The path of an entry that is archived.
abbrev pub shown : FileKind → FilePath → List FilePath
shown directory p = p ∷ []
shown regular p = p ∷ []
shown link p = p ∷ []
shown special p = []

-- All paths of a tree.
abbrev pub walk : FilePath → Forest → List FilePath
walk dir bare = []
walk dir (grow n directory c rest) = below dir n ∷ (walk (below dir n) c ++ walk dir rest)
walk dir (grow n k c rest) = shown k (below dir n) ++ walk dir rest

abbrev pub entry_of : Item → DirEntry
entry_of i = record { file_name = i.name; kind = inr i.kind }

abbrev pub listing : Forest → List (IoError ⊎ DirEntry)
listing f = map inr (map entry_of (items f))

-- The directories of a tree, each of which is a round.
abbrev pub directories : Forest → ℕ
directories bare = 0
directories (grow n directory c rest) = suc (directories c + directories rest)
directories (grow n k c rest) = directories rest

-- A sum over the items.
abbrev pub sum : (Item → ℕ) → List Item → ℕ
sum f [] = 0
sum f (i ∷ is) = f i + sum f is

-- How often a path is in a list.
abbrev pub count : FilePath → List FilePath → ℕ
count p [] = 0
count p (q ∷ qs) = (if path_eq p q then 1 else 0) + count p qs

pub count-append :
    (p : FilePath) (xs ys : List FilePath) → count p (xs ++ ys) ≡ count p xs + count p ys
count-append p [] ys = omega arith
count-append p (x ∷ xs) ys = omega (arith, count-append p xs ys)

-- What waits below an item, and what is shown of it.
abbrev pub deep : FilePath → FilePath → FileKind → Forest → ℕ
deep p path directory c = count p (walk path c)
deep p path regular c = 0
deep p path link c = 0
deep p path special c = 0

abbrev pub deep_of : FilePath → FilePath → Item → ℕ
deep_of p dir i = deep p (below dir i.name) i.kind i.contents

abbrev pub shown_of : FilePath → FilePath → Item → ℕ
shown_of p dir i = count p (shown i.kind (below dir i.name))

pub count-walk :
    (p dir : FilePath) (f : Forest)
    → count p (walk dir f) ≡ sum (shown_of p dir) (items f) + sum (deep_of p dir) (items f)
count-walk p dir bare = omega arith
count-walk p dir (grow n directory c rest) =
    omega (arith, count-append p (walk (below dir n) c) (walk dir rest), count-walk p dir rest)
count-walk p dir (grow n regular c rest) = omega (arith, count-walk p dir rest)
count-walk p dir (grow n link c rest) = omega (arith, count-walk p dir rest)
count-walk p dir (grow n special c rest) = omega (arith, count-walk p dir rest)

abbrev pub rounds_of : Item → ℕ
rounds_of i = elim i.kind [ directory ↦ suc (directories i.contents) | other ↦ 0 ]

pub directories-items : (f : Forest) → directories f ≡ sum rounds_of (items f)
directories-items bare = refl
directories-items (grow n directory c rest) = omega (arith, directories-items rest)
directories-items (grow n regular c rest) = omega (arith, directories-items rest)
directories-items (grow n link c rest) = omega (arith, directories-items rest)
directories-items (grow n special c rest) = omega (arith, directories-items rest)
