-- ===== src/Extract/Below.antt =====
-- Nothing that an archive says puts a file or a link outside of the root.
use cryo.Base.{ℕ, ◌≡◌, true, Option, some, List, [], ◌∷◌, ◌++◌, All, ◌⊎◌}
use mathlib.Core.Option.{get_or}
use cryo.Extract.{FileSystem}
use cryo.FilePath.{FilePath, starts_with, join, parent}
use cryo.PathSafety.{Change, made_dir, made_link, made_file, normalize}
use cryo.Base.Bytes.{Bytes}
use cryo.PathSafety.Output.{IsInside, Allowed}

module _ (fs : FileSystem) (root : FilePath) where
  -- Where a file, a link or a directory of an archive is put, when `made` has been made: a name of
  -- its own below the root, in a directory that was below the resolved root when it was looked at,
  -- since when nothing but a directory has been made.
  pub record IsPlaced (made : List Change) (out : FilePath) : Type 0 where
    pub relative : FilePath
    pub before : List Change
    pub checked : List Change
    pub allowed : Allowed fs.directories before checked root relative out
    pub since : (checked ≡ made) ⊎ ((dir : FilePath) × (checked ++ (made_dir dir ∷ []) ≡ made))

  -- What a link points to, resolved from the directory that it lies in, is below the resolved root.
  pub record PointsBelow (made : List Change) (target out : FilePath) : Type 0 where
    pub canonical_root : FilePath
    pub canonical_link_dir : FilePath
    pub root_resolves : fs.directories.canonicalize made root ≡ some canonical_root
    pub dir_resolves :
        fs.directories.canonicalize made (get_or (parent out) root) ≡ some canonical_link_dir
    pub below : starts_with (normalize (join canonical_link_dir target)) canonical_root ≡ true

  -- A change that may follow others.
  pub data IsSafe (made : List Change) : Change → Type 0 where
    the_root : IsSafe made (made_dir root)
    a_parent :
        (relative dir : FilePath)
        → All IsInside relative
        → parent (join root relative) ≡ some dir
        → IsSafe made (made_dir dir)
    a_dir : (p : FilePath) → IsPlaced made p → IsSafe made (made_dir p)
    a_file :
        (p : FilePath) (content : Bytes) (permissions timestamp : ℕ)
        → IsPlaced made p
        → IsSafe made (made_file p content permissions timestamp)
    a_link :
        (target p : FilePath)
        → IsPlaced made p
        → PointsBelow made target p
        → IsSafe made (made_link target p)

  -- All changes were safe when they were made.
  pub data IsUnder : List Change → Type 0 where
    nothing : IsUnder []
    then_made :
        (made : List Change) (c : Change)
        → IsUnder made
        → IsSafe made c
        → IsUnder (made ++ (c ∷ []))
