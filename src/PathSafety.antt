-- ===== src/PathSafety.antt =====
-- src/path_safety.rs: where an archive may write.
pub mod Normalize
pub mod Output
use mathlib.Core.List.{foldl}
use cryo.Base.{ℕ, Bool, true, false, not, Option, none, some, List, [], ◌∷◌, ◌++◌, if◌then◌else◌}
use cryo.Base.Bytes.{Bytes}
use cryo.Errors.{
  Result, ok, err, or_err, reject, ◌>>=◌, ◌>>◌, unsafe_path, invalid_path, write_error,
}
use cryo.FilePath.{
  FilePath, Component, prefix, root_dir, cur_dir, parent_dir, normal, starts_with, join, parent,
}

-- The loop returns at the first component that leads out.
unfoldable pub is_safe_path : FilePath → Bool
is_safe_path [] = true
is_safe_path (parent_dir ∷ p) = false
is_safe_path (root_dir ∷ p) = false
is_safe_path (prefix s ∷ p) = false
is_safe_path (normal s ∷ p) = is_safe_path p
is_safe_path (cur_dir ∷ p) = is_safe_path p

-- What has been made on the disk so far.
pub data Change : Type 0 where
  made_dir : FilePath → Change
  made_link : FilePath → FilePath → Change
  made_file : FilePath → Bytes → ℕ → ℕ → Change

-- The directories of the file system: `canonicalize` follows links, and answers for the state that
-- the changes so far have left.
pub record Directories : Type 0 where
  pub create_dir_all : List Change → FilePath → Bool
  pub canonicalize : List Change → FilePath → Option FilePath

module _ (fs : Directories) where
  check_parent : List Change → FilePath → FilePath → Option FilePath → Result (List Change)
  check_parent made canonical_root relative none = ok made
  check_parent made canonical_root relative (some dir) = do
    reject (not (fs.create_dir_all made dir)) write_error
    let made' = made ++ (made_dir dir ∷ [])
    canonical_parent ← or_err (unsafe_path canonical_root) (fs.canonicalize made' dir)
    reject (not (starts_with canonical_parent canonical_root)) (unsafe_path relative)
    ok made'

  -- `safe_output_path`, with the changes that it has made.
  unfoldable pub safe_output_path :
      List Change → FilePath → FilePath → Result (FilePath × List Change)
  unfolding check_parent
  safe_output_path made root relative = do
    reject (not (is_safe_path relative)) (unsafe_path relative)
    let joined = join root relative
    canonical_root ← or_err invalid_path (fs.canonicalize made root)
    made' ← check_parent made canonical_root relative (parent joined)
    ok (joined, made')

-- The stack of `normalize`, its top in front.
abbrev pub Stack : Type 0
Stack = List Component

unfoldable pub pop_or_push : Stack → Stack
pop_or_push (normal s ∷ stack) = stack
pop_or_push stack = parent_dir ∷ stack

unfoldable pub step : Stack → Component → Stack
unfolding pop_or_push
step stack (normal s) = normal s ∷ stack
step stack parent_dir = pop_or_push stack
step stack cur_dir = stack
step stack root_dir = root_dir ∷ stack
step stack (prefix s) = prefix s ∷ stack

-- `stack.iter().collect()`: the components are joined one by one, from the bottom.
unfoldable pub collect : Stack → FilePath
collect [] = []
collect (c ∷ stack) = join (collect stack) (c ∷ [])

unfoldable pub normalize : FilePath → FilePath
normalize p = collect (foldl step [] p)
