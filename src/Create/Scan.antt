-- ===== src/Create/Scan.antt =====
-- src/compress.rs, `retrieve_all_files`: what lies below a directory.
pub mod Trees
pub mod Sorted
pub mod Whole
use cryo.Base.{
  ℕ, zero, suc, String, Bool, Option, none, some, List, [], ◌∷◌, ◌++◌, if◌then◌else◌, ◌⊎◌, inl, inr,
}
use cryo.Errors.{Result, ok, err, ◌>>=◌, IoError, recursive_lookup_failed}
use cryo.FilePath.{FilePath, normal}

-- `file_type` of an entry says one of these, or it is a socket, a device or a pipe.
pub data FileKind : Type 0 where
  directory regular link special : FileKind

pub record DirEntry : Type 0 where
  pub file_name : String
  pub kind : IoError ⊎ FileKind

-- What std::fs answers about directories, and std's order of names.
pub record DirReader : Type 0 where
  pub read_dir : FilePath → IoError ⊎ List (IoError ⊎ DirEntry)
  pub name_le : String → String → Bool

abbrev lookup_io {ℓ} : {A : Type ℓ} → FilePath → IoError ⊎ A → Result A
lookup_io dir (inl e) = err (recursive_lookup_failed dir e)
lookup_io dir (inr a) = ok a

-- `.collect::<Result<Vec<_>, _>>()`: the first error ends it.
collect_entries : FilePath → List (IoError ⊎ DirEntry) → Result (List DirEntry)
collect_entries dir [] = ok []
collect_entries dir (x ∷ xs) = do
  entry ← lookup_io dir x
  entries ← collect_entries dir xs
  ok (entry ∷ entries)

module _ (sys : DirReader) where
  -- `names.sort_by_key(|e| e.file_name())`, which keeps equal names in their order.
  unfoldable pub insert_entry : DirEntry → List DirEntry → List DirEntry
  insert_entry e [] = e ∷ []
  insert_entry e (x ∷ xs) =
      let rest = insert_entry e xs in
      if sys.name_le e.file_name x.file_name then e ∷ x ∷ xs else x ∷ rest

  unfoldable pub sort_entries : List DirEntry → List DirEntry
  unfolding insert_entry
  sort_entries [] = []
  sort_entries (e ∷ es) = insert_entry e (sort_entries es)

  unfoldable pub dir_names : FilePath → Result (List DirEntry)
  unfolding collect_entries sort_entries
  dir_names dir = do
    listed ← lookup_io dir (sys.read_dir dir)
    names ← collect_entries dir listed
    ok (sort_entries names)

  -- One name: its path is archived, and a directory goes on the stack, whose top is in front.
  abbrev pub scan_one :
      FilePath → FileKind → List FilePath × List FilePath → List FilePath × List FilePath
  scan_one path directory (stack, out) = (path ∷ stack, out ++ (path ∷ []))
  scan_one path regular (stack, out) = (stack, out ++ (path ∷ []))
  scan_one path link (stack, out) = (stack, out ++ (path ∷ []))
  scan_one path special (stack, out) = (stack, out)

  -- The loop over the names of one directory.
  unfoldable pub scan_names :
      FilePath
      → List DirEntry
      → List FilePath × List FilePath
      → Result (List FilePath × List FilePath)
  scan_names dir [] found = ok found
  scan_names dir (e ∷ es) found = do
    kind ← lookup_io dir e.kind
    scan_names dir es (scan_one (dir ++ (normal e.file_name ∷ [])) kind found)

  -- `while let Some(dir) = stack.pop()`. A round reads one directory; `none` would mean that the
  -- rounds ran out.
  unfoldable pub scan_loop : ℕ → List FilePath × List FilePath → Option (Result (List FilePath))
  unfolding scan_names dir_names
  scan_loop rounds ([], out) = some (ok out)
  scan_loop zero (dir ∷ stack, out) = none
  scan_loop (suc rounds) (dir ∷ stack, out) =
      elim (dir_names dir >>= λ names. scan_names dir names (stack, out)) [
        | err e ↦ some (err e)
        | ok next ↦ scan_loop rounds next
      ]

  unfoldable pub retrieve_all_files : ℕ → FilePath → Option (Result (List FilePath))
  unfolding scan_loop
  retrieve_all_files rounds root = scan_loop rounds (root ∷ [], [])
