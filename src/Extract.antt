-- ===== src/Extract.antt =====
-- src/reader.rs, `handle_files` and `extract_file`: what an archive puts on the disk. A time that
-- SystemTime cannot hold, which ends the program, is a time like the others here.
pub mod Below
use mathlib.Core.Option.{get_or}
use cryo.Base.{ℕ, Bool, not, Option, none, some, List, [], ◌∷◌, ◌++◌}
use cryo.Base.Bytes.{Bytes}
use cryo.Errors.{Result, ok, or_err, reject, ◌>>=◌, ◌>>◌, write_error, invalid_path, unsafe_path}
use cryo.Externals.{Compressors, Ciphers, Serializers}
use cryo.FilePath.{FilePath, starts_with, join, parent}
use cryo.Format.{FileEntry, FileType}
use cryo.PathSafety.{
  Change, made_dir, made_link, made_file, Directories, safe_output_path, normalize,
}
use cryo.Reader.{ArchiveReader, build_block_ranges, check_range, extract_content}

-- What the file system answers: whether each call succeeds. A write that fails is seen at the end,
-- with the error that it has wherever it comes.
pub record FileSystem : Type 0 where
  pub directories : Directories
  pub symlink : FilePath → FilePath → Bool
  pub create : FilePath → Bool
  pub set_permissions : FilePath → ℕ → Bool
  pub write : FilePath → Bytes → Bool
  pub set_modified : FilePath → ℕ → Bool

module _ (fs : FileSystem) where
  unfoldable pub make_dir : List Change → FilePath → Result (List Change)
  make_dir made dir = do
    reject (not (fs.directories.create_dir_all made dir)) write_error
    ok (made ++ (made_dir dir ∷ []))

  unfoldable pub make_parent : List Change → Option FilePath → Result (List Change)
  unfolding make_dir
  make_parent made none = ok made
  make_parent made (some dir) = make_dir made dir

  -- A link is made only if its target, resolved from the link's directory, is below the root.
  unfoldable pub make_link : List Change → FilePath → FileEntry → FilePath → Result (List Change)
  make_link made root f out_dir = do
    target ← or_err write_error f.symlink_target
    canonical_root ← or_err invalid_path (fs.directories.canonicalize made root)
    let link_dir = get_or (parent out_dir) root
    canonical_link_dir ← or_err invalid_path (fs.directories.canonicalize made link_dir)
    let resolved = normalize (join canonical_link_dir target)
    reject (not (starts_with resolved canonical_root)) (unsafe_path target)
    reject (not (fs.symlink target out_dir)) write_error
    ok (made ++ (made_link target out_dir ∷ []))

  module _ (L : Compressors) (S : Ciphers) (Z : Serializers) where
    unfoldable pub make_file :
        List Change → ArchiveReader → FileEntry → FilePath → ℕ → List (ℕ × ℕ) → Result (List Change)
    make_file made r f out_dir file_end blocks = do
      reject (not (fs.create out_dir)) write_error
      content ← extract_content L S Z r f file_end blocks
      reject (not (fs.set_permissions out_dir f.permissions)) write_error
      reject (not (fs.write out_dir content)) write_error
      reject (not (fs.set_modified out_dir f.timestamp)) write_error
      ok (made ++ (made_file out_dir content f.permissions f.timestamp ∷ []))

    make_entry :
        FileType
        → List Change
        → ArchiveReader
        → FileEntry
        → FilePath
        → ℕ
        → List (ℕ × ℕ)
        → Result (List Change)
    unfolding make_dir make_link make_file
    make_entry FileType.dir made r f out_dir file_end blocks = make_dir made out_dir
    make_entry FileType.symlink made r f out_dir file_end blocks = make_link made r.root f out_dir
    make_entry FileType.file made r f out_dir file_end blocks =
        make_file made r f out_dir file_end blocks

    unfoldable pub extract_file :
        List Change → ArchiveReader → FileEntry → FilePath → List (ℕ × ℕ) → Result (List Change)
    unfolding make_parent make_entry
    extract_file made r f out_dir blocks = do
      file_end ← check_range L S Z r f
      made' ← make_parent made (parent out_dir)
      make_entry f.ftype made' r f out_dir file_end blocks

    -- The loop of `handle_files`.
    unfoldable pub extract_all :
        ArchiveReader → List (ℕ × ℕ) → List FileEntry → List Change → Result (List Change)
    unfolding extract_file
    extract_all r blocks [] made = ok made
    extract_all r blocks (f ∷ files) made = do
      (out_dir, made') ← safe_output_path fs.directories made r.root f.path
      made'' ← extract_file made' r f out_dir blocks
      extract_all r blocks files made''

    unfoldable pub handle_files : ArchiveReader → Result (List Change)
    unfolding make_dir extract_all
    handle_files r = do
      made ← make_dir [] r.root
      extract_all r (build_block_ranges r.index.block) r.index.files made
