-- ===== src/Commands.antt =====
-- src/decompress.rs, src/verify.rs, src/filter.rs, and in src/list.rs the check of the archive's path:
-- the commands that read an archive.
pub mod Below
use Prim.Native.String.{◌++◌ as str_append}
use cryo.Base.{
  ℕ, ◌/◌, ◌%◌, String, Bool, true, false, not, ◌&&◌, Option, none, some, List, [], ◌∷◌, ◌==◌,
  if◌then◌else◌, ◌⊎◌,
}
use cryo.Base.Bytes.{Bytes, u32_mod}
use cryo.Codec.{Prompts}
use cryo.Compress.Chunks.{io}
use cryo.Consts.{Limits, default_limits}
use cryo.Errors.{
  Result, ok, err, or_err, reject, ◌>>=◌, ◌>>◌, IoError, initialization_error, invalid_pattern,
}
use cryo.Externals.{Compressors, Ciphers, Serializers}
use cryo.Extract.{FileSystem, handle_files}
use cryo.FilePath.{FilePath, cur_dir, parent}
use cryo.Format.{FileEntry, Index}
use cryo.PathSafety.{Change}
use cryo.Reader.{ArchiveReader, new_reader, verify}
use text.Mathlib.Text.{◌==◌ as str_eq}

-- globset: a pattern is parsed, patterns are put together, and paths are matched.
pub record Globs : Type 1 where
  pub Pattern : Type 0
  pub Matcher : Type 0
  pub parse : String → Option Pattern
  pub build : List Pattern → Option Matcher
  pub is_match : Matcher → FilePath → Bool

-- What std answers about the paths of a command line. `dir_count` is how many entries a directory has.
pub record Paths : Type 0 where
  pub extension : FilePath → Option String
  pub exists : FilePath → Bool
  pub is_file : FilePath → Bool
  pub is_dir : FilePath → Bool
  pub dir_count : FilePath → IoError ⊎ ℕ
  pub opened : FilePath → IoError ⊎ Bytes
  pub display : FilePath → String

pub record DecompressArgs : Type 0 where
  pub archive : FilePath
  pub output : FilePath
  pub max_file_size : Option ℕ
  pub max_block_size : Option ℕ
  pub max_m_cost : Option ℕ
  pub max_index_size : Option ℕ
  pub max_header_size : Option ℕ
  pub filter : List String
  pub confirm : Bool

-- The limit on argon2's memory is given in bytes and kept in KiB, as a u32. `usize` has 64 bits.
unfoldable pub limits_of : DecompressArgs → Limits
limits_of args = record {
  file_size = args.max_file_size;
  block_size = args.max_block_size;
  m_cost = elim args.max_m_cost [ none ↦ none | some max_m ↦ some (max_m / 1024 % u32_mod) ];
  index_size = args.max_index_size;
  header_size = args.max_header_size;
}

module _ (paths : Paths) where
  -- `check_read_only_args_for_errors`
  unfoldable pub check_read_only_args_for_errors : FilePath → Result (Unit {0})
  check_read_only_args_for_errors archive =
      let is_cryo : Bool = elim (paths.extension archive) [
        | none ↦ false
        | some e ↦ str_eq e "cryo"
      ] in
      if is_cryo && paths.is_file archive
      then ok tt
      else err (initialization_error "path is not a .cryo archive file")

  check_output : FilePath → Result (Unit {0})
  check_output out =
      if paths.exists out && paths.is_dir out
      then (do
        count ← io out (paths.dir_count out)
        reject (not (count == 0)) (
            initialization_error
              "Output directory is not empty (empty directory or new path required)"))
      else ok tt

  -- `check_decompression_for_arg_err`
  unfoldable pub check_decompression_for_arg_err : FilePath → FilePath → Result (Unit {0})
  unfolding check_output
  check_decompression_for_arg_err arv out = do
    dir ← or_err (initialization_error "Parent directory for output doesn't exist") (parent out)
    check_output out
    reject (not (paths.exists arv))
        (initialization_error (str_append "Archive not found: " (paths.display arv)))
    reject (not (paths.is_file arv)) (
        initialization_error
          (str_append "'" (str_append (paths.display arv) "' exists but is not a file")))

-- `build_matcher`
parse_all : (globs : Globs) → List String → Result (List globs.Pattern)
parse_all globs [] = ok []
parse_all globs (p ∷ patterns) = do
  pattern ← or_err invalid_pattern (globs.parse p)
  more ← parse_all globs patterns
  ok (pattern ∷ more)

unfoldable pub build_matcher : (globs : Globs) → List String → Result globs.Matcher
unfolding parse_all
build_matcher globs patterns = do
  added ← parse_all globs patterns
  or_err invalid_pattern (globs.build added)

-- `files.into_iter().filter(...)`: all files, where there are no patterns.
unfoldable pub matching :
    (globs : Globs) → List String → globs.Matcher → List FileEntry → List FileEntry
matching globs patterns matcher [] = []
matching globs [] matcher (f ∷ files) = f ∷ matching globs [] matcher files
matching globs (p ∷ patterns) matcher (f ∷ files) =
    let rest = matching globs (p ∷ patterns) matcher files in
    if globs.is_match matcher f.path then f ∷ rest else rest

abbrev pub filtered : (globs : Globs) → List String → globs.Matcher → ArchiveReader → ArchiveReader
filtered globs patterns matcher arch = record arch {
  index = record arch.index { files = matching globs patterns matcher arch.index.files };
}

module _ (L : Compressors) (S : Ciphers) (Z : Serializers) where
  -- `initialize_decompression`, less the progress bars and the log.
  unfoldable pub initialize_decompression :
      Globs → Paths → FileSystem → DecompressArgs → Prompts → Result (List Change)
  initialize_decompression globs paths fs args typed = do
    matcher ← build_matcher globs args.filter
    check_decompression_for_arg_err paths args.archive args.output
    content ← io args.archive (paths.opened args.archive)
    arch ← new_reader L S Z args.archive args.output (limits_of args) args.confirm typed content
    handle_files fs L S Z (filtered globs args.filter matcher arch)

  -- `verify_archive`
  unfoldable pub verify_archive : Paths → FilePath → Prompts → Result (Unit {0})
  verify_archive paths archive typed = do
    check_read_only_args_for_errors paths archive
    content ← io archive (paths.opened archive)
    arch ← new_reader L S Z archive (cur_dir ∷ []) default_limits false typed content
    verify L S Z archive arch
