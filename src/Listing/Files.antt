-- ===== src/Listing/Files.antt =====
-- src/list.rs, `list_files`: the command that lists an archive.
pub mod Prints
use cryo.Base.{Bool, if◌then◌else◌}
use cryo.Base.Text.{Text}
use cryo.Codec.{Prompts}
use cryo.Commands.{Paths, check_read_only_args_for_errors}
use cryo.Compress.Chunks.{io}
use cryo.Consts.{default_limits}
use cryo.Errors.{Result, ok, ◌>>=◌, ◌>>◌}
use cryo.Externals.{Compressors, Ciphers, Serializers}
use cryo.FilePath.{FilePath}
use cryo.Format.Sizes.{Floats}
use cryo.Listing.Document.{print_json}
use cryo.Listing.Human.{print_human}
use cryo.Listing.Plain.{print_plain}
use cryo.Loader.{FileStructs, retrieve}
use cryo.Printers.{Printers}

pub data OutputFormat : Type 0 where
  auto human plain json : OutputFormat

pub record ListArgs : Type 0 where
  pub archive : FilePath
  pub format : OutputFormat
  pub confirm : Bool

module _ (pr : Printers) (fl : Floats) where
  -- What is printed; `terminal` says whether stdout is one.
  unfoldable pub print_structs : OutputFormat → Bool → FileStructs → Text → Text
  unfolding print_human print_plain print_json
  print_structs OutputFormat.human terminal structs path_str =
      print_human pr fl structs.header structs.index path_str
  print_structs OutputFormat.plain terminal structs path_str =
      print_plain pr fl structs.header structs.index path_str
  print_structs OutputFormat.json terminal structs path_str =
      print_json pr fl structs.header structs.index path_str
  print_structs OutputFormat.auto terminal structs path_str =
      if terminal
      then print_human pr fl structs.header structs.index path_str
      else print_plain pr fl structs.header structs.index path_str

  -- The text that goes to stdout.
  unfoldable pub list_files :
      Compressors → Ciphers → Serializers → Paths → Bool → ListArgs → Prompts → Result Text
  unfolding print_structs
  list_files L S Z paths terminal args typed = do
    check_read_only_args_for_errors paths args.archive
    content ← io args.archive (paths.opened args.archive)
    structs ← retrieve L S Z args.archive default_limits args.confirm typed content
    ok (print_structs args.format terminal structs (pr.display args.archive))
