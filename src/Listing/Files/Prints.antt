-- ===== src/Listing/Files/Prints.antt =====
-- What `list` prints for an archive that can be opened.
use cryo.Base.{◌≡◌, refl, sym, inr, Bool, true, false, not, some, map, All}
use cryo.Base.Bytes.{Bytes}
use cryo.Base.Tables.{IsClean}
use cryo.Base.Text.{Text}
use cryo.Codec.{Prompts}
use cryo.Commands.{Paths, check_read_only_args_for_errors}
use cryo.Consts.{default_limits}
use cryo.Errors.{ok}
use cryo.Externals.{Compressors, Ciphers, Serializers}
use cryo.Format.{FileEntry}
use cryo.Format.Sizes.{Floats}
use cryo.Listing.Document.Grammar.{IsJson, document}
use cryo.Listing.Document.Reads.{print_json-IsJson}
use cryo.Listing.Files.{OutputFormat, ListArgs, print_structs, list_files}
use cryo.Listing.Plain.Reads.{
  read_plain, read_plain-print_plain, HasCleanPaths, header_columns, row_of,
}
use cryo.Loader.{FileStructs, retrieve}
use cryo.Printers.{Printers}
use mathlib.Core.Path.{subst}

-- Whether the output is the plain one: where it is asked for, and where nothing is asked for and
-- stdout is no terminal.
abbrev pub shows_plain : OutputFormat → Bool → Bool
shows_plain OutputFormat.plain terminal = true
shows_plain OutputFormat.auto terminal = not terminal
shows_plain OutputFormat.human terminal = false
shows_plain OutputFormat.json terminal = false

module _ (pr : Printers) (fl : Floats) (L : Compressors) (S : Ciphers) (Z : Serializers)
    (paths : Paths) (terminal : Bool) (args : ListArgs) (typed : Prompts) (content : Bytes)
    (structs : FileStructs) (named : check_read_only_args_for_errors paths args.archive ≡ ok tt)
    (opened : paths.opened args.archive ≡ inr content)
    (retrieved : retrieve L S Z args.archive default_limits args.confirm typed content
      ≡ ok structs) where
  list_files-print_structs :
      list_files pr fl L S Z paths terminal args typed
      ≡ ok (print_structs pr fl args.format terminal structs (pr.display args.archive))
  unfolding list_files
  list_files-print_structs = rw (named, opened, retrieved) refl

  -- Let the archive's path be accepted, its file be read and `retrieve` open what it holds. Then
  -- `list` with the format `json` succeeds, and what it prints is one JSON document, with nothing
  -- beside it, whatever characters the paths have: an object with the archive's path, version,
  -- cipher, compressor, level, block size and totals, and with an array of one object for each
  -- entry, in their order, that has its type, path, permissions, sizes, ratio and time, and for a
  -- link its target.
  pub list_files-IsJson :
      args.format ≡ OutputFormat.json
      → (out : Text) × (list_files pr fl L S Z paths terminal args typed ≡ ok out)
        × IsJson out (document pr fl structs.header structs.index (pr.display args.archive))
  list_files-IsJson asked = (
    print_structs pr fl args.format terminal structs (pr.display args.archive),
    list_files-print_structs,
    subst
        (λ (format : OutputFormat).
          IsJson (print_structs pr fl format terminal structs (pr.display args.archive))
            (document pr fl structs.header structs.index (pr.display args.archive)))
        (sym asked)
        (unfold print_structs in
          print_json-IsJson pr fl structs.header structs.index (pr.display args.archive)),
  )

  -- Let the archive's path be accepted, its file be read and `retrieve` open what it holds, and let
  -- no path that is shown have a tab or a line end. Then `list` with the format `plain`, or with
  -- none where stdout is no terminal, succeeds, and the rows and columns of what it prints are, in
  -- front, the archive's path, version, cipher, compressor, level, block size and totals, and behind
  -- them one row for each entry, in their order, that reads back as its type, its mode's lower nine
  -- bits, its sizes, ratio, time, path and target.
  pub list_files-read_plain :
      shows_plain args.format terminal ≡ true
      → IsClean (pr.display args.archive)
      → All (HasCleanPaths pr fl) structs.index.files
      → (out : Text) × (list_files pr fl L S Z paths terminal args typed ≡ ok out)
        × (read_plain out
            ≡ some (
              header_columns pr fl structs.header structs.index (pr.display args.archive),
              map (λ (f : FileEntry). some (row_of pr fl structs.index f)) structs.index.files,
            ))
  unfolding print_structs
  list_files-read_plain asked clean clean_paths = (
    print_structs pr fl args.format terminal structs (pr.display args.archive),
    list_files-print_structs,
    on_format args.format terminal asked,
  )
    where
      read_back :
          read_plain
            (print_structs pr fl OutputFormat.plain terminal structs (pr.display args.archive))
          ≡ some (
            header_columns pr fl structs.header structs.index (pr.display args.archive),
            map (λ (f : FileEntry). some (row_of pr fl structs.index f)) structs.index.files,
          )
      read_back =
          read_plain-print_plain pr fl structs.header structs.index (pr.display args.archive) clean
            clean_paths

      on_format :
          (format : OutputFormat) (t : Bool)
          → shows_plain format t ≡ true
          → read_plain (print_structs pr fl format t structs (pr.display args.archive))
            ≡ some (
              header_columns pr fl structs.header structs.index (pr.display args.archive),
              map (λ (f : FileEntry). some (row_of pr fl structs.index f)) structs.index.files,
            )
      on_format OutputFormat.plain t h = read_back
      on_format OutputFormat.auto false h = read_back
      on_format OutputFormat.auto true h = cc
      on_format OutputFormat.human t h = cc
      on_format OutputFormat.json t h = cc
