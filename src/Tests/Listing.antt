-- ===== src/Tests/Listing.antt =====
-- What `list` prints of the archive of one file, and how the program ends.
use cryo.Base.{
  ℕ, ◌+◌, ◌*◌, ◌≡◌, refl, true, some, none, Option, List, [], ◌∷◌, ◌++◌, arith, map, bytes_eq, inr,
  ◌==◌, if◌then◌else◌, Bool,
}
use cryo.Base.Text.{Text, codes}
use cryo.Commands.{check_read_only_args_for_errors}
use cryo.Consts.{default_limits}
use cryo.Create.{kept}
use cryo.Errors.{ok, read_failed, unexpected_eof}
use cryo.FilePath.{FilePath, normal}
use cryo.Format.{FileEntry, Index, BlockEntry}
use cryo.Format.Sizes.{Floats, IsExact, file_compressed_size, total_compressed_size}
use cryo.Format.Sizes.Whole.{file_compressed_size-whole}
use cryo.Listing.Document.Grammar.{IsJson, document}
use cryo.Listing.Document.{print_json}
use cryo.Listing.Human.{human_entry}
use cryo.Listing.Plain.{print_plain}
use cryo.Listing.Files.{OutputFormat, ListArgs, list_files}
use cryo.Listing.Files.Prints.{list_files-IsJson, list_files-read_plain}
use cryo.Listing.Plain.Reads.{read_plain, header_columns, row_of}
use cryo.Loader.{FileStructs, retrieve}
use cryo.Main.{World, Process, compressed, error_lines}
use cryo.Printers.{Printers}
use cryo.Tests.Append.{structs, append_run}
use cryo.Tests.Commands.{paths, globs}
use cryo.Tests.Create.{system, run, typed, content, serializers}
use cryo.Tests.Extraction.{disk, input_file}
use cryo.Tests.Toys.{toy_compressors, toy_ciphers}

-- Numbers whose quotients are cut off.
abbrev floats : Floats
floats = record {
  F64 = ℕ;
  zero = 0;
  of_u64 = λ n. n;
  div = λ a b. if a == b then 1 else 0;
  mul = λ a b. a * b;
  add = λ a b. a + b;
  to_u64 = λ n. n;
}

floats-IsExact : IsExact floats
floats-IsExact = record {
  of_u64-zero = refl;
  mul-div_self = λ n k pos le. ground arith;
  add-of_u64 = λ a b le. refl;
  to_u64-of_u64 = λ n le. refl;
}

shown : FilePath → Text
shown [] = []
shown (normal s ∷ p) = codes s ++ shown p
shown (c ∷ p) = b'/' ∷ shown p

abbrev printers : Printers
printers = record {
  display = shown;
  debug = shown;
  io_error = λ e. codes "io";
  byte_size = λ n. codes "B";
  byte_size_right = λ n. codes "         B";
}

abbrev list_args : OutputFormat → ListArgs
list_args format = record { archive = normal "a.cryo" ∷ []; format = format; confirm = true }

checked : check_read_only_args_for_errors paths (normal "a.cryo" ∷ []) ≡ ok tt
unfolding check_read_only_args_for_errors
checked = refl

opened_again :
    retrieve toy_compressors toy_ciphers serializers
      (normal "a.cryo" ∷ [])
      default_limits
      true
      typed
      content
    ≡ ok structs
unfolding retrieve cryo.Loader.read_header cryo.Disk.read_exact cryo.Base.Bytes.to_le_bytes
    cryo.Format.Footer.serialize cryo.Base.Bytes.from_le_bytes cryo.Loader.check_header
    cryo.Format.new_header bytes_eq cryo.Loader.read_footer cryo.Disk.seek_end
    cryo.Format.Footer.deserialize cryo.Codec.new_cipher cryo.Loader.read_index cryo.Disk.seek_start
    cryo.Loader.verify_metadata cryo.Format.params
opened_again = refl

list_files-IsJson_example :
    (text : Text) × (list_files printers floats toy_compressors toy_ciphers serializers paths true
        (list_args OutputFormat.json)
        typed
      ≡ ok text)
    × IsJson text (document printers floats structs.header structs.index (codes "a.cryo"))
unfolding shown
list_files-IsJson_example =
    list_files-IsJson printers floats toy_compressors toy_ciphers serializers paths true
      (list_args OutputFormat.json) typed content structs checked refl opened_again refl

list_files-read_plain_example :
    (text : Text) × (list_files printers floats toy_compressors toy_ciphers serializers paths
        Bool.false
        (list_args OutputFormat.auto)
        typed
      ≡ ok text)
    × (read_plain text
        ≡ some (
          header_columns printers floats structs.header structs.index (codes "a.cryo"),
          map
              (λ (f : FileEntry). some (row_of printers floats structs.index f))
              structs.index.files,
        ))
unfolding shown
list_files-read_plain_example =
    list_files-read_plain printers floats toy_compressors toy_ciphers serializers paths Bool.false
      (list_args OutputFormat.auto) typed content structs checked refl opened_again refl
      (ground arith) (ground arith)

file_compressed_size-whole_example : file_compressed_size floats structs.index input_file ≡ 5
unfolding cryo.Base.Bytes.to_le_bytes
file_compressed_size-whole_example =
    file_compressed_size-whole floats floats-IsExact structs.index input_file [] structs.index.block
      [] refl refl refl (omega arith) (omega arith) (omega arith)

total : total_compressed_size structs.index ≡ 5
unfolding total_compressed_size cryo.Base.Bytes.to_le_bytes
total = refl

abbrev world : World
world = record {
  system = system;
  run = run;
  append_run = append_run;
  appended_to = content;
  paths = paths;
  globs = globs;
  disk = disk;
  terminal = true;
  typed = typed;
}

abbrev finished : Process
finished = record { exit_code = 0; stdout = []; stderr = []; effect = compressed (kept content) }

-- The texts themselves.
plain_text :
    print_plain printers floats structs.header structs.index (codes "a.cryo")
    ≡ codes
        "# archive=a.cryo\tversion=3\tencryption=none\tcompression=none\tcompression_level=0\tblock_size=4\ttotal_uncompressed=5\ttotal_compressed=5\nfile\trw-r--r--\t5\t5\t100\t1700000000\ta\n"
unfolding print_plain shown total_compressed_size cryo.Listing.Columns.sizes_of file_compressed_size
    cryo.Listing.Permissions.format_permissions cryo.Listing.Columns.type_label
    cryo.Listing.Columns.encryption_label cryo.Listing.Columns.algo_name cryo.Base.Bytes.to_le_bytes
    cryo.Format.new_header
plain_text = refl

json_text :
    print_json printers floats structs.header structs.index (codes "a.cryo")
    ≡ codes
        "{\n  \"archive\": \"a.cryo\",\n  \"version\": 3,\n  \"encryption\": \"none\",\n  \"compression\": \"none\",\n  \"compression_level\": 0,\n  \"block_size\": 4,\n  \"total_uncompressed\": 5,\n  \"total_compressed\": 5,\n  \"files\": [\n    {\n      \"type\": \"file\",\n      \"path\": \"a\",\n      \"permissions\": \"rw-r--r--\",\n      \"size\": 5,\n      \"compressed\": 5,\n      \"ratio\": 100,\n      \"modified\": 1700000000\n    }\n  ]\n}\n"
unfolding print_json shown total_compressed_size cryo.Listing.Columns.sizes_of file_compressed_size
    cryo.Listing.Permissions.format_permissions cryo.Listing.Columns.type_label
    cryo.Listing.Columns.encryption_label cryo.Listing.Columns.algo_name cryo.Base.Bytes.to_le_bytes
    cryo.Format.new_header cryo.Listing.Json.js
json_text = refl

human_row :
    human_entry printers floats structs.index input_file
    ≡ codes "  rw-r--r--  file"
      ++ (0x1b ∷ codes "[0m           B   100%  2023-11-14 22:13:20  a")
      ++ (0x1b ∷ codes "[0m\n")
unfolding human_entry shown file_compressed_size cryo.Listing.Columns.percent
    cryo.Listing.Permissions.format_permissions cryo.Listing.Columns.type_label
    cryo.Listing.Timestamp.format_timestamp cryo.Listing.Dates.days_to_ymd
    cryo.Base.Bytes.to_le_bytes
human_row = refl

-- An error with its cause.
failed :
    error_lines printers (read_failed (normal "a" ∷ []) unexpected_eof)
    ≡ (0x1b ∷ codes "[1;31merror:")
      ++ ((0x1b ∷ codes "[0m Failed to read 'a': io\n  ")
          ++ ((0x1b ∷ codes "[2mcaused by:") ++ (0x1b ∷ codes "[0m io\n")))
unfolding error_lines shown cryo.Errors.Display.display cryo.Errors.Display.source
failed = refl
