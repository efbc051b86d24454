-- ===== src/Errors/Display.antt =====
-- src/errors.rs: the message of an error, and the error behind it.
use cryo.Base.{ℕ, Option, none, some, ◌++◌}
use cryo.Base.Text.{Text, codes, decimal}
use cryo.Errors.{CryoErrors, IoError}
use cryo.Printers.{Printers}

-- A size over its limit, and the option that raises the limit.
abbrev too_large : Printers → Text → ℕ → ℕ → Text → Text
too_large pr what size limit option =
    what
    ++ (codes " too large: "
        ++ (pr.byte_size size
            ++ (codes " > "
                ++ (pr.byte_size limit
                    ++ (codes " (use --max-" ++ (option ++ codes " SIZE to raise)"))))))

-- `impl Display for CryoErrors`
unfoldable pub display : Printers → CryoErrors → Text
display pr CryoErrors.empty_archive_name = codes "Archive name cannot be empty"
display pr (CryoErrors.invalid_compression_level algo min max) =
    codes algo ++ (codes " level must be " ++ (decimal min ++ (codes "..=" ++ decimal max)))
display pr CryoErrors.invalid_path =
    codes
      "Invalid path: path doesn't exist, or --recursive was used on a file (requires a directory)"
display pr (CryoErrors.recursive_lookup_failed p source) =
    codes "Recursive directory scan failed at: " ++ pr.display p
display pr (CryoErrors.read_failed p source) =
    codes "Failed to read '" ++ (pr.display p ++ (codes "': " ++ pr.io_error source))
display pr CryoErrors.write_error = codes "Failed to write to disk"
display pr (CryoErrors.cryptographic_error s) = codes "Cryptographic error: " ++ codes s
display pr CryoErrors.compression_error = codes "Failed to compress block"
display pr CryoErrors.decompression_error = codes "Failed to decompress block"
display pr CryoErrors.serialization_failed = codes "Failed to serialize file structure"
display pr CryoErrors.deserialization_failed = codes "Failed to deserialize file structure"
display pr (CryoErrors.initialization_error s) = codes "Initialization error: " ++ codes s
display pr (CryoErrors.unsafe_path p) =
    codes "Archive you are trying to decompress contains unsafe path traversal files!: "
    ++ pr.debug p
display pr (CryoErrors.file_too_large size limit) =
    too_large pr (codes "file") size limit (codes "file-size")
display pr (CryoErrors.block_too_large size limit) =
    too_large pr (codes "block") size limit (codes "block-size")
display pr (CryoErrors.m_cost_too_large size limit) =
    too_large pr (codes "argon2 memory cost") size limit (codes "m-cost")
display pr (CryoErrors.index_too_large size limit) =
    too_large pr (codes "archive index") size limit (codes "index-size")
display pr (CryoErrors.header_too_large size limit) =
    too_large pr (codes "archive header") size limit (codes "header-size")
display pr CryoErrors.checksum_mismatch = codes "Error checksum mismatched while verifying!"
display pr CryoErrors.invalid_pattern = codes "You have provided invalid pattern for the files!"
display pr CryoErrors.thread_error =
    codes "While using multithreading to process archive error has happened!"
display pr CryoErrors.possible_zip_bomb =
    codes "When trying to decompress archive encountered possible zip bomb!"
display pr CryoErrors.not_supported = codes "Archive version not supported"
display pr CryoErrors.invalid_magic =
    codes "Archive you are trying to read does not have the right MAGIC"
display pr CryoErrors.dir_not_recursive = codes "path you tried to compress is a dir use -r"

-- `Error::source`
unfoldable pub source : CryoErrors → Option IoError
source (CryoErrors.recursive_lookup_failed p e) = some e
source (CryoErrors.read_failed p e) = some e
source _ = none
