-- ===== src/Lib.antt =====
-- A model of cryo, an archiver that compresses files in blocks, seals them and lists them in an
-- index (src/*.rs), with the theorems that make its archives restorable.
--
-- The program. An archive is a header (its length in four bytes, then the header), the sealed
-- blocks one behind the other, the sealed index, and a footer of 29 bytes that says where the index
-- is. `compress` reads the input files into one stream and cuts it into numbered raw blocks; workers
-- compress and seal each block; one thread writes the blocks in the order of their numbers and then
-- finishes the archive. `retrieve` opens an archive under limits, and the reader cuts each file out
-- of the blocks that its part of the stream touches.
--
-- The files and what they model:
--   Consts, Errors, Errors/Display, Format, Format/Footer, Format/Sizes: src/consts.rs,
--     src/errors.rs, src/format.rs. Structs are records, enums are data types, `Result` with `>>=` is
--     Rust's with `?`; f64 is a record of operations.
--   Engine: src/engine.rs, the engines by algorithm, `new_compressing` for CompressingEngine::new.
--   Codec: src/codec.rs, Cipher::new as `new_cipher`, encrypt_block and decrypt_block.
--   Writer: src/writer.rs, ArchiveWriter::new as `new_archive`, finish, and the writer's own
--     encrypt_block as `encrypt_own`.
--   Loader: src/loader.rs, FileStructs::retrieve part by part.
--   Compress/Chunks, Compress/Input, Compress/Process, Compress/Queue: src/compress.rs,
--     read_file_to_bytes, the loop over the inputs in initialize_compression, process_block and
--     writer. Compress/Workers: spawn_workers, with the interleavings of its threads as sequences of
--     steps; each access to the engine pool, each processing and each send is a step.
--   Create: src/compress.rs, initialize_compression with its checks, the closure `finish` and the
--     removal of the archive; Create/Scan: retrieve_all_files. Compress, Writer, Loader and Reader
--     meet here: Create/Stored says what an archive is that a reader can open, Create/Room what the
--     writer leaves on a disk that has room.
--   Append: src/append.rs, append_file on two files, the archive and its temporary copy: `fs::copy`,
--     `fs::rename` and `fs::remove_file` change them, the entries that are left out, and the writer
--     that goes on behind the last block.
--   Commands: src/decompress.rs, src/filter.rs, src/verify.rs, and check_read_only_args_for_errors
--     of src/list.rs.
--   Listing: src/list.rs, on texts as lists of character numbers (Base/Text). Listing/Files:
--     list_files; Listing/Human, Listing/Plain, Listing/Document: print_human, print_plain and
--     print_json; Listing/Columns: the labels and sizes that they share; Listing/Dates,
--     Listing/Timestamp, Listing/Permissions, Listing/Json: days_to_ymd, format_timestamp,
--     format_permissions and js.
--   Main: src/main.rs, the dispatch as `carry_out`, the printed error and the exit status.
--   Reader: src/reader.rs, ArchiveReader::new as `new_reader`, read_block, verify,
--     build_block_ranges and the loop of extract_file.
--   Extract: src/reader.rs, handle_files and extract_file with the changes that they make on the disk.
--   PathSafety: src/path_safety.rs.
--   FilePath, Disk: the parts of std::path and std::fs::File that these use.
--   Externals, Externals/Laws: the crates zstd, xz2, flate2, aes_gcm, chacha20poly1305, argon2,
--     rmp_serde and blake3, as records of functions, and what the program relies on, as laws.
--   Base: numbers, lists and bytes. Tests: toy crates, and each theorem at a concrete archive.
--
-- Bytes are a list of numbers; u32 and u64 keep their wrap-around as `% u32_mod` and `% u64_mod`,
-- and i64 its own where it can leave its range, as in a release build.
-- Random nonces, salts and ids, typed passwords, the answers of the file system and what the threads
-- leave of the blocks are arguments; behind an error they may leave blocks that nobody takes.
-- Fuel: `emit` and `drain` take one round more than there are pending bytes or queued blocks, and
-- `read_loop` one more than the file has bytes; each round takes one away, so that is enough, and
-- the theorems about them show it. `retrieve_all_files` takes its rounds as an argument: one more than
-- the tree has directories is enough.
--
-- Not modelled: log events and progress bars; the declarations of the command line (src/cli.rs),
-- but for the arguments' structs, and parse_size over the crate bytesize; the Display of
-- EncryptionType, for the help text. How std shows a path and how bytesize shows a size are
-- parameters (Printers). The globset crate and std's answers about paths are parameters. A
-- buffered write that fails at the flush fails in the model at once, and a write that the system
-- cuts off in the middle leaves nothing.
pub mod Base
pub mod FilePath
pub mod Errors
pub mod Consts
pub mod Engine
pub mod Format
pub mod Externals
pub mod Codec
pub mod Disk
pub mod Writer
pub mod Loader
pub mod Compress
pub mod Reader
pub mod PathSafety
pub mod Extract
pub mod Create
pub mod Append
pub mod Commands
pub mod Listing
mod Tests
pub mod Printers
pub mod Main
