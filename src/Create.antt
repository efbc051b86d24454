-- ===== src/Create.antt =====
-- src/compress.rs, `initialize_compression`: a new archive from the arguments to the closed file.
pub mod Scan
pub mod Stored
pub mod Outcome
pub mod Ends
pub mod Restores
pub mod Room
pub mod Succeeds
use mathlib.Core.Option.{get_or}
use cryo.Base.{
  ℕ, String, Bool, true, false, not, ◌&&◌, ◌||◌, Option, none, some, List, [], ◌∷◌, ◌++◌, map,
  if◌then◌else◌, ◌⊎◌,
}
use cryo.Base.Bytes.{Bytes}
use cryo.Base.Int.{ℤ}
use cryo.Codec.{Prompts, new_cipher}
use cryo.Compress.Chunks.{ReadState, Metadata, OpenFile, InputEntry}
use cryo.Compress.Input.{read_inputs}
use cryo.Compress.Queue.{writer}
use cryo.Compress.Workers.{Pool}
use cryo.Create.Scan.{DirReader, retrieve_all_files}
use cryo.Disk.{File}
use cryo.Engine.Algo.{Compressor}
use cryo.Engine.{new_compressing}
use cryo.Errors.{
  Result, ok, err, reject, ◌>>=◌, ◌>>◌, CryoErrors, IoError, empty_archive_name, invalid_path,
  dir_not_recursive, thread_error,
}
use cryo.Externals.{Compressors, Ciphers, Serializers}
use cryo.FilePath.{FilePath, cur_dir, parent}
use cryo.Format.{Header, EncryptionType, ParamsProfile, new_header}
use cryo.Writer.{RawBlock, block, finalize, ArchiveWriter, new_archive}
use text.Mathlib.Text.{◌==◌ as str_eq}

pub record CompressArgs : Type 0 where
  pub archive_name : String
  pub path_to_compress : FilePath
  pub recursive : Bool
  pub compression : Compressor
  pub compression_level : ℤ
  pub encryption_type : EncryptionType
  pub encryption_params : ParamsProfile
  pub bs : ℕ
  pub confirm : Bool

-- What the operating system answers about the input.
pub record System : Type 0 where
  pub exists : FilePath → Bool
  pub is_dir : FilePath → Bool
  pub dirs : DirReader
  pub rounds : ℕ
  pub symlink_metadata : FilePath → IoError ⊎ Metadata
  pub read_link : FilePath → IoError ⊎ FilePath
  pub opened : FilePath → IoError ⊎ OpenFile

abbrev pub input_at : System → FilePath → InputEntry
input_at sys p = record {
  path = p;
  symlink_metadata = sys.symlink_metadata p;
  read_link = sys.read_link p;
  opened = sys.opened p;
}

-- One run: what is drawn at random and typed, the file that is made under the archive's name, what
-- the workers leave of the blocks, whether the writer has gone when it fails before the last
-- message, and whether the file can be removed.
pub record Run : Type 0 where
  pub argon_salt : Bytes
  pub archive_id : Bytes
  pub index_nonce : Bytes
  pub typed : Prompts
  pub created : Option File
  pub workers : List RawBlock → Pool
  pub writer_gone : Bool
  pub removable : Bool

-- What the run leaves under the archive's name. What is `abandoned` is there, with some bytes.
pub data Trace : Type 0 where
  untouched abandoned removed : Trace
  kept : Bytes → Trace

-- `check_compression_for_arg_err`
unfoldable pub check_compression_for_arg_err : System → String → FilePath → Bool → Result (Unit {0})
check_compression_for_arg_err sys s p r =
    if str_eq s ""
    then err empty_archive_name
    else if not (sys.exists p) || (not (sys.is_dir p) && r)
    then err invalid_path
    else ok tt

-- What `try_for_each` returns: an error of one of the blocks, if there is one.
abbrev pub workers_result : List CryoErrors → Result (Unit {0})
workers_result [] = ok tt
workers_result (e ∷ failures) = err e

-- The root of the input, and its entries.
unfoldable pub choose_files : System → CompressArgs → Option (Result (FilePath × List FilePath))
choose_files sys args =
    let p = args.path_to_compress in
    if args.recursive
    then elim (retrieve_all_files sys.dirs sys.rounds p) [
      | none ↦ none
      | some found ↦ some (found >>= λ files. ok (p, files))
    ]
    else some (
        if sys.is_dir p
        then err dir_not_recursive
        else ok (get_or (parent p) (cur_dir ∷ []), p ∷ []))

abbrev pub conclude : Run → Result ArchiveWriter → Result (Unit {0}) × Trace
conclude run (ok b) = (ok tt, kept b.writer.content)
conclude run (err e) = (err e, if run.removable then removed else abandoned)

abbrev pub header_of : CompressArgs → Run → Header
header_of args run =
    new_header args.encryption_params args.compression args.compression_level args.bs
      args.encryption_type run.argon_salt run.archive_id

module _ (L : Compressors) (S : Ciphers) (Z : Serializers) where
  unfoldable pub check_args : System → CompressArgs → Result (Unit {0})
  check_args sys args = do
    check_compression_for_arg_err sys args.archive_name args.path_to_compress args.recursive
    engine ← new_compressing L args.compression args.compression_level
    ok tt

  -- The last message and the writer's answer. A writer that fails at a block does not take the last
  -- message; the send fails if it has gone by then.
  unfoldable pub join_writer : Run → Pool → ReadState → ArchiveWriter → Result ArchiveWriter
  join_writer run pool t a = elim (writer L S Z run.index_nonce (map block pool.sent) a) [
    | err e ↦ if run.writer_gone then err thread_error else err e
    | ok _ ↦
        writer L S Z run.index_nonce
          (map block pool.sent ++ (finalize t.files t.stream_position ∷ [])) a
  ]

  -- The closure `finish`.
  unfoldable pub join_threads :
      Run → Pool → Result (Unit {0}) → ReadState → ArchiveWriter → Result ArchiveWriter
  unfolding join_writer
  join_threads run pool read t a = do workers_result pool.failures; read; join_writer run pool t a

  -- `ArchiveWriter::new` fails behind the creation of the file, or in front of it.
  abbrev pub left_over : Run → Header → Bool → Trace
  left_over run h confirm = elim (new_cipher S h confirm run.typed) [
    | err e ↦ untouched
    | ok c ↦ elim run.created [ none ↦ untouched | some file ↦ abandoned ]
  ]

  unfoldable pub compress_files :
      CompressArgs → System → Run → FilePath → List FilePath → Option (Result (Unit {0}) × Trace)
  unfolding join_threads
  compress_files args sys run root files =
      let h = header_of args run in
      elim (new_archive S Z run.created h args.confirm run.typed) [
        | err e ↦ some (err e, left_over run h args.confirm)
        | ok a ↦ elim (read_inputs root args.bs (map (input_at sys) files)) [
          | none ↦ none
          | some (read, t) ↦ some (conclude run (join_threads run (run.workers t.sent) read t a))
        ]
      ]

  abbrev pub compress_chosen :
      CompressArgs
      → System
      → Run
      → Option (Result (FilePath × List FilePath))
      → Option (Result (Unit {0}) × Trace)
  compress_chosen args sys run none = none
  compress_chosen args sys run (some (err e)) = some (err e, untouched)
  compress_chosen args sys run (some (ok (root, files))) = compress_files args sys run root files

  -- `initialize_compression`, less the progress bars and the log. `none` would mean that the rounds
  -- of `retrieve_all_files` or of a reading loop ran out.
  unfoldable pub initialize_compression :
      CompressArgs → System → Run → Option (Result (Unit {0}) × Trace)
  unfolding check_args choose_files compress_files
  initialize_compression args sys run = elim (check_args sys args) [
    | err e ↦ some (err e, untouched)
    | ok _ ↦ compress_chosen args sys run (choose_files sys args)
  ]
