-- ===== src/Append.antt =====
-- src/append.rs: an archive is copied, the copy is written on behind its last block, and takes the
-- archive's place.
pub mod Ends
pub mod Extends
pub mod Resumed
pub mod Restores
pub mod Succeeds
use Prim.Native.String.{◌++◌ as str_append, slice as str_slice}
use text.Mathlib.Text.{find?}
use mathlib.Core.Option.{get_or}
use cryo.Base.{
  ℕ, String, Bool, true, false, not, Option, none, some, List, [], ◌∷◌, ◌++◌, map, length,
  if◌then◌else◌, ◌⊎◌, inl, inr,
}
use cryo.Base.Bytes.{Bytes}
use cryo.Codec.{Prompts}
use cryo.Compress.Chunks.{ReadState, io}
use cryo.Compress.Input.{read_all, send_rest}
use cryo.Compress.Queue.{writer}
use cryo.Compress.Workers.{Pool}
use cryo.Consts.{default_limits}
use cryo.Create.{System, input_at, workers_result}
use cryo.Create.Scan.{retrieve_all_files}
use cryo.Disk.{File, seek_start}
use cryo.Errors.{Result, ok, err, or_err, reject, ◌>>=◌, ◌>>◌, IoError, invalid_path, write_error}
use cryo.Externals.{Compressors, Ciphers, Serializers}
use cryo.FilePath.{FilePath, normal, path_eq, strip_prefix, file_name, parent}
use cryo.Format.{FileEntry}
use cryo.Loader.{FileStructs, retrieve}
use cryo.Writer.{RawBlock, block, finalize, ArchiveWriter}

pub record AppendArgs : Type 0 where
  pub archive_path : FilePath
  pub file_to_append : FilePath
  pub confirm : Bool

-- One run: what is typed and drawn at random, whether the calls on the files succeed, how long the
-- copy may grow, what the workers leave of the blocks, what stands under the temporary name before,
-- and what stands there where the copying or the work on the copy has failed.
pub record AppendRun : Type 0 where
  pub typed : Prompts
  pub index_nonce : Bytes
  pub copied : Bool
  pub tmp_opened : IoError ⊎ (Unit {0})
  pub archive_opened : IoError ⊎ (Unit {0})
  pub room : ℕ
  pub workers : List RawBlock → Pool
  pub renamed : Bool
  pub removable : Bool
  pub stale : Option Bytes
  pub torn : Option Bytes

-- The two files: the archive, and what stands under the temporary name, which is another one.
pub record Files : Type 0 where
  pub archive : Bytes
  pub tmp : Option Bytes

-- What the run returns, and the two files behind it.
pub record AppendEnd : Type 0 where
  pub result : Result (Unit {0})
  pub archive : Bytes
  pub tmp : Option Bytes

-- `fs::copy(&arch_path, &tmp_path)`
unfoldable pub copy_archive : AppendRun → Files → Result (Unit {0}) × Files
copy_archive run files =
    if run.copied
    then (ok tt, record files { tmp = some files.archive })
    else (err write_error, record files { tmp = run.torn })

-- `fs::rename(&tmp_path, &arch_path)`
unfoldable pub rename_copy : AppendRun → Files → Result (Unit {0}) × Files
rename_copy run files =
    if run.renamed
    then (ok tt, record { archive = get_or files.tmp files.archive; tmp = none })
    else (err write_error, files)

-- `fs::remove_file(&tmp_path)`; its result is not looked at.
unfoldable pub remove_copy : AppendRun → Files → Files
remove_copy run files = if run.removable then record files { tmp = none } else files

-- `name.rsplit("cryo").last()`: what stands in front of the first `cryo`.
abbrev before_cryo : String → String
before_cryo name = elim (find? name "cryo") [ none ↦ name | some k ↦ str_slice name 0 k ]

unfoldable pub create_tmp_file : FilePath → Result FilePath
create_tmp_file p = do
  name ← or_err invalid_path (file_name p)
  let new_name = str_append (before_cryo name) "tmp"
  ok (get_or (parent p) [] ++ (normal new_name ∷ []))

-- `seen`, the set of the paths that the archive has.
unfoldable pub contains : FilePath → List FilePath → Bool
contains p [] = false
contains p (q ∷ seen) = let more = contains p seen in if path_eq p q then true else more

-- `file_paths.retain(...)`: what the archive has, or what came before, is left out.
unfoldable pub retain_new : FilePath → List FilePath → List FilePath → List FilePath
retain_new root seen [] = []
retain_new root seen (p ∷ paths) = elim (strip_prefix p root) [
  | none ↦ p ∷ retain_new root seen paths
  | some stripped ↦ elim (contains stripped seen) [
    | true ↦ retain_new root seen paths
    | false ↦ p ∷ retain_new root (stripped ∷ seen) paths
  ]
]

-- The root of what is appended, and its entries that are new.
unfoldable pub choose_appended :
    System → FilePath → List FileEntry → Option (Result (FilePath × List FilePath))
choose_appended sys p files =
    let seen = map (λ (f : FileEntry). f.path) files in
    elim (sys.is_dir p) [
      | true ↦ elim (retrieve_all_files sys.dirs sys.rounds p) [
        | none ↦ none
        | some found ↦ some (found >>= λ paths. ok (p, retain_new p seen paths))
      ]
      | false ↦
          let root = get_or (parent p) p in
          some (
            ok (
              root,
              elim (strip_prefix p root) [
                | none ↦ p ∷ []
                | some stripped ↦ if contains stripped seen then [] else p ∷ []
              ],
            ))
    ]

-- The variables of the reading loop go on from the archive's index.
abbrev pub resumed_state : FileStructs → ReadState
resumed_state structs = record {
  files = structs.index.files;
  stream_position = structs.index.total_stream_size;
  block_id = length structs.index.block;
  pending_buffer = [];
  sent = [];
}

-- The writer goes on where the index begins, in the copy of the archive.
abbrev pub resumed_writer : ℕ → Bytes → FileStructs → ArchiveWriter
resumed_writer room content structs = record {
  writer = record { content = content; cursor = structs.footer.index_offset; room = room };
  index = structs.index;
  stream_position = structs.index.total_stream_size;
  file_position = structs.footer.index_offset;
  cipher = structs.cipher;
  header = structs.header;
}

-- The writer has worked on the copy, which then takes the archive's name.
unfoldable pub replace_archive :
    AppendRun → Files → Result ArchiveWriter → Result (Unit {0}) × Files
unfolding rename_copy
replace_archive run files (err e) = (err e, record files { tmp = run.torn })
replace_archive run files (ok b) = rename_copy run (record files { tmp = some b.writer.content })

abbrev pub ended_with : Result (Unit {0}) → Files → AppendEnd
ended_with r files = record { result = r; archive = files.archive; tmp = files.tmp }

-- What follows the closure: the copy is removed behind an error.
abbrev pub clean_up : AppendRun → Result (Unit {0}) × Files → AppendEnd
clean_up run (ok u, files) = ended_with (ok u) files
clean_up run (err e, files) = ended_with (err e) (remove_copy run files)

abbrev pub end_append : AppendRun → Files → Option (Result ArchiveWriter) → Option AppendEnd
end_append run files none = none
end_append run files (some r) = some (clean_up run (replace_archive run files r))

module _ (L : Compressors) (S : Ciphers) (Z : Serializers) where
  unfoldable pub open_archive : AppendArgs → AppendRun → FilePath → Bytes → Result FileStructs
  open_archive args run tmp content = do
    io tmp run.tmp_opened
    io args.archive_path run.archive_opened
    structs ← retrieve L S Z args.archive_path default_limits args.confirm run.typed content
    pos ← seek_start args.archive_path structs.footer.index_offset
    ok structs

  -- From the last block on: the workers, the last message and the writer.
  unfoldable pub join_append : AppendRun → Bytes → FileStructs → ReadState → Result ArchiveWriter
  join_append run content structs t = do
    let pool = run.workers t.sent
    workers_result pool.failures
    writer L S Z run.index_nonce (map block pool.sent ++ (finalize t.files t.stream_position ∷ []))
        (resumed_writer run.room content structs)

  -- The reading returns at its first error; what is pending goes down the channel otherwise.
  abbrev pub append_read :
      AppendRun
      → Bytes
      → FileStructs
      → Option (Result (Unit {0}) × ReadState)
      → Option (Result ArchiveWriter)
  append_read run content structs none = none
  append_read run content structs (some (err e, t)) = some (err e)
  append_read run content structs (some (ok u, t)) =
      some (join_append run content structs (send_rest (ok tt) t))

  unfoldable pub append_files :
      System
      → AppendRun
      → Bytes
      → FileStructs
      → FilePath
      → List FilePath
      → Option (Result ArchiveWriter)
  unfolding join_append
  append_files sys run content structs root paths =
      append_read run content structs
        (read_all root structs.header.block_size (map (input_at sys) paths) (resumed_state structs))

  abbrev pub append_chosen :
      System
      → AppendRun
      → Bytes
      → FileStructs
      → Option (Result (FilePath × List FilePath))
      → Option (Result ArchiveWriter)
  append_chosen sys run content structs none = none
  append_chosen sys run content structs (some (err e)) = some (err e)
  append_chosen sys run content structs (some (ok (root, paths))) =
      append_files sys run content structs root paths

  abbrev pub append_opened :
      AppendArgs → System → AppendRun → Bytes → Result FileStructs → Option (Result ArchiveWriter)
  append_opened args sys run content (err e) = some (err e)
  append_opened args sys run content (ok structs) =
      append_chosen sys run content structs
        (choose_appended sys args.file_to_append structs.index.files)

  -- The closure `result` up to the renaming; `content` is what the archive and its copy hold.
  unfoldable pub append_to_copy :
      AppendArgs → System → AppendRun → FilePath → Bytes → Option (Result ArchiveWriter)
  unfolding open_archive choose_appended append_files
  append_to_copy args sys run tmp content =
      append_opened args sys run content (open_archive args run tmp content)

  abbrev pub write_copy :
      AppendArgs → System → AppendRun → FilePath → Result (Unit {0}) × Files → Option AppendEnd
  write_copy args sys run tmp (err e, files) = some (ended_with (err e) files)
  write_copy args sys run tmp (ok u, files) =
      end_append run files (append_to_copy args sys run tmp files.archive)

  -- `append_file`, less the progress bars and the log; `content` is what the archive holds. A copy
  -- that fails is left as it is; `none` would mean that the rounds of a loop ran out.
  unfoldable pub append_file : AppendArgs → System → AppendRun → Bytes → Option AppendEnd
  unfolding create_tmp_file append_to_copy copy_archive replace_archive remove_copy
  append_file args sys run content =
      let files : Files = record { archive = content; tmp = run.stale } in
      elim (create_tmp_file args.archive_path) [
        | err e ↦ some (ended_with (err e) files)
        | ok tmp ↦ write_copy args sys run tmp (copy_archive run files)
      ]
