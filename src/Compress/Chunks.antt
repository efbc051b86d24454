-- ===== src/Compress/Chunks.antt =====
-- src/compress.rs, `read_file_to_bytes`: an entry of the input becomes an entry of the index, and its
-- bytes go into the stream of blocks.
pub mod Emit
pub mod Stream
pub mod Lost
use cryo.Base.{
  ℕ, zero, suc, ◌+◌, ◌-◌, ◌%◌, min, Bool, true, false, Option, none, some, List, [], ◌∷◌, ◌++◌, leb,
  ◌==◌, if◌then◌else◌, length, take, drop, ◌⊎◌, inl, inr,
}
use cryo.Base.Bytes.{Bytes, u64_mod}
use cryo.Base.Int.{ℤ, pos, negsuc}
use cryo.Errors.{
  Result, ok, err, or_err, ◌>>=◌, ◌>>◌, CryoErrors, IoError, read_failed, invalid_path,
}
use cryo.FilePath.{FilePath, strip_prefix}
use cryo.Format.{FileEntry, FileType, dir, symlink}
use cryo.Writer.{RawBlock}

-- What the loop over the input files changes; `sent` is what has gone down the channel.
pub record ReadState : Type 0 where
  pub files : List FileEntry
  pub stream_position : ℕ
  pub block_id : ℕ
  pub pending_buffer : Bytes
  pub sent : List RawBlock

-- std::fs::Metadata, of the entry itself and not of what a link points to.
pub record Metadata : Type 0 where
  pub is_symlink : Bool
  pub is_dir : Bool
  pub size : ℕ
  pub mtime : ℤ
  pub mode : ℕ

-- An open file. The n-th `read` fails with `fault n`, or gives `grant n + 1` bytes if the buffer and
-- the file have as many: the system may always give less than is asked for.
pub record OpenFile : Type 0 where
  pub content : Bytes
  pub grant : ℕ → ℕ
  pub fault : ℕ → Option IoError

-- What the system answers about one path.
pub record InputEntry : Type 0 where
  pub path : FilePath
  pub symlink_metadata : IoError ⊎ Metadata
  pub read_link : IoError ⊎ FilePath
  pub opened : IoError ⊎ OpenFile

-- `i64 as u64`
abbrev pub as_u64 : ℤ → ℕ
as_u64 (pos n) = n % u64_mod
as_u64 (negsuc n) = (u64_mod - 1 - n % u64_mod) % u64_mod

abbrev pub io {ℓ} : {A : Type ℓ} → FilePath → IoError ⊎ A → Result A
io p (inl e) = err (read_failed p e)
io p (inr a) = ok a

-- `while pending_buffer.len() >= block_size`: each round sends one block. The loop is entered only
-- behind a read that gave bytes, so `block_size` is not 0, and one round more than there are pending
-- bytes is enough.
unfoldable pub emit : ℕ → ℕ → ReadState → ReadState
emit zero block_size s = s
emit (suc rounds) block_size s = elim (leb block_size (length s.pending_buffer)) [
  | true ↦ emit rounds block_size (record s {
    pending_buffer = drop block_size s.pending_buffer;
    sent = s.sent ++ (record { id = s.block_id; raw_data = take block_size s.pending_buffer } ∷ []);
    block_id = (s.block_id + 1) % u64_mod;
  })
  | false ↦ s
]

-- The bytes of one read go into the pending buffer and into the position.
abbrev pub extend : Bytes → ReadState → ReadState
extend bytes s = record s {
  pending_buffer = s.pending_buffer ++ bytes;
  stream_position = (s.stream_position + length bytes) % u64_mod;
}

-- How many bytes the n-th read gives.
abbrev pub granted : OpenFile → ℕ → ℕ → Bytes → ℕ
granted f n block_size left = min (min (f.grant n + 1) block_size) (length left)

-- The `loop` over `file.read(&mut chunk)`. A round that goes on takes a byte at least, so one round
-- more than the file has bytes is enough; `none` would mean that the rounds ran out.
unfoldable pub read_loop :
    ℕ → FilePath → OpenFile → ℕ → ℕ → Bytes → ReadState → Option (Result (Unit {0}) × ReadState)
read_loop zero p f n block_size left s = none
read_loop (suc rounds) p f n block_size left s = elim (f.fault n) [
  | some e ↦ some (err (read_failed p e), s)
  | none ↦ elim (granted f n block_size left == 0) [
    | true ↦ some (ok tt, s)
    | false ↦
        let k = granted f n block_size left in
        let s' = extend (take k left) s in
        read_loop rounds p f (n + 1) block_size (drop k left)
          (emit (suc (length s'.pending_buffer)) block_size s')
  ]
]

abbrev pub file_type : Metadata → FileType
file_type m = if m.is_symlink then symlink else if m.is_dir then dir else FileType.file

abbrev pub entry : FilePath → FileType → Metadata → ℕ → ℕ → Option FilePath → FileEntry
entry path ftype m offset size target = record {
  path = path;
  ftype = ftype;
  stream_offset = offset;
  size = size;
  timestamp = as_u64 m.mtime;
  permissions = m.mode;
  symlink_target = target;
}

abbrev pub push : FileEntry → ReadState → ReadState
push e s = record s { files = s.files ++ (e ∷ []) }

-- `handle_non_regular_files`; the path was stripped before, and is stripped again.
unfoldable pub handle_non_regular_files :
    FileType → Metadata → FilePath → InputEntry → ReadState → Result ReadState
handle_non_regular_files FileType.symlink m root i s = do
  target ← io i.path i.read_link
  stripped ← or_err invalid_path (strip_prefix i.path root)
  ok (push (entry stripped symlink m s.stream_position 0 (some target)) s)
handle_non_regular_files FileType.dir m root i s = do
  stripped ← or_err invalid_path (strip_prefix i.path root)
  ok (push (entry stripped dir m s.stream_position 0 none) s)
handle_non_regular_files FileType.file m root i s = ok s

read_regular :
    FilePath → IoError ⊎ OpenFile → ℕ → ReadState → Option (Result (Unit {0}) × ReadState)
read_regular p (inl e) block_size s = some (err (read_failed p e), s)
read_regular p (inr f) block_size s =
    read_loop (suc (length f.content)) p f 0 block_size f.content s

unfoldable pub read_entry :
    FilePath
    → FilePath
    → Metadata
    → ℕ
    → InputEntry
    → ReadState
    → Option (Result (Unit {0}) × ReadState)
unfolding read_regular
read_entry root stripped m block_size i s = elim (file_type m) [
  | FileType.file ↦
      let e = entry stripped FileType.file m s.stream_position m.size none in
      read_regular i.path i.opened block_size (push e s)
  | other ↦ elim (handle_non_regular_files other m root i s) [
    | ok s' ↦ some (ok tt, s')
    | err x ↦ some (err x, s)
  ]
]

-- `read_file_to_bytes`; the state is changed also where an error is returned.
unfoldable pub read_file_to_bytes :
    FilePath → ℕ → InputEntry → ReadState → Option (Result (Unit {0}) × ReadState)
unfolding read_entry handle_non_regular_files
read_file_to_bytes root block_size i s = elim (io i.path i.symlink_metadata) [
  | err x ↦ some (err x, s)
  | ok m ↦ elim (strip_prefix i.path root) [
    | none ↦ some (err invalid_path, s)
    | some stripped ↦ read_entry root stripped m block_size i s
  ]
]
