-- ===== src/Tests/Extraction.antt =====
-- An archive with no compression and no encryption, put on the disk under `/out`.
use cryo.Base.Bytes.{Bytes}
use cryo.Base.{◌≡◌, refl, Bool, true, some, none, List, [], ◌∷◌, ◌++◌, length, bytes_eq}
use cryo.Base.{inr, arith}
use cryo.Base.Int.{pos}
use cryo.Codec.{Cipher}
use cryo.Codec.{encrypt_block}
use cryo.Compress.Chunks.{
  ReadState, Metadata, OpenFile, InputEntry, entry, read_file_to_bytes, read_loop, emit,
}
use cryo.Compress.Input.{read_inputs, read_all}
use cryo.Compress.Input.Whole.{reads_file, none_read, one_read}
use cryo.Compress.Process.{process_block}
use cryo.Compress.Queue.Layout.{stored_bytes, entries}
use cryo.Consts.{default_limits}
use cryo.Disk.{seek_start, read_exact}
use cryo.Engine.Algo.{Compressor}
use cryo.Engine.{
  DecompressingEngine, none_compress, new_compressing, compress, none_decompress, new_decompressing,
}
use cryo.Errors.{ok}
use cryo.Externals.{Serializers}
use cryo.Extract.{FileSystem}
use cryo.FilePath.{FilePath, root_dir, normal, starts_with, join, parent, component_eq}
use cryo.Format.{FileEntry, FileType, Header, EncryptionType}
use cryo.PathSafety.{Change, made_dir, made_file, safe_output_path, is_safe_path}
use cryo.PathSafety.Output.{Allowed, safe_output_path-Allowed}
use cryo.Reader.{ArchiveReader, read_block, verify, build_block_ranges}
use cryo.Reader.Verify.{verify-Stored, Checked, verify-Checked}
use cryo.Reader.{extract_bytes}
use cryo.Reader.Inputs.{extract_bytes-read_inputs}
use cryo.Reader.Restore.{one_made, none_made}
use cryo.FilePath.{strip_prefix}
use cryo.Writer.{RawBlock, ProcessedBlock}
use cryo.Tests.Toys.{toy_compressors, toy_ciphers, toy-IsLossless, toy-IsSealing, toy-HasShortTag}

abbrev header : Header
header = record {
  magic = [];
  version = 3;
  compression = Compressor.none;
  compression_level = pos 0;
  encryption = EncryptionType.none;
  argon_salt = [];
  argon_params = (19456, 2, 1);
  archive_id = [];
  block_size = 4;
}

abbrev serializers : Serializers
serializers = record {
  header_to_vec = λ h. some (1 ∷ []);
  header_from_slice = λ bs. some header;
  index_to_vec = λ idx. some (2 ∷ []);
  index_from_slice = λ bs. none;
  blake3_hash = λ bs. length bs ∷ bs;
}

abbrev file : FileEntry
file = record {
  path = normal "a" ∷ [];
  ftype = FileType.file;
  stream_offset = 1;
  size = 2;
  timestamp = 1700000000;
  permissions = 420;
  symlink_target = none;
}

abbrev pub out : FilePath
out = root_dir ∷ normal "out" ∷ []

abbrev archive : ArchiveReader
archive = record {
  root = out;
  path = [];
  content = 200 ∷ 6 ∷ 7 ∷ 8 ∷ [];
  index = record {
    files = file ∷ [];
    block =
        record {
          offset = 1;
          size_stored = 3;
          size_plain = 3;
          is_compressed = Bool.false;
          nonce = [];
          checksum = 3 ∷ 6 ∷ 7 ∷ 8 ∷ [];
        }
        ∷ [];
    total_stream_size = 3;
  };
  header = header;
  cipher = Cipher.none;
  limits = default_limits;
}

-- A file system in which everything succeeds and no link leads anywhere else.
abbrev pub disk : FileSystem
disk = record {
  directories = record { create_dir_all = λ made p. true; canonicalize = λ made p. some p };
  symlink = λ target p. true;
  create = λ p. true;
  set_permissions = λ p mode. true;
  write = λ p bytes. true;
  set_modified = λ p time. true;
}

safe_output_path-Allowed_example :
    Allowed disk.directories [] (made_dir out ∷ []) out file.path (out ++ (normal "a" ∷ []))
unfolding safe_output_path is_safe_path join parent starts_with component_eq
safe_output_path-Allowed_example =
    safe_output_path-Allowed disk.directories [] (made_dir out ∷ []) out file.path
      (out ++ (normal "a" ∷ [])) refl

abbrev restored : List Change
restored =
    made_dir out
    ∷ made_dir out
    ∷ made_dir out
    ∷ made_file (out ++ (normal "a" ∷ [])) (7 ∷ 8 ∷ []) 420 1700000000
    ∷ []

verified : verify toy_compressors toy_ciphers serializers [] archive ≡ ok tt
unfolding read_block bytes_eq seek_start read_exact
verified =
    verify-Stored toy_compressors toy_ciphers serializers archive none_decompress
      ((6 ∷ 7 ∷ 8 ∷ []) ∷ []) (unfold new_decompressing in refl) (refl, refl, refl, tt)

verify-Checked_example :
    (engine : DecompressingEngine) × (new_decompressing toy_compressors archive.header.compression
      ≡ ok engine)
    × ((ps : List Bytes) × Checked toy_compressors toy_ciphers serializers archive engine 0
          archive.index.block ps)
verify-Checked_example = verify-Checked toy_compressors toy_ciphers serializers archive verified

-- One input of five bytes, read two at a time, sent as two blocks, and an archive of these.
abbrev pub opened : OpenFile
opened = record { content = 6 ∷ 7 ∷ 8 ∷ 9 ∷ 10 ∷ []; grant = λ n. 1; fault = λ n. none }

abbrev pub metadata : Metadata
metadata = record {
  is_symlink = Bool.false;
  is_dir = Bool.false;
  size = 5;
  mtime = pos 1700000000;
  mode = 420;
}

abbrev input : InputEntry
input = record {
  path = root_dir ∷ normal "in" ∷ normal "a" ∷ [];
  symlink_metadata = inr metadata;
  read_link = inr [];
  opened = inr opened;
}

abbrev pub input_root : FilePath
input_root = root_dir ∷ normal "in" ∷ []

abbrev pub input_file : FileEntry
input_file = entry (normal "a" ∷ []) FileType.file metadata 0 5 none

abbrev pub raw0 : RawBlock
raw0 = record { id = 0; raw_data = 6 ∷ 7 ∷ 8 ∷ 9 ∷ [] }

abbrev pub raw1 : RawBlock
raw1 = record { id = 1; raw_data = 10 ∷ [] }

abbrev pub processed : RawBlock → ProcessedBlock
processed raw = record {
  id = raw.id;
  processed_data = raw.raw_data;
  size_plain = length raw.raw_data;
  is_compressed = Bool.false;
  nonce = [];
  checksum = length raw.raw_data ∷ raw.raw_data;
}

abbrev pub blocks : List ProcessedBlock
blocks = processed raw0 ∷ processed raw1 ∷ []

abbrev pub read_state : ReadState
read_state = record {
  files = input_file ∷ [];
  stream_position = 5;
  block_id = 1;
  pending_buffer = [];
  sent = raw0 ∷ raw1 ∷ [];
}

inputs_read : read_inputs input_root 4 (input ∷ []) ≡ some (ok tt, read_state)
unfolding read_inputs read_all read_file_to_bytes strip_prefix component_eq read_loop emit
inputs_read = refl

made0 :
    process_block toy_compressors toy_ciphers serializers [] raw0 Cipher.none [] none_compress
    ≡ ok (processed raw0)
unfolding process_block compress encrypt_block
made0 = refl

made1 :
    process_block toy_compressors toy_ciphers serializers [] raw1 Cipher.none [] none_compress
    ≡ ok (processed raw1)
unfolding process_block compress encrypt_block
made1 = refl

abbrev whole_archive : ArchiveReader
whole_archive = record archive {
  content = 200 ∷ (stored_bytes blocks ++ (100 ∷ []));
  index = record { files = input_file ∷ []; block = entries 1 blocks; total_stream_size = 5 };
}

extract_bytes-read_inputs_example :
    extract_bytes toy_compressors toy_ciphers serializers whole_archive input_file
      (build_block_ranges whole_archive.index.block)
    ≡ ok opened.content
unfolding strip_prefix component_eq
extract_bytes-read_inputs_example =
    extract_bytes-read_inputs toy_compressors toy_ciphers serializers whole_archive none_decompress
      none_compress (pos 0) toy-IsLossless toy-IsSealing toy-HasShortTag
      (unfold new_compressing in refl) (unfold new_decompressing in refl) input_root (input ∷ [])
      (input_file ∷ []) read_state blocks (200 ∷ []) (100 ∷ []) [] opened.content [] input_file
      (omega arith) (omega arith)
      (one_read (reads_file (normal "a" ∷ []) metadata opened refl refl refl refl (λ n. refl))
        none_read)
      (omega arith) inputs_read (one_made [] made0 (one_made [] made1 none_made)) refl refl
      (omega arith) refl refl (omega arith)
