-- ===== src/Tests/Archive.antt =====
-- The reading loop at a small file, and a whole archive that is finished and opened again.
use cryo.Base.{
  List, ◌≡◌, refl, inr, some, none, [], ◌∷◌, ◌++◌, arith, replicate, length, true, false, bytes_eq,
}
use cryo.Base.Bytes.{Bytes, to_le_bytes}
use cryo.Base.Int.{pos}
use cryo.Codec.{Cipher, Prompts, new_cipher, u64_max}
use cryo.Compress.Chunks.{
  push, ReadState, Metadata, OpenFile, InputEntry, emit, entry, read_file_to_bytes,
}
use cryo.Compress.Chunks.Emit.{Emitted, emit-Emitted}
use cryo.Compress.Chunks.Lost.{read_file_to_bytes-lost}
use cryo.Compress.Chunks.Stream.{IsReading, read_file_to_bytes-stream}
use cryo.Compress.Input.{read_inputs}
use cryo.Compress.Input.Whole.{
  reads_file, reads_dir, reads_link, none_read, one_read, IsSent, read_inputs-IsSent,
}
use cryo.Consts.{default_limits, magic_bytes}
use cryo.Disk.{write_all, set_len}
use cryo.Engine.Algo.{Compressor}
use cryo.Engine.{deflate_decompress, new_compressing, new_decompressing, compress}
use cryo.Errors.{ok}
use cryo.Externals.{Serializers}
use cryo.FilePath.{FilePath, root_dir, normal, strip_prefix, component_eq}
use cryo.Format.{FileEntry, FileType, Header, EncryptionType}
use cryo.Format.Footer.{Footer, serialize}
use cryo.Loader.{retrieve}
use cryo.Loader.Reopen.{CanReopen, retrieve-finish}
use cryo.Tests.Toys.{
  tag, toy_compressors, toy-IsLossless, toy_ciphers, toy-IsSealing, toy-HasShortTag,
}
use cryo.Writer.{ArchiveWriter, header_part, finish}
use cryo.Writer.Finish.{final_index}

-- Seven pending bytes and a block behind them.
abbrev pending : ReadState
pending = record {
  files = [];
  stream_position = 11;
  block_id = 1;
  pending_buffer = 5 ∷ 6 ∷ 7 ∷ 8 ∷ 9 ∷ 10 ∷ 11 ∷ [];
  sent = record { id = 0; raw_data = 1 ∷ 2 ∷ 3 ∷ 4 ∷ [] } ∷ [];
}

abbrev eleven : Bytes
eleven = 1 ∷ 2 ∷ 3 ∷ 4 ∷ 5 ∷ 6 ∷ 7 ∷ 8 ∷ 9 ∷ 10 ∷ 11 ∷ []

emit-Emitted_example : Emitted 0 4 eleven pending (emit 8 4 pending)
emit-Emitted_example =
    emit-Emitted 8 0 4 eleven pending (omega arith) (omega arith) (omega arith)
      (record { joined = refl; full = (refl, tt); numbered = (refl, tt); next = refl })

-- A file of six bytes that the system gives in reads of two.
abbrev opened : OpenFile
opened = record { content = 20 ∷ 21 ∷ 22 ∷ 23 ∷ 24 ∷ 25 ∷ []; grant = λ n. 1; fault = λ n. none }

abbrev metadata : Metadata
metadata = record {
  is_symlink = false;
  is_dir = false;
  size = 6;
  mtime = pos 1700000000;
  mode = 420;
}

abbrev root : FilePath
root = root_dir ∷ normal "in" ∷ []

abbrev input : InputEntry
input = record {
  path = root_dir ∷ normal "in" ∷ normal "a" ∷ [];
  symlink_metadata = inr metadata;
  read_link = inr [];
  opened = inr opened;
}

abbrev reading : ReadState
reading = record {
  files = [];
  stream_position = 7;
  block_id = 1;
  pending_buffer = 5 ∷ 6 ∷ 7 ∷ [];
  sent = record { id = 0; raw_data = 1 ∷ 2 ∷ 3 ∷ 4 ∷ [] } ∷ [];
}

abbrev seven : Bytes
seven = 1 ∷ 2 ∷ 3 ∷ 4 ∷ 5 ∷ 6 ∷ 7 ∷ []

read_file_to_bytes-stream_example :
    (t : ReadState) × (read_file_to_bytes root 4 input reading ≡ some (ok tt, t))
    × IsReading 0 0 4 (seven ++ opened.content) t
    × (t.files ≡ [] ++ (entry (normal "a" ∷ []) FileType.file metadata 7 6 none ∷ []))
unfolding strip_prefix component_eq
read_file_to_bytes-stream_example =
    read_file_to_bytes-stream root (normal "a" ∷ []) input metadata opened 0 0 4 seven reading refl
      refl refl refl (λ n. refl) (omega arith) (omega arith) (omega arith)
      (record {
        chunked = record { joined = refl; full = (refl, tt); numbered = (refl, tt); next = refl };
        position = refl;
        short = omega arith;
      })

-- An archive with a header, two bytes of a block, and an index of one file.
abbrev nonce : Bytes
nonce = replicate 12 5

abbrev salt : Bytes
salt = replicate 16 1

abbrev header : Header
header = record {
  magic = magic_bytes;
  version = 3;
  compression = Compressor.deflate;
  compression_level = pos 6;
  encryption = EncryptionType.aes;
  argon_salt = salt;
  argon_params = (19456, 2, 1);
  archive_id = replicate 16 9;
  block_size = 4;
}

abbrev file : FileEntry
file = record {
  path = normal "a" ∷ [];
  ftype = FileType.file;
  stream_offset = 0;
  size = 2;
  timestamp = 0;
  permissions = 420;
  symlink_target = none;
}

abbrev typed : Prompts
typed = record { first = some "secret"; second = none }

abbrev archive : ArchiveWriter
archive = record {
  writer = record { content = header_part (1 ∷ []) ++ (30 ∷ 31 ∷ []); cursor = 7; room = 1000 };
  index = record { files = file ∷ []; block = []; total_stream_size = 0 };
  stream_position = 2;
  file_position = 7;
  cipher = Cipher.aes salt;
  header = header;
}

abbrev serializers : Serializers
serializers = record {
  header_to_vec = λ h. some (1 ∷ []);
  header_from_slice = λ bs. some header;
  index_to_vec = λ idx. some (0 ∷ 0 ∷ 0 ∷ 2 ∷ []);
  index_from_slice = λ bs. some (final_index archive);
  blake3_hash = λ bs. length bs ∷ bs;
}

-- The stored index, which its compression makes shorter, and the footer.
abbrev sealed : Bytes
sealed = tag salt nonce (to_le_bytes 8 u64_max ++ header.archive_id) ∷ 1 ∷ 2 ∷ []

abbrev footer : Footer
footer = record {
  index_offset = 7;
  index_size_stored = 3;
  index_size_plain = 4;
  index_compressed = true;
  index_nonce = nonce;
}

abbrev closed : ArchiveWriter
closed = record archive {
  writer = record {
    content = (header_part (1 ∷ []) ++ (30 ∷ 31 ∷ [])) ++ (sealed ++ serialize footer);
    cursor = 39;
    room = 1000;
  };
  index = final_index archive;
}

archive-CanReopen :
    CanReopen toy_compressors toy_ciphers serializers [] default_limits false typed archive nonce
unfolding new_cipher to_le_bytes bytes_eq
archive-CanReopen = record {
  header_bytes = 1 ∷ [];
  body = 30 ∷ 31 ∷ [];
  index_bytes = 0 ∷ 0 ∷ 0 ∷ 2 ∷ [];
  engine = deflate_decompress;
  front = record { tail = []; content = refl; cursor = refl };
  position = refl;
  position_small = omega arith;
  header_decodes = refl;
  header_small = omega arith;
  header_fits = omega arith;
  acceptable = record {
    version = refl;
    magic = refl;
    block_size = omega arith;
    m_cost = omega arith;
  };
  same_key = refl;
  engine_starts = unfold new_decompressing in refl;
  index_encodes = refl;
  index_decodes = refl;
  index_small = omega arith;
  index_fits = omega arith;
  nonce_fits = refl;
}

archive_closes : finish toy_compressors toy_ciphers serializers nonce archive ≡ ok closed
unfolding finish new_compressing compress write_all set_len to_le_bytes serialize
archive_closes = refl

retrieve-finish_example :
    (f : Footer) × (retrieve toy_compressors toy_ciphers serializers [] default_limits false typed
        closed.writer.content
      ≡ ok (record {
        header = header;
        index = final_index archive;
        cipher = Cipher.aes salt;
        footer = f;
      }))
    × (f.index_offset ≡ 7)
retrieve-finish_example =
    retrieve-finish toy_compressors toy_ciphers serializers [] default_limits toy-IsLossless
      toy-IsSealing toy-HasShortTag false typed nonce archive closed archive-CanReopen
      archive_closes

-- A directory, a file of six bytes and a link, in blocks of four.
abbrev directory : InputEntry
directory = record {
  path = root_dir ∷ normal "in" ∷ normal "d" ∷ [];
  symlink_metadata = inr (record metadata { is_dir = true });
  read_link = inr [];
  opened = inr opened;
}

abbrev link : InputEntry
link = record {
  path = root_dir ∷ normal "in" ∷ normal "l" ∷ [];
  symlink_metadata = inr (record metadata { is_symlink = true });
  read_link = inr (normal "a" ∷ []);
  opened = inr opened;
}

abbrev listed : List FileEntry
listed =
    entry (normal "d" ∷ []) FileType.dir (record metadata { is_dir = true }) 0 0 none
    ∷ entry (normal "a" ∷ []) FileType.file metadata 0 6 none
    ∷ entry (normal "l" ∷ []) FileType.symlink (record metadata { is_symlink = true }) 6 0
        (some (normal "a" ∷ []))
    ∷ []

read_inputs-IsSent_example :
    (t : ReadState) × (read_inputs root 4 (directory ∷ input ∷ link ∷ []) ≡ some (ok tt, t))
    × IsSent 0 0 4 opened.content listed t
unfolding strip_prefix component_eq
read_inputs-IsSent_example =
    read_inputs-IsSent root 4 (directory ∷ input ∷ link ∷ []) listed opened.content (omega arith)
      (omega arith)
      (one_read (reads_dir (normal "d" ∷ []) (record metadata { is_dir = true }) refl refl refl) (
        one_read (reads_file (normal "a" ∷ []) metadata opened refl refl refl refl (λ n. refl)) (
          one_read
            (reads_link (normal "l" ∷ []) (normal "a" ∷ []) (record metadata { is_symlink = true })
              refl refl refl refl)
            none_read)))

read_file_to_bytes-lost_example :
    read_file_to_bytes root 0 input reading
    ≡ some (ok tt, push (entry (normal "a" ∷ []) FileType.file metadata 7 6 none) reading)
unfolding strip_prefix component_eq
read_file_to_bytes-lost_example =
    read_file_to_bytes-lost root (normal "a" ∷ []) input metadata opened reading refl refl refl refl
      refl
