-- ===== src/Tests/Blocks.antt =====
-- The theorems on blocks, from the bytes of a file to the disk and back, at a small archive.
use mathlib.Core.List.{Permᴰ}
use cryo.Base.{
  ℕ, ◌≡◌, refl, ◌↔◌, some, none, List, [], ◌∷◌, ◌++◌, map, arith, replicate, length, take, drop,
  bytes_eq, true, false,
}
use cryo.Base.Bytes.{Bytes, to_le_bytes, from_le_bytes}
use cryo.Base.Int.{pos}
use cryo.Codec.{Cipher, encrypt_block, decrypt_block}
use cryo.Compress.Process.{process_block}
use cryo.Compress.Queue.{entry_of, write_block, close, writer}
use cryo.Compress.Queue.Drain.{write_blocks}
use cryo.Compress.Queue.Layout.{stored_bytes, entries, Written, write_blocks-Written}
use cryo.Compress.Queue.Order.{writer-order}
use cryo.Consts.{default_limits}
use cryo.Disk.{File, write_all, seek_start, read_exact}
use cryo.Engine.Algo.{Compressor}
use cryo.Engine.{
  deflate_compress, deflate_decompress, new_compressing, new_decompressing, compress, decompress,
}
use cryo.Errors.{ok, ◌>>=◌}
use cryo.Externals.{Serializers}
use cryo.FilePath.{normal}
use cryo.Format.{FileEntry, FileType, Header, EncryptionType, index}
use cryo.Reader.{ArchiveReader, read_block, build_block_ranges, extract_bytes}
use cryo.Reader.Blocks.{read_block-process_block}
use cryo.Reader.Restore.{plain_of, one_made, none_made, extract_bytes-restores}
use cryo.Reader.Slices.{stream, extract_bytes-stream}
use cryo.Tests.Toys.{
  tag, toy_compressors, toy-IsLossless, toy_ciphers, toy-IsSealing, toy-HasShortTag,
}
use cryo.Writer.{
  RawBlock, ProcessedBlock, block as block_message, finalize, ArchiveWriter, encrypt_own,
}
use cryo.Writer.Sealing.{encrypt_own-encrypt_block}

abbrev key : Bytes
key = 3 ∷ []

abbrev nonce : Bytes
nonce = replicate 12 5

abbrev id : Bytes
id = replicate 16 9

abbrev header : Header
header = record {
  magic = [];
  version = 3;
  compression = Compressor.deflate;
  compression_level = pos 6;
  encryption = EncryptionType.aes;
  argon_salt = replicate 16 1;
  argon_params = (19456, 2, 1);
  archive_id = id;
  block_size = 4;
}

abbrev serializers : Serializers
serializers = record {
  header_to_vec = λ h. some (1 ∷ []);
  header_from_slice = λ bs. some header;
  index_to_vec = λ idx. some (2 ∷ []);
  index_from_slice = λ bs. none;
  blake3_hash = λ bs. length bs ∷ bs;
}

-- Three blocks of one stream; the first gets shorter, the last is not full.
abbrev raw0 : RawBlock
raw0 = record { id = 0; raw_data = 0 ∷ 0 ∷ 0 ∷ 7 ∷ [] }

abbrev raw1 : RawBlock
raw1 = record { id = 1; raw_data = 1 ∷ 2 ∷ 3 ∷ 4 ∷ [] }

abbrev raw2 : RawBlock
raw2 = record { id = 2; raw_data = 8 ∷ [] }

abbrev sealed : ℕ → Bytes → Bytes
sealed num payload = tag key nonce (to_le_bytes 8 num ++ id) ∷ payload

abbrev block0 : ProcessedBlock
block0 = record {
  id = 0;
  processed_data = sealed 0 (1 ∷ 7 ∷ []);
  size_plain = 4;
  is_compressed = true;
  nonce = nonce;
  checksum = 4 ∷ raw0.raw_data;
}

abbrev block1 : ProcessedBlock
block1 = record {
  id = 1;
  processed_data = sealed 1 raw1.raw_data;
  size_plain = 4;
  is_compressed = false;
  nonce = nonce;
  checksum = 4 ∷ raw1.raw_data;
}

abbrev block2 : ProcessedBlock
block2 = record {
  id = 2;
  processed_data = sealed 2 raw2.raw_data;
  size_plain = 1;
  is_compressed = false;
  nonce = nonce;
  checksum = 1 ∷ raw2.raw_data;
}

made0 :
    process_block toy_compressors toy_ciphers serializers nonce raw0
      (Cipher.aes key)
      id
      (deflate_compress 6)
    ≡ ok block0
unfolding process_block compress encrypt_block
made0 = refl

made1 :
    process_block toy_compressors toy_ciphers serializers nonce raw1
      (Cipher.aes key)
      id
      (deflate_compress 6)
    ≡ ok block1
unfolding process_block compress encrypt_block
made1 = refl

made2 :
    process_block toy_compressors toy_ciphers serializers nonce raw2
      (Cipher.aes key)
      id
      (deflate_compress 6)
    ≡ ok block2
unfolding process_block compress encrypt_block
made2 = refl

-- An archive of the three blocks behind a front of five bytes.
abbrev front : Bytes
front = replicate 5 200

abbrev tail : Bytes
tail = replicate 3 100

abbrev raws : List RawBlock
raws = raw0 ∷ raw1 ∷ raw2 ∷ []

abbrev blocks : List ProcessedBlock
blocks = block0 ∷ block1 ∷ block2 ∷ []

abbrev archive : ArchiveReader
archive = record {
  root = [];
  path = [];
  content = front ++ (stored_bytes blocks ++ tail);
  index = record { files = []; block = entries 5 blocks; total_stream_size = 9 };
  header = header;
  cipher = Cipher.aes key;
  limits = default_limits;
}

read_block-process_block_example :
    (read_block toy_compressors toy_ciphers serializers archive
        (entry_of 5 block0)
        0
        deflate_decompress
      ≡ ok raw0.raw_data)
    × (bytes_eq (serializers.blake3_hash raw0.raw_data) block0.checksum ≡ true)
    × (length raw0.raw_data ≡ block0.size_plain)
read_block-process_block_example =
    read_block-process_block toy_compressors toy_ciphers serializers archive deflate_decompress
      toy-IsLossless toy-IsSealing toy-HasShortTag (pos 6) (deflate_compress 6) nonce raw0 block0
      front (stored_bytes (block1 ∷ block2 ∷ []) ++ tail) (unfold new_compressing in refl)
      (unfold new_decompressing in refl) made0 refl (omega arith) (omega arith) (omega arith)

-- A file of the last byte of the first block, the second block, and the last one.
abbrev file : FileEntry
file = record {
  path = normal "a" ∷ [];
  ftype = FileType.file;
  stream_offset = 3;
  size = 6;
  timestamp = 0;
  permissions = 420;
  symlink_target = none;
}

extract_bytes-restores_example :
    extract_bytes toy_compressors toy_ciphers serializers archive file
      (build_block_ranges archive.index.block)
    ≡ ok (7 ∷ 1 ∷ 2 ∷ 3 ∷ 4 ∷ 8 ∷ [])
extract_bytes-restores_example =
    extract_bytes-restores toy_compressors toy_ciphers serializers archive deflate_decompress
      (deflate_compress 6) (pos 6) toy-IsLossless toy-IsSealing toy-HasShortTag
      (unfold new_compressing in refl) (unfold new_decompressing in refl) raws blocks front tail
      (0 ∷ 0 ∷ 0 ∷ []) (7 ∷ 1 ∷ 2 ∷ 3 ∷ 4 ∷ 8 ∷ []) [] file
      (one_made nonce made0 (one_made nonce made1 (one_made nonce made2 none_made)))
      (refl, (refl, (refl, tt)))
      (omega arith, omega arith, (omega arith, omega arith, (omega arith, omega arith, tt))) refl
      refl (omega arith) refl (omega arith) refl refl (omega arith)

read0 :
    read_block toy_compressors toy_ciphers serializers archive
      (entry_of 5 block0)
      0
      deflate_decompress
    ≡ ok raw0.raw_data
unfolding read_block seek_start read_exact decrypt_block from_le_bytes to_le_bytes decompress
read0 = refl

read1 :
    read_block toy_compressors toy_ciphers serializers archive
      (entry_of 8 block1)
      1
      deflate_decompress
    ≡ ok raw1.raw_data
unfolding read_block seek_start read_exact decrypt_block from_le_bytes to_le_bytes
read1 = refl

read2 :
    read_block toy_compressors toy_ciphers serializers archive
      (entry_of 13 block2)
      2
      deflate_decompress
    ≡ ok raw2.raw_data
unfolding read_block seek_start read_exact decrypt_block from_le_bytes to_le_bytes
read2 = refl

sum0 : bytes_eq (4 ∷ raw0.raw_data) block0.checksum ≡ true
unfolding bytes_eq
sum0 = refl

sum1 : bytes_eq (4 ∷ raw1.raw_data) block1.checksum ≡ true
unfolding bytes_eq
sum1 = refl

sum2 : bytes_eq (1 ∷ raw2.raw_data) block2.checksum ≡ true
unfolding bytes_eq
sum2 = refl

extract_bytes-stream_example :
    extract_bytes toy_compressors toy_ciphers serializers archive file
      (build_block_ranges archive.index.block)
    ≡ ok (take 6 (drop 3 (stream (plain_of raws))))
extract_bytes-stream_example =
    extract_bytes-stream toy_compressors toy_ciphers serializers archive file deflate_decompress
      (plain_of raws) (omega arith) (omega arith) (unfold new_decompressing in refl)
      (read0, sum0, refl, (read1, sum1, refl, (read2, sum2, refl, tt))) (omega arith)

-- A file that holds the front and, behind it, bytes of an older archive.
abbrev disk : File
disk = record { content = front ++ replicate 60 77; cursor = 5; room = 1000 }

abbrev start : ArchiveWriter
start = record {
  writer = disk;
  index = record { files = []; block = []; total_stream_size = 0 };
  stream_position = 0;
  file_position = 5;
  cipher = Cipher.aes key;
  header = header;
}

writer-order_example :
    writer toy_compressors toy_ciphers serializers nonce
      (map block_message (block1 ∷ block0 ∷ []) ++ (finalize (file ∷ []) 8 ∷ []))
      start
    ≡ (write_blocks (block0 ∷ block1 ∷ []) start
        >>= close toy_compressors toy_ciphers serializers nonce (file ∷ []) 8)
writer-order_example =
    writer-order toy_compressors toy_ciphers serializers nonce (block1 ∷ block0 ∷ [])
      (block0 ∷ block1 ∷ []) (file ∷ []) 8 start (omega arith) (refl, (refl, tt))
      (Permᴰ.swap refl refl)

-- The archive behind the three blocks.
abbrev filled : ArchiveWriter
filled = record start {
  writer = record {
    content = front ++ (stored_bytes blocks ++ replicate 50 77);
    cursor = 15;
    room = 1000;
  };
  index = record { files = []; block = entries 5 blocks; total_stream_size = 0 };
  file_position = 15;
}

written : write_blocks blocks start ≡ ok filled
unfolding write_blocks write_block write_all
written = refl

write_blocks-Written_example : Written front blocks start filled
write_blocks-Written_example =
    write_blocks-Written blocks front start filled
      (record { tail = replicate 60 77; content = refl; cursor = refl }) refl
      (omega arith, (omega arith, (omega arith, tt))) (omega arith) written

encrypt_own-encrypt_block_example :
    (encrypt_own toy_ciphers start (1 ∷ []) (index nonce) ≡ ok (7 ∷ 1 ∷ []))
    ↔ (encrypt_block toy_ciphers 0 (1 ∷ []) (index nonce) id (Cipher.aes key) ≡ ok (7 ∷ 1 ∷ []))
encrypt_own-encrypt_block_example =
    encrypt_own-encrypt_block toy_ciphers start (1 ∷ []) (7 ∷ 1 ∷ []) (index nonce)
