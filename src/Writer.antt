-- ===== src/Writer.antt =====
-- src/writer.rs: the messages to the writer thread, and the archive under construction.
pub mod Finish
pub mod Sealing
pub mod Packing
use cryo.Base.{
  ℕ, ◌+◌, ◌-◌, ◌%◌, Bool, true, false, not, Option, List, [], ◌++◌, ltb, if◌then◌else◌, length,
}
use cryo.Base.Bytes.{Bytes, u32_mod, u64_mod, to_le_bytes}
use cryo.Codec.{Cipher, aes, chacha, Prompts, new_cipher}
use cryo.Disk.{File, write_all, set_len}
use cryo.Engine.{new_compressing, compress}
use cryo.Errors.{
  Result, ok, err, or_err, reject, ◌>>=◌, ◌>>◌, invalid_path, serialization_failed, write_error,
  cryptographic_error,
}
use cryo.Externals.{Compressors, Ciphers, Serializers}
use cryo.Format.{EncryptedData, index, FileEntry, Index, Header}
use cryo.Format.Footer.{Footer, serialize}

pub record RawBlock : Type 0 where
  pub id : ℕ
  pub raw_data : Bytes

pub record ProcessedBlock : Type 0 where
  pub id : ℕ
  pub processed_data : Bytes
  pub size_plain : ℕ
  pub is_compressed : Bool
  pub nonce : Bytes
  pub checksum : Bytes

pub data WriterMessage : Type 0 where
  block : ProcessedBlock → WriterMessage
  finalize : List FileEntry → ℕ → WriterMessage

pub record ArchiveWriter : Type 0 where
  pub writer : File
  pub index : Index
  pub stream_position : ℕ
  pub file_position : ℕ
  pub cipher : Cipher
  pub header : Header

abbrev pub empty_index : Index
empty_index = record { files = []; block = []; total_stream_size = 0 }

-- The length of the header in four bytes, and the header.
abbrev pub header_part : Bytes → Bytes
header_part header_bytes = to_le_bytes 4 (length header_bytes % u32_mod) ++ header_bytes

-- `ArchiveWriter::new`. `opened` is what opening the file under `archive_filename` gives: a new and
-- empty file, or nothing where one exists or none can be made.
unfoldable pub new_archive :
    Ciphers → Serializers → Option File → Header → Bool → Prompts → Result ArchiveWriter
new_archive S Z opened h confirm typed = do
  cipher ← new_cipher S h confirm typed
  file ← or_err invalid_path opened
  header_bytes ← or_err serialization_failed (Z.header_to_vec h)
  let bytes_to_write = header_part header_bytes
  written ← or_err write_error (write_all bytes_to_write file)
  ok (record {
    writer = written;
    index = empty_index;
    stream_position = 0;
    file_position = length bytes_to_write;
    cipher = cipher;
    header = h;
  })

-- The nonce and the associated data of `ArchiveWriter::encrypt_block`, put together here once more.
unfoldable pub own_nonce_and_aad : ArchiveWriter → EncryptedData → Bytes × Bytes
own_nonce_and_aad a (EncryptedData.block nonce) =
    let block_num = length a.index.block in (nonce, to_le_bytes 8 block_num ++ a.header.archive_id)
own_nonce_and_aad a (EncryptedData.index nonce) =
    let block_num = u64_mod - 1 in (nonce, to_le_bytes 8 block_num ++ a.header.archive_id)

-- `ArchiveWriter::encrypt_block`, the writer's own sealing.
module _ (S : Ciphers) where
  abbrev seal : Cipher → Bytes → Bytes → Bytes → Result Bytes
  seal (aes k) nonce aad payload = do
    reject (not (S.aes_new k)) (cryptographic_error "AES initizalition failure")
    or_err (cryptographic_error "AES encryption failure") (S.aes_encrypt k nonce aad payload)
  seal (chacha k) nonce aad payload =
      or_err (cryptographic_error "CHACHA encrypt failure") (S.chacha_encrypt k nonce aad payload)
  seal Cipher.none nonce aad payload = ok payload

  unfoldable pub encrypt_own : ArchiveWriter → Bytes → EncryptedData → Result Bytes
  unfolding own_nonce_and_aad
  encrypt_own a payload encd =
      let (nonce, aad) = own_nonce_and_aad a encd in seal a.cipher nonce aad payload

-- The index as it is stored: compressed if that is shorter.
pub record PackedIndex : Type 0 where
  pub bytes : Bytes
  pub compressed : Bool
  pub size_plain : ℕ

module _ (L : Compressors) (Z : Serializers) where
  unfoldable pub pack_index : Header → Index → Result PackedIndex
  pack_index h idx = do
    index_bytes ← or_err serialization_failed (Z.index_to_vec idx)
    engine ← new_compressing L h.compression h.compression_level
    compr_index_bytes ← compress L engine index_bytes
    let size = length index_bytes % u32_mod
    let shorter = ltb (length compr_index_bytes) size
    ok (record {
      bytes = if shorter then compr_index_bytes else index_bytes;
      compressed = shorter;
      size_plain = size;
    })

abbrev pub footer_of : Bytes → ArchiveWriter → PackedIndex → Bytes → Footer
footer_of nonce a packed encrypted_index = record {
  index_offset = a.file_position;
  index_size_stored = length encrypted_index % u32_mod;
  index_size_plain = packed.size_plain;
  index_compressed = packed.compressed;
  index_nonce = nonce;
}

-- The two writes at the end of `finish`, and the cut behind them.
unfoldable pub store : ArchiveWriter → Bytes → Bytes → Result File
store a encrypted_index footer_bytes = do
  w ← or_err write_error (write_all encrypted_index a.writer)
  v ← or_err write_error (write_all footer_bytes w)
  let final_len = (a.file_position + length encrypted_index + length footer_bytes) % u64_mod
  or_err write_error (set_len final_len v)

module _ (L : Compressors) (S : Ciphers) (Z : Serializers) where
  -- `finish`; `nonce` is drawn by the random source.
  unfoldable pub finish : Bytes → ArchiveWriter → Result ArchiveWriter
  unfolding pack_index encrypt_own store
  finish nonce a = do
    let idx = record a.index { total_stream_size = a.stream_position }
    packed ← pack_index L Z a.header idx
    encrypted_index ← encrypt_own S (record a { index = idx }) packed.bytes (index nonce)
    u ← store a encrypted_index (serialize (footer_of nonce a packed encrypted_index))
    ok (record a { writer = u; index = idx })
