-- ===== src/Compress/Process.antt =====
-- src/compress.rs, `process_block`: what a worker makes of one raw block.
use cryo.Base.{◌%◌, ltb, if◌then◌else◌, length}
use cryo.Base.Bytes.{Bytes, u32_mod}
use cryo.Codec.{Cipher, encrypt_block}
use cryo.Engine.{CompressingEngine, compress}
use cryo.Errors.{Result, ok, ◌>>=◌}
use cryo.Externals.{Compressors, Ciphers, Serializers}
use cryo.Format.{block}
use cryo.Writer.{RawBlock, ProcessedBlock}

module _ (L : Compressors) (S : Ciphers) (Z : Serializers) where
  -- `nonce` is what the random source draws for this block.
  unfoldable pub process_block :
      Bytes → RawBlock → Cipher → Bytes → CompressingEngine → Result ProcessedBlock
  process_block nonce raw cipher archive_id compressor = do
    compressed ← compress L compressor raw.raw_data
    let shorter = ltb (length compressed) (length raw.raw_data)
    let to_encrypt = if shorter then compressed else raw.raw_data
    encrypted ← encrypt_block S raw.id to_encrypt (block nonce) archive_id cipher
    ok (record {
      id = raw.id;
      processed_data = encrypted;
      size_plain = length raw.raw_data % u32_mod;
      is_compressed = shorter;
      nonce = nonce;
      checksum = Z.blake3_hash raw.raw_data;
    })
