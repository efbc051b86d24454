-- ===== src/Tests/Parts.antt =====
-- The theorems on engines, ciphers, footers and paths at concrete inputs.
use cryo.Base.{
  ◌≡◌, refl, ◌↔◌, true, [], ◌∷◌, ◌++◌, arith, replicate, length, ltb, bytes_eq, if◌then◌else◌,
}
use cryo.Base.Bytes.{Bytes, to_le_bytes, from_le_bytes}
use cryo.Base.Int.{pos, ◌≤ℤ◌}
use cryo.Codec.{Cipher, encrypt_block, decrypt_block}
use cryo.Codec.Sealing.{place, decrypt_block-encrypt_block, decrypt_block_place}
use cryo.Engine.Algo.{Compressor}
use cryo.Engine.{
  xz_compress, xz_decompress, name, give_range, new_compressing, compress, new_decompressing,
  decompress, decode_limited,
}
use cryo.Engine.Levels.{new_compressing_range}
use cryo.Engine.RoundTrip.{decode_limited_lem, decompress-compress}
use cryo.Errors.{ok, err, possible_zip_bomb, decompression_error, invalid_compression_level}
use cryo.Externals.{Stream}
use cryo.FilePath.{FilePath, root_dir, parent_dir, normal, starts_with, join, component_eq}
use cryo.Format.{block, Header, EncryptionType}
use cryo.Format.Footer.{Footer, serialize, deserialize}
use cryo.Format.Footer.RoundTrip.{deserialize-serialize}
use cryo.PathSafety.{normalize, collect, step}
use cryo.PathSafety.Normalize.{resolve, normalize-resolve}
use cryo.Tests.Toys.{
  toy_compressors, toy-IsLossless, toy_ciphers, toy-IsSealing, long_ciphers, long-IsAuthentic,
}

-- An archive's id of 16 bytes, and a header with it.
abbrev id : Bytes
id = replicate 16 9

abbrev header : Header
header = record {
  magic = [];
  version = 3;
  compression = Compressor.xz;
  compression_level = pos 6;
  encryption = EncryptionType.aes;
  argon_salt = replicate 16 1;
  argon_params = (19456, 2, 1);
  archive_id = id;
  block_size = 4;
}

abbrev nonce : Bytes
nonce = replicate 12 5

new_compressing_range_example :
    (new_compressing toy_compressors Compressor.zstd (pos 40)
      ≡ err (
          invalid_compression_level
            (name Compressor.zstd)
            (give_range toy_compressors Compressor.zstd).0
            (give_range toy_compressors Compressor.zstd).1))
    ↔ ¬ (
        ((give_range toy_compressors Compressor.zstd).0 ≤ℤ pos 40)
        × (pos 40 ≤ℤ (give_range toy_compressors Compressor.zstd).1))
new_compressing_range_example =
    new_compressing_range toy_compressors Compressor.zstd (pos 40) (λ e. cc)

abbrev broken : Stream
broken = record { bytes = 1 ∷ 2 ∷ 3 ∷ []; fails = true }

decode_limited_lem_example : decode_limited broken 2 ≡ (
    if ltb 2 (length broken.bytes)
    then err possible_zip_bomb
    else if broken.fails
    then err decompression_error
    else ok broken.bytes)
decode_limited_lem_example = decode_limited_lem broken 2 (omega arith)

abbrev zeros : Bytes
zeros = 0 ∷ 0 ∷ 0 ∷ 7 ∷ []

decompress-compress_example : decompress toy_compressors xz_decompress (1 ∷ 7 ∷ []) 4 ≡ ok zeros
decompress-compress_example =
    decompress-compress toy_compressors toy-IsLossless Compressor.xz (pos 6) (xz_compress 6)
      xz_decompress zeros (1 ∷ 7 ∷ []) 4 (unfold new_compressing in refl)
      (unfold new_decompressing in refl) (unfold compress in refl) (omega arith) (omega arith)

decrypt_block-encrypt_block_example :
    decrypt_block toy_ciphers (block nonce) (Cipher.aes (3 ∷ [])) header (220 ∷ zeros) 2 ≡ ok zeros
unfolding from_le_bytes to_le_bytes
decrypt_block-encrypt_block_example =
    decrypt_block-encrypt_block toy_ciphers toy-IsSealing 2 zeros (220 ∷ zeros) (block nonce) header
      (Cipher.aes (3 ∷ [])) (unfold encrypt_block in refl)

-- A block and the place where it belongs.
abbrev locked : Bytes
locked = 24 ∷ ((2 ∷ 0 ∷ 0 ∷ 0 ∷ 0 ∷ 0 ∷ 0 ∷ 0 ∷ id) ++ zeros)

decrypt_block_place_example :
    (place (block nonce) 2 ≡ place (block (7 ∷ [])) 2) × (id ≡ header.archive_id)
unfolding to_le_bytes bytes_eq
decrypt_block_place_example =
    decrypt_block_place long_ciphers long-IsAuthentic 2 2 zeros locked zeros (block nonce)
      (block (7 ∷ [])) id header (Cipher.chacha (3 ∷ [])) (λ e. cc) (omega arith) (omega arith)
      (unfold encrypt_block in refl) (unfold decrypt_block in refl)

abbrev footer : Footer
footer = record {
  index_offset = 70000;
  index_size_stored = 300;
  index_size_plain = 500;
  index_compressed = true;
  index_nonce = nonce;
}

deserialize-serialize_example : deserialize (serialize footer) ≡ ok footer
deserialize-serialize_example = deserialize-serialize footer (record {
  offset_fits = omega arith;
  stored_fits = omega arith;
  plain_fits = omega arith;
  nonce_fits = refl;
})

-- `/srv/out/../in`, a link target below `/srv`.
abbrev target : FilePath
target = normal "srv" ∷ normal "out" ∷ parent_dir ∷ normal "in" ∷ []

normalize-resolve_example : normalize (root_dir ∷ target) ≡ resolve (root_dir ∷ target)
unfolding starts_with collect step join component_eq
normalize-resolve_example =
    normalize-resolve target "srv" [] (tt, (tt, (tt, (tt, tt)))) (unfold normalize in refl)
