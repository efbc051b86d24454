-- ===== src/Engine.antt =====
-- src/engine.rs: the compression engines and the decompression engines. A boxed trait object is a
-- constructor of the engine's type.
pub mod Algo
pub mod Levels
pub mod RoundTrip
use cryo.Base.{
  ℕ, ◌+◌, ◌-◌, ◌%◌, ◌≡◌, String, Bool, true, false, not, ◌&&◌, Option, none, some, leb, ltb,
  if◌then◌else◌, length, take,
}
use cryo.Base.Bytes.{Bytes, u32_mod, u64_mod}
use cryo.Base.Int.{ℤ, pos, negsuc, leb_ℤ}
use cryo.Engine.Algo.{Compressor}
use cryo.Errors.{
  Result, ok, err, or_err, reject, ◌>>=◌, ◌>>◌, CryoErrors, compression_error, decompression_error,
  write_error, possible_zip_bomb, invalid_compression_level, initialization_error,
}
use cryo.Externals.{Compressors, Encoded, write_failed, finish_failed, encoded, Stream}

-- `Display for Compressor`
unfoldable pub name : Compressor → String
name Compressor.zstd = "Zstd"
name Compressor.none = "None"
name Compressor.deflate = "Deflate"
name Compressor.xz = "Xz"

pub data CompressingEngine : Type 0 where
  zstd_compress : ℤ → CompressingEngine
  xz_compress deflate_compress : ℕ → CompressingEngine
  none_compress : CompressingEngine

pub data DecompressingEngine : Type 0 where
  zstd_decompress xz_decompress deflate_decompress none_decompress : DecompressingEngine

-- `level as u32`
abbrev pub as_u32 : ℤ → ℕ
as_u32 (pos n) = n % u32_mod
as_u32 (negsuc n) = (u32_mod - 1 - n % u32_mod) % u32_mod

-- `write_all(data)` and then `finish()` on an encoder
abbrev pub finished : Encoded → Result Bytes
finished write_failed = err write_error
finished finish_failed = err compression_error
finished (encoded c) = ok c

-- `reader.take(limit).read_to_end(&mut out)`: the error behind the limit is not met.
unfoldable pub read_to_end : ℕ → Stream → Option Bytes
read_to_end limit s =
    if leb limit (length s.bytes)
    then some (take limit s.bytes)
    else if s.fails
    then none
    else some s.bytes

-- The body that `XzDecompress` and `DeflateDecompress` share.
unfoldable pub decode_limited : Stream → ℕ → Result Bytes
unfolding read_to_end
decode_limited s max_size = do
  out ← or_err decompression_error (read_to_end ((max_size + 1) % u64_mod) s)
  reject (ltb max_size (length out)) possible_zip_bomb
  ok out

module _ (L : Compressors) where
  unfoldable pub give_range : Compressor → ℤ × ℤ
  give_range Compressor.zstd = (L.zstd_min, L.zstd_max)
  give_range Compressor.deflate = (pos 0, pos 9)
  give_range Compressor.none = (pos 0, pos 0)
  give_range Compressor.xz = (pos 0, pos 9)

  unfoldable pub verify_level : Compressor → ℤ → Bool
  verify_level Compressor.deflate level = leb_ℤ (pos 0) level && leb_ℤ level (pos 9)
  verify_level Compressor.xz level = leb_ℤ (pos 0) level && leb_ℤ level (pos 9)
  verify_level Compressor.zstd level = leb_ℤ L.zstd_min level && leb_ℤ level L.zstd_max
  verify_level Compressor.none level = true

  abbrev start : Compressor → ℤ → Result CompressingEngine
  start Compressor.zstd level =
      if L.zstd_compressor level
      then ok (zstd_compress level)
      else err (initialization_error "Failed to initialize zstd engine")
  start Compressor.xz level = ok (xz_compress (as_u32 level))
  start Compressor.deflate level = ok (deflate_compress (as_u32 level))
  start Compressor.none level = ok none_compress

  -- `CompressingEngine::new`
  unfoldable pub new_compressing : Compressor → ℤ → Result CompressingEngine
  unfolding give_range verify_level name
  new_compressing algo level =
      let (min, max) = give_range algo in
      if verify_level algo level
      then start algo level
      else err (invalid_compression_level (name algo) min max)

  unfoldable pub compress : CompressingEngine → Bytes → Result Bytes
  compress (zstd_compress level) plain = or_err compression_error (L.zstd_compress level plain)
  compress (xz_compress level) plain = finished (L.xz_encode level plain)
  compress (deflate_compress level) plain = finished (L.deflate_encode level plain)
  compress none_compress plain = ok plain

  -- `DecompressingEngine::new`
  unfoldable pub new_decompressing : Compressor → Result DecompressingEngine
  new_decompressing Compressor.zstd =
      if L.zstd_decompressor
      then ok zstd_decompress
      else err (initialization_error "Failed to initialize zstd decompression engine")
  new_decompressing Compressor.deflate = ok deflate_decompress
  new_decompressing Compressor.none = ok none_decompress
  new_decompressing Compressor.xz = ok xz_decompress

  unfoldable pub decompress : DecompressingEngine → Bytes → ℕ → Result Bytes
  unfolding decode_limited
  decompress zstd_decompress c max_size = or_err decompression_error (L.zstd_decompress c max_size)
  decompress xz_decompress c max_size = decode_limited (L.xz_decode c) max_size
  decompress deflate_decompress c max_size = decode_limited (L.deflate_decode c) max_size
  decompress none_decompress c max_size = ok c
