-- ===== src/Engine/RoundTrip.antt =====
-- What decompression gives back, and where it stops.
use cryo.Base.{
  ℕ, ◌+◌, ◌≤◌, ◌<◌, ◌≡◌, ◌∙◌, false, arith, ltb, if◌then◌else◌, length, length-take, take-all,
}
use cryo.Base.Bytes.{Bytes, u64_mod}
use cryo.Base.Int.{ℤ}
use cryo.Engine.Algo.{Compressor}
use cryo.Engine.{
  finished, CompressingEngine, zstd_compress, xz_compress, deflate_compress, none_compress,
  DecompressingEngine, zstd_decompress, xz_decompress, deflate_decompress, none_decompress,
  decode_limited, new_compressing, new_decompressing, compress, decompress,
}
use cryo.Errors.{ok, err, decompression_error, possible_zip_bomb, or_err-eq-ok}
use cryo.Externals.{Compressors, Stream, Encoded, encoded}
use cryo.Externals.Laws.{IsLossless}

-- For a limit below 2^64 - 1: a stream with more bytes than the limit is a bomb, also if it breaks
-- behind them; another one is a decompression error if it breaks, and is given whole if it ends.
pub decode_limited_lem :
    (s : Stream) (n : ℕ)
    → n + 1 < u64_mod
    → decode_limited s n ≡ (
        if ltb n (length s.bytes)
        then err possible_zip_bomb
        else if s.fails
        then err decompression_error
        else ok s.bytes)
unfolding decode_limited
decode_limited_lem s n h = ground (arith, length-take (n + 1) s.bytes, take-all (n + 1) s.bytes)

finished-eq-ok : (e : Encoded) (c : Bytes) → finished e ≡ ok c → e ≡ encoded c
finished-eq-ok e c h = ground arith

decode_limited_whole :
    (s : Stream) (plain : Bytes) (n : ℕ)
    → s ≡ record { bytes = plain; fails = false }
    → length plain ≤ n
    → n + 1 < u64_mod
    → decode_limited s n ≡ ok plain
decode_limited_whole s plain n e h k = rw e (decode_limited_lem _ n k ∙ ground arith)

module _ (L : Compressors) where
  -- What an engine has compressed, the decompressing engine of the same algorithm gives back under
  -- any limit below 2^64 - 1 that the plain bytes respect, if the crates are lossless.
  pub decompress-compress :
      IsLossless L
      → (algo : Compressor) (level : ℤ) (e : CompressingEngine) (d : DecompressingEngine)
        (plain c : Bytes) (n : ℕ)
      → new_compressing L algo level ≡ ok e
      → new_decompressing L algo ≡ ok d
      → compress L e plain ≡ ok c
      → length plain ≤ n
      → n + 1 < u64_mod
      → decompress L d c n ≡ ok plain
  unfolding new_compressing new_decompressing compress
  decompress-compress lossless Compressor.zstd level (zstd_compress l) zstd_decompress plain c n he
        hd hc h k =
      unfold decompress in rw (lossless.zstd l plain c n (or_err-eq-ok _ _ hc) h)
  decompress-compress lossless Compressor.xz level (xz_compress l) xz_decompress plain c n he hd hc
        h k =
      unfold decompress in
      decode_limited_whole _ plain n (lossless.xz l plain c (finished-eq-ok _ c hc)) h k
  decompress-compress lossless Compressor.deflate level (deflate_compress l) deflate_decompress
        plain c n he hd hc h k =
      unfold decompress in
      decode_limited_whole _ plain n (lossless.deflate l plain c (finished-eq-ok _ c hc)) h k
  decompress-compress lossless Compressor.none level none_compress none_decompress plain c n he hd
        hc h k =
      unfold decompress in cc
  decompress-compress lossless _ level _ _ plain c n he hd hc h k = ground arith
