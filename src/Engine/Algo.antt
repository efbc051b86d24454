-- ===== src/Engine/Algo.antt =====
-- src/engine.rs: the compression algorithms by name.
pub data Compressor : Type 0 where
  zstd xz deflate none : Compressor
