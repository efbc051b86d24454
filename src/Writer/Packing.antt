-- ===== src/Writer/Packing.antt =====
-- The index as it is packed, and unpacked again.
use cryo.Base.{◌%◌, ◌≤◌, ◌<◌, ◌≡◌, some, arith, ltb, if◌then◌else◌, length}
use cryo.Base.Bytes.{Bytes, u32_mod}
use cryo.Engine.{
  CompressingEngine, DecompressingEngine, new_compressing, new_decompressing, compress, decompress,
}
use cryo.Engine.RoundTrip.{decompress-compress}
use cryo.Errors.{ok, >>=-eq-ok}
use cryo.Externals.{Compressors, Serializers}
use cryo.Externals.Laws.{IsLossless}
use cryo.Format.{Header, Index}
use cryo.Writer.{PackedIndex, pack_index}

module _ (L : Compressors) (Z : Serializers) where
  abbrev pub packed_of : Bytes → Bytes → PackedIndex
  packed_of index_bytes compr =
      let shorter = ltb (length compr) (length index_bytes % u32_mod) in
      record {
        bytes = if shorter then compr else index_bytes;
        compressed = shorter;
        size_plain = length index_bytes % u32_mod;
      }

  -- What the packing of a known index has gone through.
  pub record Packing (h : Header) (index_bytes : Bytes) (packed : PackedIndex) : Type 0 where
    pub engine : CompressingEngine
    pub compr : Bytes
    pub started : new_compressing L h.compression h.compression_level ≡ ok engine
    pub compressing : compress L engine index_bytes ≡ ok compr
    pub result : packed ≡ packed_of index_bytes compr

  pub pack_index-Packing :
      (h : Header) (idx : Index) (index_bytes : Bytes) (packed : PackedIndex)
      → Z.index_to_vec idx ≡ some index_bytes
      → pack_index L Z h idx ≡ ok packed
      → Packing h index_bytes packed
  unfolding pack_index
  pack_index-Packing h idx index_bytes packed e h0 =
      let h1 = rw e at h0 in
      let (engine, started, h2) =
        >>=-eq-ok (new_compressing L h.compression h.compression_level) _ h1 in
      let (compr, compressing, h3) = >>=-eq-ok (compress L engine index_bytes) _ h2 in
      record {
        engine = engine;
        compr = compr;
        started = started;
        compressing = compressing;
        result = cc;
      }

  -- What is packed is no longer than the index, and unpacks to it under its recorded size.
  pub unpack-packed_of :
      IsLossless L
      → (h : Header) (index_bytes : Bytes) (packed : PackedIndex) (d : DecompressingEngine)
      → Packing h index_bytes packed
      → new_decompressing L h.compression ≡ ok d
      → length index_bytes < u32_mod
      → (packed.size_plain ≡ length index_bytes)
        × (length packed.bytes ≤ length index_bytes)
        × ((if packed.compressed
              then decompress L d packed.bytes packed.size_plain
              else ok packed.bytes)
            ≡ ok index_bytes)
  unpack-packed_of lossless h index_bytes packed d pk hd small =
      let back =
        decompress-compress L lossless h.compression h.compression_level pk.engine d index_bytes
          pk.compr (length index_bytes % u32_mod) pk.started hd pk.compressing (omega arith)
          (omega arith) in
      rw pk.result (ground arith, ground arith, ground arith)
