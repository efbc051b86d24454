-- ===== src/Reader/Blocks.antt =====
-- A block that a worker has made reads back as the raw block.
use cryo.Base.{
  ℕ, ◌+◌, ◌%◌, ◌≤◌, ◌<◌, ◌^◌, ◌≡◌, refl, sym, ap, ◌∙◌, ◌++◌, Bool, true, arith, ltb, if◌then◌else◌,
  length, bytes_eq, bytes_eq_refl,
}
use cryo.Base.Bytes.{Bytes, u32_mod, u64_mod}
use mathlib.Core.Path.{subst}
use cryo.Base.Int.{ℤ}
use cryo.Codec.{Cipher, aes, chacha, encrypt_block, decrypt_block}
use cryo.Codec.Expansion.{length-encrypt_block}
use cryo.Codec.Sealing.{decrypt_block-encrypt_block}
use cryo.Compress.Process.{process_block}
use cryo.Compress.Queue.{entry_of}
use cryo.Disk.Laws.{read_exact-part, seek_start-ok}
use cryo.Engine.{
  CompressingEngine, DecompressingEngine, new_compressing, new_decompressing, compress,
}
use cryo.Engine.RoundTrip.{decompress-compress}
use cryo.Errors.{ok, >>=-eq-ok}
use cryo.Externals.{Compressors, Ciphers, Serializers}
use cryo.Externals.Laws.{IsLossless, IsSealing, HasShortTag}
use cryo.Format.{block, BlockEntry}
use cryo.Reader.{ArchiveReader, check_sizes, read_stored, unpack, unseal, read_block}
use cryo.Writer.{RawBlock, ProcessedBlock}

module _ (L : Compressors) (S : Ciphers) (Z : Serializers) where
  abbrev pub made : Bytes → RawBlock → Bool → Bytes → ProcessedBlock
  made nonce raw shorter sealed = record {
    id = raw.id;
    processed_data = sealed;
    size_plain = length raw.raw_data % u32_mod;
    is_compressed = shorter;
    nonce = nonce;
    checksum = Z.blake3_hash raw.raw_data;
  }

  -- What a worker has gone through to make a block.
  pub record Making (nonce : Bytes) (raw : RawBlock) (c : Cipher) (id : Bytes)
      (e : CompressingEngine) (b : ProcessedBlock) : Type 0 where
    pub compressed : Bytes
    pub sealed : Bytes
    pub compressing : compress L e raw.raw_data ≡ ok compressed
    pub sealing :
        encrypt_block S raw.id
          (if ltb (length compressed) (length raw.raw_data) then compressed else raw.raw_data)
          (block nonce)
          id
          c
        ≡ ok sealed
    pub result : b ≡ made nonce raw (ltb (length compressed) (length raw.raw_data)) sealed

  pub process_block-Making :
      (nonce : Bytes) (raw : RawBlock) (c : Cipher) (id : Bytes) (e : CompressingEngine)
      (b : ProcessedBlock)
      → process_block L S Z nonce raw c id e ≡ ok b
      → Making nonce raw c id e b
  unfolding process_block
  process_block-Making nonce raw c id e b h =
      let (compressed, e1, h1) = >>=-eq-ok (compress L e raw.raw_data) _ h in
      let (sealed, e2, h2) =
        >>=-eq-ok
          (encrypt_block S raw.id
            (if ltb (length compressed) (length raw.raw_data) then compressed else raw.raw_data)
            (block nonce) id c)
          _ h1 in
      record {
        compressed = compressed;
        sealed = sealed;
        compressing = e1;
        sealing = e2;
        result = cc;
      }

  module _ (r : ArchiveReader) (engine : DecompressingEngine) where
    read_block-parts :
        (b : BlockEntry) (num : ℕ) (stored decrypted plain : Bytes)
        → check_sizes L S Z r.header b ≡ ok tt
        → read_stored L S Z r.path r.content b ≡ ok stored
        → unseal L S Z r b num stored ≡ ok decrypted
        → unpack L S Z engine b decrypted ≡ ok plain
        → length plain ≡ b.size_plain
        → read_block L S Z r b num engine ≡ ok plain
    unfolding read_block
    read_block-parts b num stored decrypted plain e1 e2 e3 e4 e5 = ground arith

    unseal-encrypt_block :
        IsSealing S
        → (b : BlockEntry) (num : ℕ) (payload sealed : Bytes) (c : Cipher) → r.cipher ≡ c
        → encrypt_block S num payload (block b.nonce) r.header.archive_id c ≡ ok sealed
        → unseal L S Z r b num sealed ≡ ok payload
    unfolding unseal encrypt_block decrypt_block
    unseal-encrypt_block law b num payload sealed (aes k) e h =
        rw e
          (decrypt_block-encrypt_block S law num payload sealed (block b.nonce) r.header (aes k) h)
    unseal-encrypt_block law b num payload sealed (chacha k) e h =
        rw e (
          decrypt_block-encrypt_block S law num payload sealed (block b.nonce) r.header (chacha k)
            h)
    unseal-encrypt_block law b num payload sealed Cipher.none e h = rw e (sym h)

    -- What the worker decided about the compression is undone.
    unpack-compress :
        IsLossless L
        → (level : ℤ) (e : CompressingEngine) (b : BlockEntry) (plain c : Bytes)
        → new_compressing L r.header.compression level ≡ ok e
        → new_decompressing L r.header.compression ≡ ok engine
        → compress L e plain ≡ ok c
        → length plain + 1 < u64_mod
        → b.size_plain ≡ length plain
        → b.is_compressed ≡ ltb (length c) (length plain)
        → unpack L S Z engine b (if ltb (length c) (length plain) then c else plain) ≡ ok plain
    unfolding unpack
    unpack-compress law level e b plain c he hd hc small size flag =
        let back =
          decompress-compress L law r.header.compression level e engine plain c b.size_plain he hd
            hc (omega arith) (omega arith) in
        ground arith

    check_sizes-ok :
        (b : BlockEntry)
        → b.size_plain ≤ r.header.block_size
        → b.size_stored ≤ b.size_plain + 16
        → b.size_stored < u32_mod
        → check_sizes L S Z r.header b ≡ ok tt
    unfolding check_sizes
    check_sizes-ok b h k l = ground arith

    read_stored-part :
        (b : BlockEntry) (front stored tail : Bytes)
        → b.offset ≡ length front
        → b.size_stored ≡ length stored
        → length front < 2 ^ 63
        → r.content ≡ front ++ (stored ++ tail)
        → read_stored L S Z r.path r.content b ≡ ok stored
    unfolding read_stored
    read_stored-part b front stored tail eo es small e = ground (
      arith,
      seek_start-ok r.path (length front) small,
      read_exact-part r.path front stored tail (length front) (length stored) refl refl,
    )

    read_block-made :
        IsLossless L
        → IsSealing S
        → HasShortTag S
        → (level : ℤ) (e : CompressingEngine) (nonce : Bytes) (raw : RawBlock) (b : ProcessedBlock)
          (front tail : Bytes)
        → new_compressing L r.header.compression level ≡ ok e
        → new_decompressing L r.header.compression ≡ ok engine
        → (m : Making nonce raw r.cipher r.header.archive_id e b)
        → let x = made nonce raw (ltb (length m.compressed) (length raw.raw_data)) m.sealed in
          r.content ≡ front ++ (m.sealed ++ tail)
          → length front < 2 ^ 63
          → length raw.raw_data ≤ r.header.block_size
          → length raw.raw_data + 16 < u32_mod
          → read_block L S Z r (entry_of (length front) x) raw.id engine ≡ ok raw.raw_data
    read_block-made lossless law tag level e nonce raw b front tail he hd m content small fits
          size =
        let x = made nonce raw (ltb (length m.compressed) (length raw.raw_data)) m.sealed in
        let y = entry_of (length front) x in
        let payload =
          if ltb (length m.compressed) (length raw.raw_data) then m.compressed else raw.raw_data in
        let short : length m.sealed ≤ length raw.raw_data + 16 = omega (
          arith,
          length-encrypt_block S tag raw.id payload m.sealed (block nonce) r.header.archive_id
              r.cipher m.sealing,
          payload_le m.compressed raw.raw_data,
        ) in
        read_block-parts y raw.id m.sealed payload raw.raw_data
          (check_sizes-ok y (omega arith) (omega arith) (omega arith))
          (read_stored-part y front m.sealed tail refl (omega arith) small content)
          (unseal-encrypt_block law y raw.id payload m.sealed r.cipher refl m.sealing)
          (unpack-compress lossless level e y raw.raw_data m.compressed he hd m.compressing
            (omega arith) (omega arith) refl)
          (omega arith)
      where
        payload_le :
            (c plain : Bytes)
            → length (if ltb (length c) (length plain) then c else plain) ≤ length plain
        payload_le c plain = ground arith

    -- A block that `process_block` made under the archive's cipher and id, and that lies on the
    -- disk where its entry says, reads back as the raw block at its own number; its checksum is
    -- that of the raw bytes, and its size is theirs. The raw block fits the archive's block size
    -- and u32; the codec is lossless, and the cipher opens what it sealed with a tag of at most 16
    -- bytes.
    pub read_block-process_block :
        IsLossless L
        → IsSealing S
        → HasShortTag S
        → (level : ℤ) (e : CompressingEngine) (nonce : Bytes) (raw : RawBlock) (b : ProcessedBlock)
          (front tail : Bytes)
        → new_compressing L r.header.compression level ≡ ok e
        → new_decompressing L r.header.compression ≡ ok engine
        → process_block L S Z nonce raw r.cipher r.header.archive_id e ≡ ok b
        → r.content ≡ front ++ (b.processed_data ++ tail)
        → length front < 2 ^ 63
        → length raw.raw_data ≤ r.header.block_size
        → length raw.raw_data + 16 < u32_mod
        → (read_block L S Z r (entry_of (length front) b) raw.id engine ≡ ok raw.raw_data)
          × (bytes_eq (Z.blake3_hash raw.raw_data) b.checksum ≡ true)
          × (length raw.raw_data ≡ b.size_plain)
    read_block-process_block lossless law tag level e nonce raw b front tail he hd h content small
          fits size =
        let m = process_block-Making nonce raw r.cipher r.header.archive_id e b h in
        (
          subst
              (λ (x : ProcessedBlock).
                read_block L S Z r (entry_of (length front) x) raw.id engine ≡ ok raw.raw_data)
              (sym m.result)
              (read_block-made lossless law tag level e nonce raw b front tail he hd m
                (content
                  ∙ ap (λ (x : ProcessedBlock). front ++ (x.processed_data ++ tail)) m.result)
                small fits size),
          subst (λ (x : ProcessedBlock). bytes_eq (Z.blake3_hash raw.raw_data) x.checksum ≡ true)
              (sym m.result) (bytes_eq_refl _),
          omega (arith, ap (λ (x : ProcessedBlock). x.size_plain) m.result),
        )
