-- ===== src/Reader/Restore.antt =====
-- From the blocks that the workers made to the bytes of a file.
use mathlib.Core.Path.{subst}
use mathlib.Core.Option.{get_or}
use cryo.Base.{
  ℕ, ◌+◌, ◌≤◌, ◌<◌, ◌^◌, ◌≡◌, refl, sym, ap, ◌∙◌, List, [], ◌∷◌, ◌++◌, map, arith, length,
  append_assoc, length-append,
}
use cryo.Base.Bytes.{Bytes, u32_mod, u64_mod}
use cryo.Base.Int.{ℤ}
use cryo.Codec.{Cipher}
use cryo.Compress.Chunks.Emit.{raw_bytes, NumberedRaw}
use cryo.Compress.Process.{process_block}
use cryo.Compress.Queue.{entry_of}
use cryo.Compress.Queue.Layout.{stored_bytes, entries}
use cryo.Consts.{max_file_size}
use cryo.Engine.{CompressingEngine, DecompressingEngine, new_compressing, new_decompressing}
use cryo.Errors.{ok}
use cryo.Externals.{Compressors, Ciphers, Serializers}
use cryo.Externals.Laws.{IsLossless, IsSealing, HasShortTag}
use cryo.Format.{BlockEntry, FileEntry}
use cryo.Reader.{ArchiveReader, read_block, build_block_ranges, extract_bytes}
use cryo.Reader.Blocks.{read_block-process_block}
use cryo.Reader.Parts.{extract_bytes-part}
use cryo.Reader.Slices.{stream, Stored}
use cryo.Writer.{RawBlock, ProcessedBlock}

abbrev pub plain_of : List RawBlock → List Bytes
plain_of = map (λ (x : RawBlock). x.raw_data)

pub stream-plain_of : (raws : List RawBlock) → stream (plain_of raws) ≡ raw_bytes raws
stream-plain_of [] = refl
stream-plain_of (x ∷ raws) = ap (λ (t : Bytes). x.raw_data ++ t) (stream-plain_of raws)

module _ (L : Compressors) (S : Ciphers) (Z : Serializers) where
  -- Each block is what `process_block` has made of the raw block at its place, with some nonce.
  pub data AreMade (c : Cipher) (id : Bytes) (e : CompressingEngine)
      : List RawBlock → List ProcessedBlock → Type 0 where
    none_made : AreMade c id e [] []
    one_made :
        {raw : RawBlock} {b : ProcessedBlock} {raws : List RawBlock} {bs : List ProcessedBlock}
        → (nonce : Bytes) → process_block L S Z nonce raw c id e ≡ ok b
        → AreMade c id e raws bs
        → AreMade c id e (raw ∷ raws) (b ∷ bs)

  -- No raw block is longer than a block of the archive, nor than a block's length can say.
  abbrev pub Fit : ℕ → List RawBlock → Type 0
  Fit block_size [] = Unit
  Fit block_size (x ∷ raws) =
      (length x.raw_data ≤ block_size) × (length x.raw_data + 16 < u32_mod) × Fit block_size raws

  module _ (r : ArchiveReader) (engine : DecompressingEngine) (e : CompressingEngine) (level : ℤ)
      (lossless : IsLossless L) (sealing : IsSealing S) (tag : HasShortTag S)
      (compresses : new_compressing L r.header.compression level ≡ ok e)
      (decompresses : new_decompressing L r.header.compression ≡ ok engine) where
    -- Blocks that lie one behind the other on the disk are there for the reader.
    pub AreMade-Stored :
        (raws : List RawBlock) (bs : List ProcessedBlock) (i : ℕ) (front tail : Bytes)
        → AreMade r.cipher r.header.archive_id e raws bs
        → NumberedRaw i raws
        → Fit r.header.block_size raws
        → r.content ≡ front ++ (stored_bytes bs ++ tail)
        → length front + length (stored_bytes bs) < 2 ^ 63
        → Stored L S Z r engine i (entries (length front) bs) (plain_of raws)
    AreMade-Stored [] [] i front tail none_made num fit content small = tt
    AreMade-Stored [] (b ∷ bs) i front tail made num fit content small = elim made [ ]
    AreMade-Stored (raw ∷ raws) [] i front tail made num fit content small = elim made [ ]
    AreMade-Stored (raw ∷ raws) (b ∷ bs) i front tail (one_made nonce h made) (num, nums)
          (fit, size, fits) content small =
        let content' : r.content ≡ front ++ (b.processed_data ++ (stored_bytes bs ++ tail)) =
          content
          ∙ ap (λ (t : Bytes). front ++ t) (append_assoc b.processed_data (stored_bytes bs) tail) in
        let (read, sum, plain) =
          read_block-process_block L S Z r engine lossless sealing tag level e nonce raw b front
            (stored_bytes bs ++ tail) compresses decompresses h content'
            (omega (arith, length-append b.processed_data (stored_bytes bs))) fit size in
        (
          subst
              (λ (k : ℕ). read_block L S Z r (entry_of (length front) b) k engine ≡ ok raw.raw_data)
              num read,
          sum,
          plain,
          subst (λ (k : ℕ). Stored L S Z r engine (i + 1) (entries k bs) (plain_of raws))
              (length-append front b.processed_data)
              (AreMade-Stored raws bs (i + 1) (front ++ b.processed_data) tail made nums fits
                (content' ∙ sym (append_assoc front b.processed_data (stored_bytes bs ++ tail)))
                (omega (
                  arith,
                  length-append front b.processed_data,
                  length-append b.processed_data (stored_bytes bs),
                ))),
        )

    -- Let each block of an archive be made by `process_block` from the raw block at its place, all
    -- under one engine and the archive's cipher and id, and let the blocks lie behind each other
    -- with an index that lists them. If raw blocks are numbered from 0, fit the block size and
    -- u32, and join to a stream that has `content` at the file's offset and of its size, and the
    -- size is within the limit, then the reader gives exactly `content`. The codec is lossless,
    -- the cipher opens what it sealed, and its tag has at most 16 bytes.
    pub extract_bytes-restores :
        (raws : List RawBlock) (bs : List ProcessedBlock) (front tail before content after : Bytes)
        (f : FileEntry)
        → AreMade r.cipher r.header.archive_id e raws bs
        → NumberedRaw 0 raws
        → Fit r.header.block_size raws
        → r.content ≡ front ++ (stored_bytes bs ++ tail)
        → r.index.block ≡ entries (length front) bs
        → length front + length (stored_bytes bs) < 2 ^ 63
        → raw_bytes raws ≡ before ++ (content ++ after)
        → length (raw_bytes raws) < u64_mod
        → f.stream_offset ≡ length before
        → f.size ≡ length content
        → f.size ≤ get_or r.limits.file_size max_file_size
        → extract_bytes L S Z r f (build_block_ranges r.index.block) ≡ ok content
    extract_bytes-restores raws bs front tail before content after f made num fit disk blocks small
          whole short offset size limit =
        extract_bytes-part L S Z r f engine (plain_of raws) before content after limit decompresses
          (subst (λ (t : List BlockEntry). Stored L S Z r engine 0 t (plain_of raws)) (sym blocks)
            (AreMade-Stored raws bs 0 front tail made num fit disk small))
          (stream-plain_of raws ∙ whole) (omega (arith, ap length (stream-plain_of raws))) offset
          size
