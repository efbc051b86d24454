-- ===== src/Reader/Inputs.antt =====
-- From the input files to the files that come out.
use mathlib.Core.Option.{get_or}
use mathlib.Core.Path.{subst}
use cryo.Base.{ℕ, ◌+◌, ◌≤◌, ◌<◌, ◌^◌, ◌≡◌, ap, some, List, [], ◌∷◌, ◌++◌, arith, length, All}
use cryo.Base.Bytes.{Bytes, u32_mod, u64_mod}
use cryo.Base.Int.{ℤ}
use cryo.Compress.Chunks.{ReadState, InputEntry}
use cryo.Compress.Input.{read_inputs}
use cryo.Compress.Input.Whole.{AllRead, IsAtMost, IsSent, read_inputs-IsSent}
use cryo.Compress.Queue.Layout.{stored_bytes, entries}
use cryo.Consts.{max_file_size}
use cryo.Engine.{CompressingEngine, DecompressingEngine, new_compressing, new_decompressing}
use cryo.Errors.{ok}
use cryo.Externals.{Compressors, Ciphers, Serializers}
use cryo.Externals.Laws.{IsLossless, IsSealing, HasShortTag}
use cryo.FilePath.{FilePath}
use cryo.Format.{FileEntry}
use cryo.Reader.{ArchiveReader, build_block_ranges, extract_bytes}
use cryo.Reader.Restore.{AreMade, Fit, extract_bytes-restores}
use cryo.Writer.{RawBlock, ProcessedBlock}

module _ (L : Compressors) (S : Ciphers) (Z : Serializers) where
  pub at_most-Fit :
      (block_size : ℕ) (raws : List RawBlock)
      → block_size + 16 < u32_mod
      → All (IsAtMost block_size) raws
      → Fit L S Z block_size raws
  at_most-Fit block_size [] h a = tt
  at_most-Fit block_size (x ∷ raws) h (le, a) = (le, omega arith, at_most-Fit block_size raws h a)

  -- The state that `read_inputs` gives is the one that the theorem about it speaks of.
  pub sent :
      (root : FilePath) (block_size : ℕ) (inputs : List InputEntry) (es : List FileEntry)
      (stream : Bytes) (t : ReadState)
      → 0 < block_size
      → length stream < u64_mod
      → AllRead root 0 inputs es stream
      → read_inputs root block_size inputs ≡ some (ok tt, t)
      → IsSent 0 0 block_size stream es t
  sent root block_size inputs es stream t pos small all e =
      let (t', e', s) = read_inputs-IsSent root block_size inputs es stream pos small all in
      let same : t' ≡ t = cc in subst (IsSent 0 0 block_size stream es) same s

  -- Let all inputs be readable and be read into blocks of the archive's block size, which is not 0
  -- and, with 16 more, below 2^32; let each stored block be what `process_block` made of the block
  -- sent at its place, under the archive's cipher and id; and let the blocks lie behind each other
  -- below 2^63 with an index that lists them. Then a file whose offset and size cut `content` out
  -- of the inputs' bytes, within the size limit, is extracted as exactly `content`. The codec is
  -- lossless, and the cipher opens what it sealed with a tag of at most 16 bytes.
  pub extract_bytes-read_inputs :
      (r : ArchiveReader) (engine : DecompressingEngine) (e : CompressingEngine) (level : ℤ)
      → IsLossless L
      → IsSealing S
      → HasShortTag S
      → new_compressing L r.header.compression level ≡ ok e
      → new_decompressing L r.header.compression ≡ ok engine
      → (root : FilePath) (inputs : List InputEntry) (es : List FileEntry) (t : ReadState)
        (bs : List ProcessedBlock) (front tail before content after : Bytes) (f : FileEntry)
      → 0 < r.header.block_size
      → r.header.block_size + 16 < u32_mod
      → AllRead root 0 inputs es (before ++ (content ++ after))
      → length (before ++ (content ++ after)) < u64_mod
      → read_inputs root r.header.block_size inputs ≡ some (ok tt, t)
      → AreMade L S Z r.cipher r.header.archive_id e t.sent bs
      → r.content ≡ front ++ (stored_bytes bs ++ tail)
      → r.index.block ≡ entries (length front) bs
      → length front + length (stored_bytes bs) < 2 ^ 63
      → f.stream_offset ≡ length before
      → f.size ≡ length content
      → f.size ≤ get_or r.limits.file_size max_file_size
      → extract_bytes L S Z r f (build_block_ranges r.index.block) ≡ ok content
  extract_bytes-read_inputs r engine e level lossless sealing tag he hd root inputs es t bs front
        tail before content after f pos fits all small read made disk blocks room offset size
        limit =
      let s =
        sent root r.header.block_size inputs es (before ++ (content ++ after)) t pos small all
          read in
      extract_bytes-restores L S Z r engine e level lossless sealing tag he hd t.sent bs front tail
        before content after f made s.numbered
        (at_most-Fit r.header.block_size t.sent fits s.at_most) disk blocks room s.whole
        (omega (arith, ap length s.whole)) offset size limit
