-- ===== src/Reader/Parts.antt =====
-- The part of the blocks' stream that a file is.
use mathlib.Core.Option.{get_or}
use cryo.Base.{
  ◌≤◌, ◌<◌, ◌≡◌, sym, ap, ◌∙◌, List, ◌++◌, arith, length, take, drop, length-append, drop-append_at,
  take-append_at,
}
use cryo.Base.Bytes.{Bytes, u64_mod}
use cryo.Consts.{max_file_size}
use cryo.Engine.{DecompressingEngine, new_decompressing}
use cryo.Errors.{ok}
use cryo.Externals.{Compressors, Ciphers, Serializers}
use cryo.Format.{FileEntry}
use cryo.Reader.{ArchiveReader, build_block_ranges, extract_bytes}
use cryo.Reader.Slices.{stream, Stored, extract_bytes-stream}

-- A file whose offset and size cut `part` out of the stream of the stored blocks is extracted as
-- `part`.
pub extract_bytes-part :
    (L : Compressors) (S : Ciphers) (Z : Serializers) (r : ArchiveReader) (f : FileEntry)
    (engine : DecompressingEngine) (ps : List Bytes) (before part after : Bytes)
    → f.size ≤ get_or r.limits.file_size max_file_size
    → new_decompressing L r.header.compression ≡ ok engine
    → Stored L S Z r engine 0 r.index.block ps
    → stream ps ≡ before ++ (part ++ after)
    → length (stream ps) < u64_mod
    → f.stream_offset ≡ length before
    → f.size ≡ length part
    → extract_bytes L S Z r f (build_block_ranges r.index.block) ≡ ok part
extract_bytes-part L S Z r f engine ps before part after limit decompresses stored whole short
      offset size =
    extract_bytes-stream L S Z r f engine ps limit
      (omega
        (arith, ap length whole, length-append before (part ++ after), length-append part after))
      decompresses stored short
    ∙ ap ok (
        ap (λ (t : Bytes). take f.size (drop f.stream_offset t)) whole
        ∙ ap (take f.size) (drop-append_at f.stream_offset before (part ++ after) (sym offset))
        ∙ take-append_at f.size part after (sym size))
