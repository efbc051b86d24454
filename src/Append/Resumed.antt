-- ===== src/Append/Resumed.antt =====
-- An archive that an append has made longer, and what a reader finds in it.
use mathlib.Core.Option.{get_or}
use mathlib.Core.Path.{subst}
use cryo.Append.{resumed_state}
use cryo.Append.Extends.{extended}
use cryo.Base.{
  ℕ, ◌+◌, ◌≤◌, ◌<◌, ◌^◌, ◌≡◌, refl, ap, ◌∙◌, some, List, [], ◌++◌, map, All, arith, length,
  length-append,
}
use cryo.Base.Bytes.{Bytes, u32_mod, u64_mod}
use cryo.Compress.Chunks.{ReadState}
use cryo.Compress.Input.{read_all, send_rest}
use cryo.Compress.Input.Whole.{AllRead, IsSent, read_all-AllRead, send_rest-IsSent}
use cryo.Compress.Queue.Layout.{stored_bytes, entries}
use cryo.Consts.{Limits, max_file_size}
use cryo.Create.{System, input_at}
use cryo.Engine.{CompressingEngine, DecompressingEngine, new_compressing, new_decompressing}
use cryo.Errors.{ok}
use cryo.Externals.{Compressors, Ciphers, Serializers}
use cryo.Externals.Laws.{IsLossless, IsSealing, HasShortTag}
use cryo.FilePath.{FilePath}
use cryo.Format.{FileEntry}
use cryo.Loader.{FileStructs}
use cryo.Reader.{ArchiveReader, verify, build_block_ranges, extract_bytes}
use cryo.Reader.Grown.{EndsBy, Stored-grown, Stored-append, stream-append}
use cryo.Reader.Inputs.{at_most-Fit}
use cryo.Reader.Parts.{extract_bytes-part}
use cryo.Reader.Restore.{AreMade, AreMade-Stored, plain_of, stream-plain_of}
use cryo.Reader.Slices.{stream, Stored}
use cryo.Reader.Verify.{verify-Stored}
use cryo.Writer.{ProcessedBlock}

-- A reader of the archive before the append.
abbrev pub reader_of : FilePath → FilePath → Limits → Bytes → FileStructs → ArchiveReader
reader_of p out limits content structs = record {
  root = out;
  path = p;
  content = content;
  index = structs.index;
  header = structs.header;
  cipher = structs.cipher;
  limits = limits;
}

-- What reading on behind an archive's stream sends.
pub resumed-IsSent :
    (structs : FileStructs) (root : FilePath) (sys : System) (paths : List FilePath)
    (es : List FileEntry) (added : Bytes) (t : ReadState)
    → 0 < structs.header.block_size
    → AllRead root structs.index.total_stream_size (map (input_at sys) paths) es added
    → length structs.index.block + length added < u64_mod
    → structs.index.total_stream_size + length added < u64_mod
    → read_all root structs.header.block_size (map (input_at sys) paths) (resumed_state structs)
      ≡ some (ok tt, t)
    → IsSent
        (length structs.index.block)
        structs.index.total_stream_size
        structs.header.block_size
        added
        (structs.index.files ++ es)
        (send_rest (ok tt) t)
resumed-IsSent structs root sys paths es added t pos all few short reading =
    let first = length structs.index.block in
    let base = structs.index.total_stream_size in
    let size = structs.header.block_size in
    let done =
      read_all-AllRead first base root size pos base (map (input_at sys) paths) es added []
        (resumed_state structs) (omega arith) all (omega arith) (omega arith)
        (record {
          chunked = record { joined = refl; full = tt; numbered = tt; next = omega arith };
          position = omega arith;
          short = pos;
        }) in
    let same : done.state ≡ t = cc (done.returned, reading) in
    subst
      (λ (x : ReadState).
        IsSent first base size added (structs.index.files ++ es) (send_rest (ok tt) x))
      same
      (subst (λ (l : List FileEntry). IsSent first base size added l (send_rest (ok tt) done.state))
        done.listed (send_rest-IsSent first base size added done.state done.reading))

module _ (L : Compressors) (S : Ciphers) (Z : Serializers) (lossless : IsLossless L)
    (sealing : IsSealing S) (tag : HasShortTag S) (p out : FilePath) (limits : Limits)
    (engine : DecompressingEngine) (ce : CompressingEngine) where
  -- A reader of the archive behind the append.
  abbrev pub opened_at : FileStructs → ReadState → Bytes → List ProcessedBlock → ℕ → ArchiveReader
  opened_at structs t content bs k = record (reader_of p out limits content structs) {
    index = extended structs t k bs;
  }

  -- A reader of a grown archive finds the blocks of both parts.
  pub grown-restores :
      (structs : FileStructs) (front rest tail content left : Bytes) (ps : List Bytes)
      (t : ReadState) (added : Bytes) (es : List FileEntry) (bs : List ProcessedBlock)
      (before part after : Bytes) (f : FileEntry)
      → new_compressing L structs.header.compression structs.header.compression_level ≡ ok ce
      → new_decompressing L structs.header.compression ≡ ok engine
      → structs.header.block_size + 16 < u32_mod
      → content ≡ front ++ rest
      → left ≡ front ++ (stored_bytes bs ++ tail)
      → length front + length (stored_bytes bs) < 2 ^ 63
      → All (EndsBy (length front)) structs.index.block
      → Stored L S Z (reader_of p out limits content structs) engine 0 structs.index.block ps
      → IsSent
          (length structs.index.block)
          structs.index.total_stream_size
          structs.header.block_size
          added
          es
          (send_rest (ok tt) t)
      → AreMade L S Z structs.cipher structs.header.archive_id ce (send_rest (ok tt) t).sent bs
      → stream ps ++ added ≡ before ++ (part ++ after)
      → length (stream ps) + length added < u64_mod
      → f.stream_offset ≡ length before
      → f.size ≡ length part
      → f.size ≤ get_or limits.file_size max_file_size
      → (verify L S Z p (opened_at structs t left bs (length front)) ≡ ok tt)
        × (extract_bytes L S Z
              (opened_at structs t left bs (length front))
              f
              (build_block_ranges (opened_at structs t left bs (length front)).index.block)
            ≡ ok part)
  grown-restores structs front rest tail content left ps t added es bs before part after f
        compresses decompresses fits laid_out leaves room inside stored whole made joined short
        offset size limit =
      let r = opened_at structs t left bs (length front) in
      let raws = (send_rest (ok tt) t).sent in
      let old_blocks =
        Stored-grown L S Z (reader_of p out limits content structs) engine left r.index front rest
          (stored_bytes bs ++ tail) laid_out leaves 0 structs.index.block ps inside stored in
      let new_blocks =
        AreMade-Stored L S Z r engine ce structs.header.compression_level lossless sealing tag
          compresses decompresses raws bs (length structs.index.block) front tail made
          (whole.numbered) (at_most-Fit L S Z structs.header.block_size raws fits whole.at_most)
          leaves room in
      let all_blocks =
        Stored-append L S Z r engine 0 structs.index.block (entries (length front) bs) ps
          (plain_of raws) old_blocks
          (subst (λ (n : ℕ). Stored L S Z r engine n (entries (length front) bs) (plain_of raws))
            (omega arith) new_blocks) in
      let all_bytes : stream (ps ++ plain_of raws) ≡ stream ps ++ added =
        stream-append ps (plain_of raws)
        ∙ ap (λ (x : Bytes). stream ps ++ x) (stream-plain_of raws ∙ whole.whole) in
      (
        verify-Stored L S Z r engine (ps ++ plain_of raws) decompresses all_blocks,
        extract_bytes-part L S Z r f engine (ps ++ plain_of raws) before part after limit
            decompresses all_blocks (all_bytes ∙ joined)
            (omega (arith, ap length all_bytes, length-append (stream ps) added)) offset size,
      )
