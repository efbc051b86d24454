-- ===== src/Append/Restores.antt =====
-- After an append, every file of the archive is there, the old ones and the new ones.
use mathlib.Core.List.{Permᴰ}
use mathlib.Core.List.Permᴰ
use mathlib.Core.Option.{get_or}
use mathlib.Core.Path.{subst}
use cryo.Append.{
  AppendArgs, AppendRun, AppendEnd, choose_appended, resumed_state, join_append, append_file,
}
use cryo.Append.Extends.{extended, append_file-join, append_file-IsArchive}
use cryo.Base.{
  ℕ, ◌+◌, ◌≤◌, ◌<◌, ◌^◌, ◌≡◌, refl, sym, ap, ◌∙◌, Bool, some, List, ◌++◌, map, All, arith, length,
  append_assoc,
}
use cryo.Base.Bytes.{Bytes, u32_mod, u64_mod}
use cryo.Codec.{Prompts}
use cryo.Compress.Chunks.{ReadState}
use cryo.Compress.Input.{read_all, send_rest}
use cryo.Compress.Input.Whole.{AllRead, IsSent}
use cryo.Compress.Queue.Layout.{stored_bytes}
use cryo.Compress.Queue.Order.{Numbered}
use cryo.Compress.Queue.Unique.{Numbered-unique}
use cryo.Compress.Workers.{Reach, start_pool, IsDone}
use cryo.Compress.Workers.Runs.{Reach-AreMade}
use cryo.Consts.{Limits, default_limits, max_file_size}
use cryo.Create.{System, input_at, workers_result}
use cryo.Create.Stored.{CanOpen}
use cryo.Engine.{CompressingEngine, DecompressingEngine, new_compressing, new_decompressing}
use cryo.Errors.{ok, >>=-eq-ok}
use cryo.Externals.{Compressors, Ciphers, Serializers}
use cryo.Externals.Laws.{IsLossless, IsSealing, HasShortTag}
use cryo.FilePath.{FilePath}
use cryo.Format.{FileEntry}
use cryo.Loader.{FileStructs, retrieve}
use cryo.Reader.{ArchiveReader, new_reader, verify, build_block_ranges, extract_bytes}
use cryo.Reader.Grown.{EndsBy}
use cryo.Reader.Inputs.{at_most-Fit}
use cryo.Reader.Made.{AreMade-Numbered, AreMade-AreSmall, length-AreMade}
use cryo.Reader.Restore.{AreMade}
use cryo.Reader.Slices.{stream, Stored}
use cryo.Writer.{ProcessedBlock, ArchiveWriter, header_part}
use cryo.Append.Resumed.{reader_of, resumed-IsSent, opened_at, grown-restores}
use cryo.Create.Outcome.{workers_result-ok}

module _ (L : Compressors) (S : Ciphers) (Z : Serializers) (lossless : IsLossless L)
    (sealing : IsSealing S) (tag : HasShortTag S) (p out : FilePath) (limits : Limits)
    (engine : DecompressingEngine) (ce : CompressingEngine) where
  module _ (args : AppendArgs) (sys : System) (run : AppendRun) (content : Bytes) where
    -- The workers' blocks by their numbers, where their run has ended.
    workers-AreMade :
        (structs : FileStructs) (t : ReadState) (b : ArchiveWriter) (added : Bytes)
        (es : List FileEntry) (bs : List ProcessedBlock)
        → new_compressing L structs.header.compression structs.header.compression_level ≡ ok ce
        → IsSent
            (length structs.index.block)
            structs.index.total_stream_size
            structs.header.block_size
            added
            es
            t
        → join_append L S Z run content structs t ≡ ok b
        → Reach L S Z structs.header.compression structs.header.compression_level structs.cipher
            structs.header.archive_id
            (start_pool t.sent)
            (run.workers t.sent)
        → IsDone (run.workers t.sent)
        → Permᴰ (run.workers t.sent).sent bs
        → Numbered (length structs.index.block) bs
        → AreMade L S Z structs.cipher structs.header.archive_id ce t.sent bs
    unfolding join_append
    workers-AreMade structs t b added es bs compresses whole joined reach done perm numbered =
        let (_, fine, _) = >>=-eq-ok (workers_result (run.workers t.sent).failures) _ joined in
        let (made, made_of, in_order) =
          Reach-AreMade L S Z structs.header.compression structs.header.compression_level
            structs.cipher structs.header.archive_id ce compresses t.sent reach done
            (workers_result-ok _ fine) in
        let same : made ≡ bs =
          Numbered-unique (length structs.index.block) (Permᴰ.trans (Permᴰ.symm in_order) perm)
            (AreMade-Numbered L S Z (length structs.index.block) made_of whole.numbered) numbered in
        subst (AreMade L S Z structs.cipher structs.header.archive_id ce t.sent) same made_of

    -- Let `append_file` succeed on an archive whose blocks lie behind its header and in front of
    -- its index, read back as the bytes `ps`, and make up its stream; let the new entries be
    -- readable with the bytes `added`, and let the workers' run be one that `Step` allows and has
    -- come to its end. Then a reader who opens the archive under `CanOpen`'s conditions finds the
    -- old entries and behind them the new ones, `verify` accepts it, and a file, old or new, whose
    -- offset and size cut `part` out of the old stream with the new bytes behind it, within the
    -- size limit, is extracted as exactly `part`. The block size is not 0 and, with 16 more, below
    -- 2^32; the stream and the blocks' numbers stay below 2^64, and the blocks `bs` that the workers
    -- sent end below 2^62; the codec is lossless, and the cipher opens what it sealed with a tag of
    -- at most 16 bytes.
    pub append_file-restores :
        (e : AppendEnd) (structs : FileStructs) (root : FilePath) (paths : List FilePath)
        (t : ReadState) (confirm : Bool) (typed : Prompts) (header_bytes old rest : Bytes)
        (ps : List Bytes) (es : List FileEntry) (added : Bytes) (bs : List ProcessedBlock)
        (before part after : Bytes) (f : FileEntry)
        → append_file L S Z args sys run content ≡ some e
        → e.result ≡ ok tt
        → retrieve L S Z args.archive_path default_limits args.confirm run.typed content
          ≡ ok structs
        → content ≡ header_part header_bytes ++ (old ++ rest)
        → structs.footer.index_offset ≡ length (header_part header_bytes ++ old)
        → All (EndsBy structs.footer.index_offset) structs.index.block
        → new_compressing L structs.header.compression structs.header.compression_level ≡ ok ce
        → new_decompressing L structs.header.compression ≡ ok engine
        → Stored L S Z (reader_of p out limits content structs) engine 0 structs.index.block ps
        → structs.index.total_stream_size ≡ length (stream ps)
        → 0 < structs.header.block_size
        → structs.header.block_size + 16 < u32_mod
        → choose_appended sys args.file_to_append structs.index.files ≡ some (ok (root, paths))
        → AllRead root structs.index.total_stream_size (map (input_at sys) paths) es added
        → length structs.index.block + length added < u64_mod
        → length (stream ps) + length added < u64_mod
        → read_all root structs.header.block_size (map (input_at sys) paths) (resumed_state structs)
          ≡ some (ok tt, t)
        → Reach L S Z structs.header.compression structs.header.compression_level structs.cipher
            structs.header.archive_id
            (start_pool (send_rest (ok tt) t).sent)
            (run.workers (send_rest (ok tt) t).sent)
        → IsDone (run.workers (send_rest (ok tt) t).sent)
        → Permᴰ (run.workers (send_rest (ok tt) t).sent).sent bs
        → Numbered (length structs.index.block) bs
        → structs.footer.index_offset + length (stored_bytes bs) < 2 ^ 62
        → CanOpen L S Z p limits confirm typed structs.header structs.cipher header_bytes
            (extended structs t structs.footer.index_offset bs)
            run.index_nonce
        → stream ps ++ added ≡ before ++ (part ++ after)
        → f.stream_offset ≡ length before
        → f.size ≡ length part
        → f.size ≤ get_or limits.file_size max_file_size
        → (r : ArchiveReader) × (new_reader L S Z p out limits confirm typed e.archive ≡ ok r)
          × (r.index.files ≡ structs.index.files ++ es)
          × (verify L S Z p r ≡ ok tt)
          × (extract_bytes L S Z r f (build_block_ranges r.index.block) ≡ ok part)
    unfolding new_reader
    append_file-restores e structs root paths t confirm typed header_bytes old rest ps es added bs
          before part after f h good opens laid_out offset_at inside compresses decompresses stored
          total pos fits chosen all few short reading reach done perm numbered room o joined offset
          size limit =
        let sent = send_rest (ok tt) t in
        let front = header_part header_bytes ++ old in
        let whole =
          resumed-IsSent structs root sys paths es added t pos all few (omega arith) reading in
        let (b, closing, _) =
          append_file-join L S Z args sys run content e structs root paths t h good opens chosen
            reading in
        let made =
          workers-AreMade structs sent b added (structs.index.files ++ es) bs compresses whole
            closing reach done perm numbered in
        let raws_fit = at_most-Fit L S Z structs.header.block_size sent.sent fits whole.at_most in
        let archive =
          append_file-IsArchive L S Z args sys run content lossless sealing tag e structs root paths
            t p limits confirm typed header_bytes old rest bs h good opens laid_out offset_at chosen
            reading perm numbered
            (AreMade-AreSmall L S Z tag structs.header.block_size made raws_fit)
            (omega (arith, length-AreMade L S Z made, whole.few)) room o in
        let (verified, extracted) =
          subst
            (λ (k : ℕ).
              (verify L S Z p (
                  opened_at L S Z lossless sealing tag p out limits engine ce structs t e.archive bs
                    k)
                ≡ ok tt)
              × (extract_bytes L S Z
                    (opened_at L S Z lossless sealing tag p out limits engine ce structs t e.archive
                      bs k)
                    f
                    (build_block_ranges
                      (opened_at L S Z lossless sealing tag p out limits engine ce structs t
                        e.archive bs k).index.block)
                  ≡ ok part))
            (sym offset_at)
            (grown-restores L S Z lossless sealing tag p out limits engine ce structs front rest
              archive.tail content e.archive ps t added (structs.index.files ++ es) bs before part
              after f compresses decompresses fits
              (laid_out ∙ sym (append_assoc (header_part header_bytes) old rest))
              (archive.laid_out
                ∙ ap (λ (x : Bytes). header_part header_bytes ++ x)
                    (append_assoc old (stored_bytes bs) archive.tail)
                ∙ sym
                    (append_assoc (header_part header_bytes) old (stored_bytes bs ++ archive.tail)))
              (omega (arith, offset_at))
              (subst (λ (n : ℕ). All (EndsBy n) structs.index.block) offset_at inside) stored whole
              made joined short offset size limit) in
        (
          opened_at L S Z lossless sealing tag p out limits engine ce structs t e.archive bs
              structs.footer.index_offset,
          rw archive.opens refl,
          whole.listed,
          verified,
          extracted,
        )
