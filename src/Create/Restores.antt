-- ===== src/Create/Restores.antt =====
-- From the command's arguments to the files that come out of the archive.
use mathlib.Core.List.{Permᴰ}
use mathlib.Core.List.Permᴰ
use mathlib.Core.Option.{get_or}
use mathlib.Core.Path.{subst}
use cryo.Base.{
  ◌+◌, ◌≤◌, ◌<◌, ◌^◌, ◌≡◌, refl, sym, ap, ◌∙◌, Bool, some, List, [], ◌++◌, map, arith, length,
}
use cryo.Base.Bytes.{Bytes, u32_mod, u64_mod}
use cryo.Codec.{Cipher, Prompts, new_cipher}
use cryo.Compress.Chunks.{ReadState, InputEntry}
use cryo.Compress.Input.{read_inputs}
use cryo.Compress.Input.Whole.{AllRead}
use cryo.Compress.Queue.Layout.{stored_bytes}
use cryo.Compress.Queue.Order.{Numbered}
use cryo.Compress.Queue.Unique.{Numbered-unique}
use cryo.Compress.Workers.{start_pool, Reach, IsDone}
use cryo.Compress.Workers.Runs.{Reach-AreMade}
use cryo.Consts.{Limits, max_file_size}
use cryo.Create.{
  CompressArgs, System, input_at, Run, kept, choose_files, header_of, initialize_compression,
}
use cryo.Create.Outcome.{
  new_archive-Begun, initialize_compression-Completed, initialize_compression-starts,
}
use cryo.Create.Stored.{fresh, index_of, CanOpen, IsArchive, writer-IsArchive}
use cryo.Disk.{File, write_all}
use cryo.Disk.Laws.{IsAt, write_all-IsAt}
use cryo.Engine.{CompressingEngine, new_compressing}
use cryo.Errors.{ok}
use cryo.Externals.{Compressors, Ciphers, Serializers}
use cryo.Externals.Laws.{IsLossless, IsSealing, HasShortTag}
use cryo.FilePath.{FilePath}
use cryo.Format.{Header, FileEntry, new_header}
use cryo.Reader.Verify.{verify-Stored}
use cryo.Reader.{verify, ArchiveReader, new_reader, build_block_ranges, extract_bytes}
use cryo.Reader.Inputs.{at_most-Fit, sent, extract_bytes-read_inputs}
use cryo.Reader.Made.{AreMade-Numbered, length-AreMade, AreMade-AreSmall}
use cryo.Reader.Restore.{AreMade, AreMade-Stored, plain_of}
use cryo.Writer.{ArchiveWriter, new_archive, ProcessedBlock, header_part}

module _ (L : Compressors) (S : Ciphers) (Z : Serializers) (lossless : IsLossless L)
    (sealing : IsSealing S) (tag : HasShortTag S) where
  -- A reader who opens an archive whose blocks the workers have made gets its files out.
  opened-restores :
      (p out : FilePath) (limits : Limits) (confirm : Bool) (typed : Prompts) (h : Header)
      (c : Cipher) (header_bytes nonce : Bytes) (e : CompressingEngine) (root : FilePath)
      (inputs : List InputEntry) (es : List FileEntry) (t : ReadState) (bs : List ProcessedBlock)
      (content before part after : Bytes) (f : FileEntry)
      → (o : CanOpen L S Z p limits confirm typed h c header_bytes
          (index_of header_bytes es (length (before ++ (part ++ after))) bs)
          nonce)
      → new_compressing L h.compression h.compression_level ≡ ok e
      → 0 < h.block_size
      → h.block_size + 16 < u32_mod
      → AllRead root 0 inputs es (before ++ (part ++ after))
      → length (before ++ (part ++ after)) < u64_mod
      → read_inputs root h.block_size inputs ≡ some (ok tt, t)
      → AreMade L S Z c h.archive_id e t.sent bs
      → length (header_part header_bytes) + length (stored_bytes bs) < 2 ^ 62
      → IsArchive L S Z p limits confirm typed h c header_bytes
          (index_of header_bytes es (length (before ++ (part ++ after))) bs)
          (stored_bytes bs)
          content
      → f.stream_offset ≡ length before
      → f.size ≡ length part
      → f.size ≤ get_or limits.file_size max_file_size
      → (r : ArchiveReader) × (new_reader L S Z p out limits confirm typed content ≡ ok r)
        × (r.index.files ≡ es)
        × (verify L S Z p r ≡ ok tt)
        × (extract_bytes L S Z r f (build_block_ranges r.index.block) ≡ ok part)
  unfolding new_reader
  opened-restores p out limits confirm typed h c header_bytes nonce e root inputs es t bs content
        before part after f o starts pos fits all short read made room archive offset size limit =
      let r : ArchiveReader = record {
        root = out;
        path = p;
        content = content;
        index = index_of header_bytes es (length (before ++ (part ++ after))) bs;
        header = h;
        cipher = c;
        limits = limits;
      } in
      let whole =
        sent L S Z root h.block_size inputs es (before ++ (part ++ after)) t pos short all read in
      (
        r,
        rw archive.opens refl,
        refl,
        verify-Stored L S Z r o.engine (plain_of t.sent) o.engine_starts (
            AreMade-Stored L S Z r o.engine e h.compression_level lossless sealing tag starts
              o.engine_starts t.sent bs 0 (header_part header_bytes) archive.tail made
              (whole.numbered) (at_most-Fit L S Z h.block_size t.sent fits whole.at_most)
              archive.laid_out (omega arith)),
        extract_bytes-read_inputs L S Z r o.engine e h.compression_level lossless sealing tag starts
            o.engine_starts root inputs es t bs (header_part header_bytes) archive.tail before part
            after f pos fits all short read made archive.laid_out refl (omega arith) offset size
            limit,
      )

  -- What `new_archive` has begun in an empty file, where cipher and header are known.
  first_is :
      (args : CompressArgs) (run : Run) (c : Cipher) (header_bytes : Bytes) (a : ArchiveWriter)
      → ((file : File) → run.created ≡ some file → IsAt file [])
      → new_cipher S (header_of args run) args.confirm run.typed ≡ ok c
      → Z.header_to_vec (header_of args run) ≡ some header_bytes
      → new_archive S Z run.created (header_of args run) args.confirm run.typed ≡ ok a
      → (file : File) × IsAt file (header_part header_bytes)
        × (a ≡ fresh (header_of args run) c header_bytes file)
  first_is args run c header_bytes a empty keyed encodes opening =
      let g =
        new_archive-Begun S Z run.created (header_of args run) args.confirm run.typed a opening in
      let same_cipher : g.cipher ≡ c = cc (g.keyed, keyed) in
      let same_bytes : g.header_bytes ≡ header_bytes = cc (g.encodes, encodes) in
      (
        g.written,
        write_all-IsAt (header_part header_bytes) (empty g.file g.creating)
            (ap (λ (x : Bytes). write_all (header_part x) g.file) (sym same_bytes) ∙ g.writing),
        g.begun ∙ cc,
      )

  -- Let `initialize_compression` succeed and leave `content`, where the input can be read, the
  -- block size is not 0 and, with 16 more, below 2^32, the input has fewer than 2^64 bytes, a file
  -- that is created is empty, and the workers' run is one that `Step` allows and has come to its
  -- end. Then a reader who opens `content` under `CanOpen`'s conditions (the serializer reads
  -- header and index back, and both respect the reader's limits; the password gives the same key)
  -- finds exactly the input's entries, `verify` accepts the archive, and a file whose offset and
  -- size cut `part` out of the input's bytes, within the size limit, is extracted as exactly
  -- `part`. `bs` are the blocks that the workers sent, by their numbers, and lie below 2^62; the
  -- codec is lossless, and the cipher opens what it sealed with a tag of at most 16 bytes.
  pub initialize_compression-restores :
      (args : CompressArgs) (sys : System) (run : Run) (root : FilePath) (files : List FilePath)
      (p out : FilePath) (limits : Limits) (confirm : Bool) (typed : Prompts) (c : Cipher)
      (header_bytes : Bytes) (es : List FileEntry) (t : ReadState) (bs : List ProcessedBlock)
      (content before part after : Bytes) (f : FileEntry)
      → choose_files sys args ≡ some (ok (root, files))
      → 0 < args.bs
      → args.bs + 16 < u32_mod
      → AllRead root 0 (map (input_at sys) files) es (before ++ (part ++ after))
      → length (before ++ (part ++ after)) < u64_mod
      → read_inputs root args.bs (map (input_at sys) files) ≡ some (ok tt, t)
      → ((file : File) → run.created ≡ some file → IsAt file [])
      → new_cipher S (header_of args run) args.confirm run.typed ≡ ok c
      → Reach L S Z args.compression args.compression_level c run.archive_id
          (start_pool t.sent)
          (run.workers t.sent)
      → IsDone (run.workers t.sent)
      → Permᴰ (run.workers t.sent).sent bs
      → Numbered 0 bs
      → length (header_part header_bytes) + length (stored_bytes bs) < 2 ^ 62
      → Z.header_to_vec (header_of args run) ≡ some header_bytes
      → CanOpen L S Z p limits confirm typed
          (header_of args run)
          c
          header_bytes
          (index_of header_bytes es (length (before ++ (part ++ after))) bs)
          run.index_nonce
      → initialize_compression L S Z args sys run ≡ some (ok tt, kept content)
      → f.stream_offset ≡ length before
      → f.size ≡ length part
      → f.size ≤ get_or limits.file_size max_file_size
      → (r : ArchiveReader) × (new_reader L S Z p out limits confirm typed content ≡ ok r)
        × (r.index.files ≡ es)
        × (verify L S Z p r ≡ ok tt)
        × (extract_bytes L S Z r f (build_block_ranges r.index.block) ≡ ok part)
  unfolding new_header
  initialize_compression-restores args sys run root files p out limits confirm typed c header_bytes
        es t bs content before part after f chosen pos fits all short read empty keyed reach done
        perm numbered room encodes o e offset size limit =
      let d =
        initialize_compression-Completed L S Z args sys run root files (ok tt) t content chosen read
          e in
      let (engine, starts) = initialize_compression-starts L S Z args sys run content e in
      let stream = before ++ (part ++ after) in
      let whole =
        sent L S Z root args.bs (map (input_at sys) files) es stream t pos short all read in
      let positioned : t.stream_position ≡ length stream = omega (arith, whole.position) in
      let (made, made_of, in_order) =
        Reach-AreMade L S Z args.compression args.compression_level c run.archive_id engine starts
          t.sent reach done d.no_failure in
      let same : made ≡ bs =
        Numbered-unique 0 (Permᴰ.trans (Permᴰ.symm in_order) perm)
          (AreMade-Numbered L S Z 0 made_of whole.numbered) numbered in
      let bs_made = subst (AreMade L S Z c run.archive_id engine t.sent) same made_of in
      let (file, at, first) =
        first_is args run c header_bytes d.first empty keyed encodes d.opening in
      opened-restores p out limits confirm typed (header_of args run) c header_bytes run.index_nonce
        engine root (map (input_at sys) files) es t bs content before part after f o starts pos fits
        all short read bs_made room
        (subst
          (IsArchive L S Z p limits confirm typed (header_of args run) c header_bytes
            (index_of header_bytes es (length stream) bs) (stored_bytes bs))
          (sym d.left)
          (writer-IsArchive L S Z p limits lossless sealing tag confirm typed run.index_nonce
            (header_of args run) c header_bytes file es (length stream) (run.workers t.sent).sent bs
            d.last o at
            (AreMade-AreSmall L S Z tag args.bs bs_made
              (at_most-Fit L S Z args.bs t.sent fits whole.at_most))
            room numbered (omega (arith, length-AreMade L S Z bs_made, whole.few)) perm
            (cc (first, whole.listed, positioned, d.closing))))
        offset size limit
