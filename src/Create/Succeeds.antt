-- ===== src/Create/Succeeds.antt =====
-- src/compress.rs, `initialize_compression`, where nothing stands in its way.
use mathlib.Core.List.{Permᴰ}
use mathlib.Core.List.Permᴰ
use mathlib.Core.Path.{subst}
use cryo.Base.{
  Bool, ◌+◌, ◌≤◌, ◌<◌, ◌≡◌, refl, ap, ◌∙◌, some, List, [], ◌∷◌, ◌++◌, map, arith, length,
}
use cryo.Base.Bytes.{Bytes, u32_mod, u64_mod}
use cryo.Codec.{Cipher, new_cipher, encrypt_block}
use cryo.Compress.Chunks.{ReadState}
use cryo.Compress.Input.{read_inputs}
use cryo.Compress.Input.Whole.{AllRead}
use cryo.Compress.Queue.{writer}
use cryo.Compress.Queue.Order.{Numbered}
use cryo.Compress.Queue.Unique.{Numbered-unique}
use cryo.Compress.Workers.{Pool, start_pool, Reach, IsDone}
use cryo.Compress.Workers.Runs.{Reach-AreMade}
use cryo.Create.{
  CompressArgs, System, input_at, Run, kept, choose_files, header_of, check_args, join_writer,
  join_threads, conclude, initialize_compression,
}
use cryo.Create.Outcome.{
  compress_files-conclude, initialize_compression-good, check_args-starts, receive-closes,
}
use cryo.Create.Room.{archive_of, length-archive_of, writer-room}
use cryo.Create.Stored.{fresh, index_of}
use cryo.Disk.{File}
use cryo.Disk.Laws.{IsAt, write_all-room}
use cryo.Errors.{Result, ok}
use cryo.Externals.{Compressors, Ciphers, Serializers}
use cryo.Externals.Laws.{HasShortTag}
use cryo.FilePath.{FilePath}
use cryo.Format.{index, Header, FileEntry, new_header}
use cryo.Reader.Inputs.{at_most-Fit, sent}
use cryo.Reader.Made.{AreMade-Numbered, length-AreMade, AreMade-AreSmall}
use cryo.Reader.Restore.{AreMade}
use cryo.Writer.{
  ProcessedBlock, block, finalize, ArchiveWriter, PackedIndex, pack_index, new_archive, header_part,
}

module _ (L : Compressors) (S : Ciphers) (Z : Serializers) where
  -- The messages before the last are taken where all are.
  join_threads-closes :
      (run : Run) (pool : Pool) (t : ReadState) (a b : ArchiveWriter)
      → pool.failures ≡ []
      → writer L S Z run.index_nonce
          (map block pool.sent ++ (finalize t.files t.stream_position ∷ []))
          a
        ≡ ok b
      → join_threads L S Z run pool (ok tt) t a ≡ ok b
  unfolding join_threads join_writer writer
  join_threads-closes run pool t a b none_failed closing =
      let (c, taken, _) =
        receive-closes L S Z run.index_nonce pool.sent t.files t.stream_position _ b closing in
      rw (none_failed, join_threads) (rw (taken, join_writer) closing)

  new_archive-room :
      (run : Run) (h : Header) (confirm : Bool) (c : Cipher) (file : File) (header_bytes : Bytes)
      → new_cipher S h confirm run.typed ≡ ok c
      → run.created ≡ some file
      → Z.header_to_vec h ≡ some header_bytes
      → IsAt file []
      → length (header_part header_bytes) ≤ file.room
      → (w : File) × (new_archive S Z run.created h confirm run.typed
          ≡ ok (fresh h c header_bytes w))
        × IsAt w (header_part header_bytes)
        × (w.room ≡ file.room)
  unfolding new_archive
  new_archive-room run h confirm c file header_bytes keyed created encodes empty room =
      let (w, e, at, same) = write_all-room (header_part header_bytes) empty (omega arith) in
      (w, rw keyed (rw created (rw encodes (rw e refl))), at, same)

  -- The threads are started and joined, and the archive is kept.
  compress-joined :
      (args : CompressArgs) (sys : System) (run : Run) (root : FilePath) (files : List FilePath)
      (t : ReadState) (a b : ArchiveWriter)
      → check_args L S Z sys args ≡ ok tt
      → choose_files sys args ≡ some (ok (root, files))
      → read_inputs root args.bs (map (input_at sys) files) ≡ some (ok tt, t)
      → new_archive S Z run.created (header_of args run) args.confirm run.typed ≡ ok a
      → (run.workers t.sent).failures ≡ []
      → writer L S Z run.index_nonce
          (map block (run.workers t.sent).sent ++ (finalize t.files t.stream_position ∷ []))
          a
        ≡ ok b
      → initialize_compression L S Z args sys run ≡ some (ok tt, kept b.writer.content)
  compress-joined args sys run root files t a b good chosen read opening none_failed closing =
      initialize_compression-good L S Z args sys run (some (ok (root, files))) good chosen
      ∙ compress_files-conclude L S Z args sys run root files (ok tt) t a read opening
      ∙ ap (λ (r : Result ArchiveWriter). some (conclude run r))
          (join_threads-closes run (run.workers t.sent) t a b none_failed closing)

  -- Let the arguments be accepted, the input be chosen and be readable, the block size be not 0
  -- and, with 16 more, below 2^32, the input have fewer than 2^64 bytes, the password give a key,
  -- the file be created empty, header and index be encoded and the index be sealed, the workers'
  -- run be one that `Step` allows and have come to its end without a failure, and the disk have
  -- room for the archive, which is shorter than 2^64. Then `initialize_compression` succeeds, and
  -- what it leaves is exactly the header, the blocks that the workers sent by their numbers
  -- (`bs`), the sealed index of the input's entries and these blocks, and the footer that says
  -- where the index begins. The cipher's tag has at most 16 bytes.
  pub initialize_compression-succeeds :
      HasShortTag S
      → (args : CompressArgs) (sys : System) (run : Run) (root : FilePath) (files : List FilePath)
        (c : Cipher) (header_bytes : Bytes) (es : List FileEntry) (stream : Bytes) (t : ReadState)
        (bs : List ProcessedBlock) (file : File) (packed : PackedIndex) (sealed : Bytes)
      → check_args L S Z sys args ≡ ok tt
      → choose_files sys args ≡ some (ok (root, files))
      → 0 < args.bs
      → args.bs + 16 < u32_mod
      → AllRead root 0 (map (input_at sys) files) es stream
      → length stream < u64_mod
      → read_inputs root args.bs (map (input_at sys) files) ≡ some (ok tt, t)
      → new_cipher S (header_of args run) args.confirm run.typed ≡ ok c
      → run.created ≡ some file
      → IsAt file []
      → Z.header_to_vec (header_of args run) ≡ some header_bytes
      → Reach L S Z args.compression args.compression_level c run.archive_id
          (start_pool t.sent)
          (run.workers t.sent)
      → IsDone (run.workers t.sent)
      → (run.workers t.sent).failures ≡ []
      → Permᴰ (run.workers t.sent).sent bs
      → Numbered 0 bs
      → pack_index L Z (header_of args run) (index_of header_bytes es (length stream) bs)
        ≡ ok packed
      → encrypt_block S 0 packed.bytes (index run.index_nonce) run.archive_id c ≡ ok sealed
      → length (archive_of run.index_nonce (header_part header_bytes) bs packed sealed) < u64_mod
      → length (archive_of run.index_nonce (header_part header_bytes) bs packed sealed) ≤ file.room
      → initialize_compression L S Z args sys run
        ≡ some
            (ok tt, kept (archive_of run.index_nonce (header_part header_bytes) bs packed sealed))
  unfolding new_header
  initialize_compression-succeeds tag args sys run root files c header_bytes es stream t bs file
        packed sealed good chosen pos fits all short read keyed created empty encodes reach done
        none_failed perm numbered packing sealing below room =
      let whole =
        sent L S Z root args.bs (map (input_at sys) files) es stream t pos short all read in
      let positioned : t.stream_position ≡ length stream = omega (arith, whole.position) in
      let (engine, starts) = check_args-starts L S Z sys args good in
      let (made, made_of, in_order) =
        Reach-AreMade L S Z args.compression args.compression_level c run.archive_id engine starts
          t.sent reach done none_failed in
      let same : made ≡ bs =
        Numbered-unique 0 (Permᴰ.trans (Permᴰ.symm in_order) perm)
          (AreMade-Numbered L S Z 0 made_of whole.numbered) numbered in
      let bs_made = subst (AreMade L S Z c run.archive_id engine t.sent) same made_of in
      let (w, opening, at, same_room) =
        new_archive-room run (header_of args run) args.confirm c file header_bytes keyed created
          encodes empty
          (omega (
            arith,
            length-archive_of run.index_nonce (header_part header_bytes) bs packed sealed,
          )) in
      let (b, closing, content) =
        writer-room L S Z run.index_nonce (fresh (header_of args run) c header_bytes w)
          (header_part header_bytes) es (length stream) (run.workers t.sent).sent bs packed sealed
          at refl
          (AreMade-AreSmall L S Z tag args.bs bs_made
            (at_most-Fit L S Z args.bs t.sent fits whole.at_most))
          numbered (omega (arith, length-AreMade L S Z bs_made, whole.few)) perm packing sealing
          below (omega (arith, same_room)) in
      compress-joined args sys run root files t (fresh (header_of args run) c header_bytes w) b good
        chosen read opening none_failed (cc (whole.listed, positioned, closing))
      ∙ ap (λ (x : Bytes). some (ok tt, kept x)) content
