-- ===== src/Create/Room.antt =====
-- Where the disk has room for the whole archive, the writer thread of src/compress.rs closes it.
use mathlib.Core.List.{Permᴰ}
use cryo.Base.{
  ℕ, ◌+◌, ◌%◌, ◌≤◌, ◌<◌, ◌≡◌, refl, ap, ◌∙◌, List, [], ◌∷◌, ◌++◌, map, arith, length, length-append,
  append_assoc,
}
use cryo.Base.Bytes.{Bytes, u32_mod, u64_mod}
use cryo.Compress.Queue.{write_block, writer, close}
use cryo.Compress.Queue.Drain.{write_blocks}
use cryo.Compress.Queue.Layout.{stored_bytes, entries, next, AreSmall, write_blocks-Written}
use cryo.Disk.{File}
use cryo.Disk.Laws.{IsAt, write_all-room, set_len-room}
use cryo.Errors.{ok}
use cryo.Externals.{Compressors, Ciphers, Serializers}
use cryo.Format.{index, FileEntry}
use cryo.Format.Footer.{Footer, serialize}
use cryo.Writer.{
  ProcessedBlock, block, finalize, ArchiveWriter, PackedIndex, pack_index, encrypt_own, store,
  footer_of, finish,
}
use cryo.Writer.Sealing.{encrypt_own-encrypt_block, encrypt_block-index}
use cryo.Codec.{encrypt_block}
use cryo.Compress.Queue.Order.{Numbered, writer-order}
use cryo.Writer.Finish.{final_index}
use cryo.Create.Stored.{closing, closed_full}

-- The blocks go to the disk where it has room for them.
write_blocks-room :
    (bs : List ProcessedBlock) (front : Bytes) (a : ArchiveWriter)
    → IsAt a.writer front
    → length front + length (stored_bytes bs) ≤ a.writer.room
    → (b : ArchiveWriter) × (write_blocks bs a ≡ ok b) × (b.writer.room ≡ a.writer.room)
unfolding write_blocks write_block
write_blocks-room [] front a at h = (a, refl, refl)
write_blocks-room (x ∷ bs) front a at h =
    let (w, e, at', r) =
      write_all-room x.processed_data at
        (omega (arith, length-append x.processed_data (stored_bytes bs))) in
    let (b, rest, same) = write_blocks-room bs (front ++ x.processed_data) (next x a w) at' (
      omega (
        arith,
        length-append front x.processed_data,
        length-append x.processed_data (stored_bytes bs),
        r,
      )) in
    (b, rw e rest, same ∙ r)

-- The end of the archive goes there too.
store-room :
    (a : ArchiveWriter) (sealed footer_bytes front : Bytes)
    → IsAt a.writer front
    → a.file_position ≡ length front
    → length front + length sealed + length footer_bytes < u64_mod
    → length front + length sealed + length footer_bytes ≤ a.writer.room
    → (u : File) × (store a sealed footer_bytes ≡ ok u)
      × (u.content ≡ front ++ (sealed ++ footer_bytes))
unfolding store
store-room a sealed footer_bytes front at pos fits room =
    let (w, e1, at1, r1) = write_all-room sealed at (omega arith) in
    let (v, e2, at2, r2) =
      write_all-room footer_bytes at1 (omega (arith, length-append front sealed, r1)) in
    let (u, e3, cut) =
      set_len-room ((a.file_position + length sealed + length footer_bytes) % u64_mod) at2
        (omega (arith, length-append (front ++ sealed) footer_bytes, length-append front sealed))
        (omega (arith, r1, r2)) in
    (u, rw e1 (rw e2 (rw e3 refl)), cut ∙ append_assoc front sealed footer_bytes)

-- The footer, and the whole file: header, blocks, sealed index and footer.
abbrev pub foot : Bytes → PackedIndex → Bytes → ℕ → Footer
foot nonce packed sealed offset = record {
  index_offset = offset;
  index_size_stored = length sealed % u32_mod;
  index_size_plain = packed.size_plain;
  index_compressed = packed.compressed;
  index_nonce = nonce;
}

abbrev pub archive_of : Bytes → Bytes → List ProcessedBlock → PackedIndex → Bytes → Bytes
archive_of nonce front bs packed sealed =
    (front ++ stored_bytes bs)
    ++ (sealed ++ serialize (foot nonce packed sealed (length (front ++ stored_bytes bs))))

-- The front is part of it.
pub length-archive_of :
    (nonce front : Bytes) (bs : List ProcessedBlock) (packed : PackedIndex) (sealed : Bytes)
    → length front + length (stored_bytes bs) ≤ length (archive_of nonce front bs packed sealed)
length-archive_of nonce front bs packed sealed = omega (
  arith,
  length-append (front ++ stored_bytes bs)
      (sealed ++ serialize (foot nonce packed sealed (length (front ++ stored_bytes bs)))),
  length-append front (stored_bytes bs),
)

module _ (L : Compressors) (S : Ciphers) (Z : Serializers) (nonce : Bytes) where
  finish-room :
      (a : ArchiveWriter) (front : Bytes) (packed : PackedIndex) (sealed : Bytes)
      → IsAt a.writer front
      → a.file_position ≡ length front
      → pack_index L Z a.header (final_index a) ≡ ok packed
      → encrypt_own S (record a { index = final_index a }) packed.bytes (index nonce) ≡ ok sealed
      → length (front ++ (sealed ++ serialize (footer_of nonce a packed sealed))) < u64_mod
      → length (front ++ (sealed ++ serialize (footer_of nonce a packed sealed))) ≤ a.writer.room
      → (b : ArchiveWriter) × (finish L S Z nonce a ≡ ok b)
        × (b.writer.content ≡ front ++ (sealed ++ serialize (footer_of nonce a packed sealed)))
  unfolding finish
  finish-room a front packed sealed at pos packing sealing fits room =
      let end = serialize (footer_of nonce a packed sealed) in
      let whole : length (front ++ (sealed ++ end)) ≡ length front + length sealed + length end =
        omega (arith, length-append front (sealed ++ end), length-append sealed end) in
      let (u, e, c) =
        store-room a sealed end front at pos (omega (arith, whole)) (omega (arith, whole)) in
      (record a { writer = u; index = final_index a }, rw packing (rw sealing (rw e refl)), c)

  -- The writer closes the archive where the disk has room for all of it.
  pub writer-room :
      (start : ArchiveWriter) (front : Bytes) (files : List FileEntry) (total : ℕ)
      (received bs : List ProcessedBlock) (packed : PackedIndex) (sealed : Bytes)
      → IsAt start.writer front
      → start.file_position ≡ length front
      → AreSmall bs
      → Numbered (length start.index.block) bs
      → length start.index.block + length bs < u64_mod
      → Permᴰ received bs
      → pack_index L Z start.header (record {
        files = files;
        block = start.index.block ++ entries (length front) bs;
        total_stream_size = total;
      })
        ≡ ok packed
      → encrypt_block S 0 packed.bytes (index nonce) start.header.archive_id start.cipher
        ≡ ok sealed
      → length (archive_of nonce front bs packed sealed) < u64_mod
      → length (archive_of nonce front bs packed sealed) ≤ start.writer.room
      → (b : ArchiveWriter) × (writer L S Z nonce
            (map block received ++ (finalize files total ∷ []))
            start
          ≡ ok b)
        × (b.writer.content ≡ archive_of nonce front bs packed sealed)
  writer-room start front files total received bs packed sealed at pos small numbered few perm
        packing sealing fits room =
      let whole = length-archive_of nonce front bs packed sealed in
      let (a, written, same_room) = write_blocks-room bs front start at (omega (arith, whole)) in
      let w = write_blocks-Written bs front start a at pos small (omega (arith, whole)) written in
      let blocks = start.index.block ++ entries (length front) bs in
      let last = closing start.header start.cipher a.writer a.file_position total (record {
        files = files;
        block = blocks;
        total_stream_size = start.index.total_stream_size;
      }) in
      let ended : (k : ℕ) → Bytes =
        λ k. (front ++ stored_bytes bs) ++ (sealed ++ serialize (foot nonce packed sealed k)) in
      let lengths = ap (λ (k : ℕ). length (ended k)) w.position in
      let own =
        (encrypt_own-encrypt_block S (record last { index = final_index last }) packed.bytes sealed
            (index nonce)).1
          (encrypt_block-index S (length blocks) 0 packed.bytes nonce start.header.archive_id
              start.cipher
            ∙ sealing) in
      let (b, done, content) =
        finish-room last (front ++ stored_bytes bs) packed sealed w.disk w.position packing own
          (omega (arith, lengths)) (omega (arith, lengths, same_room)) in
      let closed : close L S Z nonce files total a ≡ ok b =
        unfold close in
        ap (finish L S Z nonce)
          (closed_full start.header start.cipher start a front files total bs refl refl w)
        ∙ done in
      (
        b,
        writer-order L S Z nonce received bs files total start few numbered perm
            ∙ rw written closed,
        content ∙ ap ended w.position,
      )
