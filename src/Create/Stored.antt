-- ===== src/Create/Stored.antt =====
-- A fresh archive, the blocks of the workers in any order, and the end: what stands on the disk, and
-- what a reader finds there.
use mathlib.Core.List.{Permᴰ}
use mathlib.Core.Option.{get_or}
use mathlib.Core.Path.{subst}
use cryo.Base.{
  ℕ, ◌+◌, ◌≤◌, ◌<◌, ◌^◌, ◌≡◌, refl, sym, ap, ◌∙◌, Bool, some, List, [], ◌∷◌, ◌++◌, map, arith,
  length, length-append, append_assoc, append-nil,
}
use cryo.Base.Bytes.{Bytes, u32_mod, u64_mod}
use cryo.Codec.{Cipher, Prompts, new_cipher}
use cryo.Compress.Queue.{close, writer}
use cryo.Compress.Queue.Drain.{write_blocks}
use cryo.Compress.Queue.Layout.{stored_bytes, entries, AreSmall, Written, write_blocks-Written}
use cryo.Compress.Queue.Order.{Numbered, writer-order}
use cryo.Consts.{Limits, max_header_size, max_index_size}
use cryo.Disk.{File}
use cryo.Disk.Laws.{IsAt}
use cryo.Engine.{DecompressingEngine, new_decompressing}
use cryo.Errors.{ok, >>=-eq-ok}
use cryo.Externals.{Compressors, Ciphers, Serializers}
use cryo.Externals.Laws.{IsLossless, IsSealing, HasShortTag}
use cryo.FilePath.{FilePath}
use cryo.Format.{Header, Index, FileEntry}
use cryo.Format.Footer.{Footer, serialize}
use cryo.Loader.{retrieve}
use cryo.Loader.Reopen.{CanReopen, retrieve-finish, finished-content, foot}
use cryo.Loader.RoundTrip.{IsAcceptable}
use cryo.Writer.{ProcessedBlock, block, finalize, ArchiveWriter, empty_index, header_part, finish}
use cryo.Writer.Finish.{finish-Finished}

-- What a new archive is: its header on the disk and nothing else.
abbrev pub fresh : Header → Cipher → Bytes → File → ArchiveWriter
fresh h c header_bytes file = record {
  writer = file;
  index = empty_index;
  stream_position = 0;
  file_position = length (header_part header_bytes);
  cipher = c;
  header = h;
}

-- The index of an archive whose blocks lie behind its header.
abbrev pub index_of : Bytes → List FileEntry → ℕ → List ProcessedBlock → Index
index_of header_bytes files total bs = record {
  files = files;
  block = entries (length (header_part header_bytes)) bs;
  total_stream_size = total;
}

module _ (h : Header) (c : Cipher) where
  -- The archive that the writer closes.
  abbrev pub closing : File → ℕ → ℕ → Index → ArchiveWriter
  closing file pos total idx = record {
    writer = file;
    index = idx;
    stream_position = total;
    file_position = pos;
    cipher = c;
    header = h;
  }

  -- The archive whose blocks `close` finishes, whatever stands in the fields that it overwrites.
  pub closed_full :
      (start a : ArchiveWriter) (front : Bytes) (files : List FileEntry) (total : ℕ)
      (bs : List ProcessedBlock)
      → start.header ≡ h
      → start.cipher ≡ c
      → Written front bs start a
      → record a { index = record a.index { files = files }; stream_position = total }
        ≡ closing a.writer a.file_position total (record {
          files = files;
          block = start.index.block ++ entries (length front) bs;
          total_stream_size = start.index.total_stream_size;
        })
  closed_full start a front files total bs eh ec w =
      ap
        (λ (x : ArchiveWriter). record x {
          index = record x.index { files = files };
          stream_position = total;
        })
        w.rest
      ∙ ap
          (λ (x : Index). record start {
            writer = a.writer;
            index = record x { files = files };
            file_position = a.file_position;
            stream_position = total;
          })
          w.index
      ∙ cc (eh, ec)

module _ (L : Compressors) (S : Ciphers) (Z : Serializers) (p : FilePath) (limits : Limits) where
  -- What the one who opens an archive must bring, for this header and this index.
  pub record CanOpen (confirm : Bool) (typed : Prompts) (h : Header) (c : Cipher)
      (header_bytes : Bytes) (idx : Index) (nonce : Bytes) : Type 0 where
    pub index_bytes : Bytes
    pub engine : DecompressingEngine
    pub header_decodes : Z.header_from_slice header_bytes ≡ some h
    pub header_small : length header_bytes < u32_mod
    pub header_fits : length header_bytes ≤ get_or limits.header_size max_header_size
    pub acceptable : IsAcceptable L S Z p limits h
    pub same_key : new_cipher S h confirm typed ≡ ok c
    pub engine_starts : new_decompressing L h.compression ≡ ok engine
    pub index_encodes : Z.index_to_vec idx ≡ some index_bytes
    pub index_decodes : Z.index_from_slice index_bytes ≡ some idx
    pub index_small : length index_bytes + 16 < u32_mod
    pub index_fits : length index_bytes + 16 ≤ get_or limits.index_size max_index_size
    pub nonce_fits : length nonce ≡ 12

  -- What a reader finds in the file.
  pub record IsArchive (confirm : Bool) (typed : Prompts) (h : Header) (c : Cipher)
      (header_bytes : Bytes) (idx : Index) (body content : Bytes) : Type 0 where
    pub tail : Bytes
    pub laid_out : content ≡ header_part header_bytes ++ (body ++ tail)
    pub footer : Footer
    pub opens :
        retrieve L S Z p limits confirm typed content
        ≡ ok (record { header = h; index = idx; cipher = c; footer = footer })

  module _ (lossless : IsLossless L) (sealing : IsSealing S) (tag : HasShortTag S) (confirm : Bool)
      (typed : Prompts) (nonce : Bytes) (h : Header) (c : Cipher) (header_bytes : Bytes) where
    -- An archive that is closed behind its blocks is there for a reader.
    pub closed-IsArchive :
        (file : File) (pos total : ℕ) (idx : Index) (body : Bytes) (b : ArchiveWriter)
        → CanOpen confirm typed h c header_bytes (record idx { total_stream_size = total }) nonce
        → IsAt file (header_part header_bytes ++ body)
        → pos ≡ length (header_part header_bytes ++ body)
        → pos < 2 ^ 62
        → finish L S Z nonce (closing h c file pos total idx) ≡ ok b
        → IsArchive confirm typed h c header_bytes
            (record idx { total_stream_size = total })
            body
            b.writer.content
    closed-IsArchive file pos total idx body b o at e small done =
        let a = closing h c file pos total idx in
        let r : CanReopen L S Z p limits confirm typed a nonce = record {
          header_bytes = header_bytes;
          body = body;
          index_bytes = o.index_bytes;
          engine = o.engine;
          front = at;
          position = e;
          position_small = small;
          header_decodes = o.header_decodes;
          header_small = o.header_small;
          header_fits = o.header_fits;
          acceptable = o.acceptable;
          same_key = o.same_key;
          engine_starts = o.engine_starts;
          index_encodes = o.index_encodes;
          index_decodes = o.index_decodes;
          index_small = o.index_small;
          index_fits = o.index_fits;
          nonce_fits = o.nonce_fits;
        } in
        let f = finish-Finished L S Z nonce a b done in
        let (footer, opened, _) =
          retrieve-finish L S Z p limits lossless sealing tag confirm typed nonce a b r done in
        record {
          tail =
              f.sealed
              ++ serialize (foot L S Z p limits lossless sealing tag confirm typed nonce a b r f);
          laid_out =
              finished-content L S Z p limits lossless sealing tag confirm typed nonce a b r f
              ∙ append_assoc (header_part header_bytes) body _;
          footer = footer;
          opens = opened;
        }

    -- Blocks written behind a front and closed: the front is still there, the blocks are behind it,
    -- and the index has gained their entries.
    pub resumed-IsArchive :
        (start : ArchiveWriter) (front old : Bytes) (files : List FileEntry) (total : ℕ)
        (received bs : List ProcessedBlock) (b : ArchiveWriter)
        → front ≡ header_part header_bytes ++ old
        → start.header ≡ h
        → start.cipher ≡ c
        → CanOpen confirm typed h c header_bytes
            (record {
              files = files;
              block = start.index.block ++ entries (length front) bs;
              total_stream_size = total;
            })
            nonce
        → IsAt start.writer front
        → start.file_position ≡ length front
        → AreSmall bs
        → length front + length (stored_bytes bs) < 2 ^ 62
        → length start.index.block + length bs < u64_mod
        → Numbered (length start.index.block) bs
        → Permᴰ received bs
        → writer L S Z nonce (map block received ++ (finalize files total ∷ [])) start ≡ ok b
        → IsArchive confirm typed h c header_bytes
            (record {
              files = files;
              block = start.index.block ++ entries (length front) bs;
              total_stream_size = total;
            })
            (old ++ stored_bytes bs)
            b.writer.content
    resumed-IsArchive start front old files total received bs b ef eh ec o at pos small room few
          numbered perm e =
        let (a, e1, e2) =
          >>=-eq-ok (write_blocks bs start) _
            (sym (writer-order L S Z nonce received bs files total start few numbered perm) ∙ e) in
        let w = write_blocks-Written bs front start a at pos small (omega arith) e1 in
        let regroup =
          ap (λ (x : Bytes). x ++ stored_bytes bs) ef
          ∙ append_assoc (header_part header_bytes) old (stored_bytes bs) in
        closed-IsArchive a.writer a.file_position total _ (old ++ stored_bytes bs) b o
          (subst (IsAt a.writer) regroup w.disk) (w.position ∙ ap length regroup)
          (omega (arith, w.position, length-append front (stored_bytes bs)))
          (ap (finish L S Z nonce) (sym (closed_full h c start a front files total bs eh ec w))
            ∙ unfold close in e2)

    -- The archive that the writer closes holds the blocks in the order of their numbers and an index
    -- of them, and opens under the password that it was made with.
    pub writer-IsArchive :
        (file : File) (files : List FileEntry) (total : ℕ) (received bs : List ProcessedBlock)
        (b : ArchiveWriter)
        → CanOpen confirm typed h c header_bytes (index_of header_bytes files total bs) nonce
        → IsAt file (header_part header_bytes)
        → AreSmall bs
        → length (header_part header_bytes) + length (stored_bytes bs) < 2 ^ 62
        → Numbered 0 bs
        → length bs < u64_mod
        → Permᴰ received bs
        → writer L S Z nonce
            (map block received ++ (finalize files total ∷ []))
            (fresh h c header_bytes file)
          ≡ ok b
        → IsArchive confirm typed h c header_bytes
            (index_of header_bytes files total bs)
            (stored_bytes bs)
            b.writer.content
    writer-IsArchive file files total received bs b o at small room numbered few perm e =
        resumed-IsArchive (fresh h c header_bytes file) (header_part header_bytes) [] files total
          received bs b (sym (append-nil (header_part header_bytes))) refl refl o at refl small room
          (omega arith) numbered perm e
