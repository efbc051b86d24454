-- ===== src/Compress/Queue/Layout.antt =====
-- What the disk and the index hold once the blocks are written.
use cryo.Base.{
  ℕ, ◌+◌, ◌%◌, ◌<◌, ◌≡◌, refl, ap, ◌∙◌, some, List, [], ◌∷◌, ◌++◌, arith, length, append-nil,
  append_assoc, length-append,
}
use cryo.Base.Bytes.{Bytes, u32_mod, u64_mod}
use cryo.Compress.Queue.{entry_of, write_block}
use cryo.Compress.Queue.Drain.{write_blocks}
use cryo.Disk.{File, write_all}
use cryo.Disk.Laws.{IsAt, write_all-IsAt}
use cryo.Errors.{ok, or_err, or_err-eq-ok, >>=-eq-ok, write_error}
use cryo.Format.{BlockEntry, Index}
use mathlib.Core.Path.{subst}
use cryo.Writer.{ProcessedBlock, ArchiveWriter}

abbrev pub stored_bytes : List ProcessedBlock → Bytes
stored_bytes [] = []
stored_bytes (b ∷ bs) = b.processed_data ++ stored_bytes bs

-- The entries of blocks that lie one behind the other from `offset` on.
abbrev pub entries : ℕ → List ProcessedBlock → List BlockEntry
entries offset [] = []
entries offset (b ∷ bs) = entry_of offset b ∷ entries (offset + length b.processed_data) bs

-- Every block is shorter than 4 GiB.
abbrev pub AreSmall : List ProcessedBlock → Type 0
AreSmall [] = Unit
AreSmall (b ∷ bs) = (length b.processed_data < u32_mod) × AreSmall bs

pub record Written (front : Bytes) (bs : List ProcessedBlock) (a b : ArchiveWriter) : Type 0 where
  pub disk : IsAt b.writer (front ++ stored_bytes bs)
  pub position : b.file_position ≡ length (front ++ stored_bytes bs)
  pub index : b.index ≡ record a.index { block = a.index.block ++ entries (length front) bs }
  pub rest : b ≡ record a { writer = b.writer; index = b.index; file_position = b.file_position }

-- One block: it lies behind the front, and its entry says so.
record Step (front : Bytes) (x : ProcessedBlock) (a b : ArchiveWriter) : Type 0 where
  disk : IsAt b.writer (front ++ x.processed_data)
  position : b.file_position ≡ length (front ++ x.processed_data)
  index : b.index ≡ record a.index { block = a.index.block ++ (entry_of (length front) x ∷ []) }
  rest : b ≡ record a { writer = b.writer; index = b.index; file_position = b.file_position }

abbrev pub next : ProcessedBlock → ArchiveWriter → File → ArchiveWriter
next x a w = record a {
  writer = w;
  index = record a.index { block = a.index.block ++ (entry_of a.file_position x ∷ []) };
  file_position = (a.file_position + length x.processed_data % u32_mod) % u64_mod;
}

write_block-eq-ok :
    (x : ProcessedBlock) (a b : ArchiveWriter)
    → write_block x a ≡ ok b
    → (w : File) × (write_all x.processed_data a.writer ≡ some w) × (b ≡ next x a w)
unfolding write_block
write_block-eq-ok x a b h =
    let (w, e, done) = >>=-eq-ok (or_err write_error (write_all x.processed_data a.writer)) _ h in
    (w, or_err-eq-ok _ _ e, cc)

write_block-Step :
    (front : Bytes) (x : ProcessedBlock) (a b : ArchiveWriter)
    → IsAt a.writer front
    → a.file_position ≡ length front
    → length x.processed_data < u32_mod
    → length front + length x.processed_data < u64_mod
    → write_block x a ≡ ok b
    → Step front x a b
write_block-Step front x a b at pos small fits h =
    let (w, e, done) = write_block-eq-ok x a b h in
    record {
      disk = rw done (write_all-IsAt x.processed_data at e);
      position =
          ap (λ (t : ArchiveWriter). t.file_position) done
          ∙ omega (arith, length-append front x.processed_data);
      index =
          ap (λ (t : ArchiveWriter). t.index) done
          ∙ ap (λ (k : ℕ). record a.index { block = a.index.block ++ (entry_of k x ∷ []) }) pos;
      rest = rw done refl;
    }

joined :
    (x : ProcessedBlock) (bs : List ProcessedBlock) (front : Bytes) (a c b : ArchiveWriter)
    → Step front x a c
    → Written (front ++ x.processed_data) bs c b
    → Written front (x ∷ bs) a b
joined x bs front a c b s w = record {
  disk = subst (IsAt b.writer) regroup w.disk;
  position = w.position ∙ ap length regroup;
  index =
      w.index
      ∙ ap
          (λ (t : Index). record t {
            block = t.block ++ entries (length (front ++ x.processed_data)) bs;
          })
          s.index
      ∙ ap (λ (l : List BlockEntry). record a.index { block = l }) blocks;
  rest =
      w.rest
      ∙ ap
          (λ (t : ArchiveWriter). record t {
            writer = b.writer;
            index = b.index;
            file_position = b.file_position;
          })
          s.rest;
}
  where
    regroup : (front ++ x.processed_data) ++ stored_bytes bs ≡ front ++ stored_bytes (x ∷ bs)
    regroup = append_assoc front x.processed_data (stored_bytes bs)

    blocks :
        (a.index.block ++ (entry_of (length front) x ∷ []))
          ++ entries (length (front ++ x.processed_data)) bs
        ≡ a.index.block ++ entries (length front) (x ∷ bs)
    blocks = rw (length-append front x.processed_data) (
        append_assoc a.index.block (entry_of (length front) x ∷ [])
          (entries (length front + length x.processed_data) bs))

-- If blocks, each shorter than 2^32, are written one after the other behind `front`, and all stay
-- below 2^64, they lie one behind the other there; their entries, in this order, are what the
-- index gains, and nothing else of the archive changes.
pub write_blocks-Written :
    (bs : List ProcessedBlock) (front : Bytes) (a b : ArchiveWriter)
    → IsAt a.writer front
    → a.file_position ≡ length front
    → AreSmall bs
    → length front + length (stored_bytes bs) < u64_mod
    → write_blocks bs a ≡ ok b
    → Written front bs a b
unfolding write_blocks
write_blocks-Written [] front a b at pos small fits h =
    let same : a ≡ b = cc in
    subst (Written front [] a) same (record {
      disk = rw (append-nil front) at;
      position = pos ∙ rw (append-nil front) refl;
      index = rw (append-nil a.index.block) refl;
      rest = refl;
    })
write_blocks-Written (x ∷ bs) front a b at pos (hx, small) fits h =
    let (c, e, h') = >>=-eq-ok (write_block x a) _ h in
    let s =
      write_block-Step front x a c at pos hx
        (omega (arith, length-append x.processed_data (stored_bytes bs))) e in
    let w =
      write_blocks-Written bs (front ++ x.processed_data) c b s.disk s.position small
        (omega (
          arith,
          length-append front x.processed_data,
          length-append x.processed_data (stored_bytes bs),
        ))
        h' in
    joined x bs front a c b s w
