-- ===== src/Compress/Chunks/Stream.antt =====
-- A regular file ends up in the stream behind what was read before, byte for byte, however little
-- the system gives at each read.
use mathlib.Core.Path.{subst}
use cryo.Base.{
  ℕ, zero, suc, ◌+◌, ◌<◌, ◌≡◌, refl, sym, ap, ◌∙◌, true, false, Option, none, some, List, [], ◌∷◌,
  ◌++◌, arith, ◌==◌, length, take, drop, length-append, length-drop, take-append-drop, append_assoc,
  append-nil, Bool-cases, inl, inr,
}
use cryo.Base.Bytes.{Bytes, u64_mod}
use cryo.Compress.Chunks.{
  ReadState, Metadata, OpenFile, InputEntry, emit, extend, granted, read_loop, read_regular,
  read_entry, read_file_to_bytes, file_type, entry, push,
}
use cryo.Compress.Chunks.Emit.{raw_bytes, IsChunked, emit-Emitted}
use cryo.Errors.{Result, ok}
use cryo.FilePath.{FilePath, strip_prefix}
use cryo.Format.{FileEntry, FileType}

-- Between two files: the stream so far, the position behind it, and less than a block pending.
pub record IsReading (first base block_size : ℕ) (stream : Bytes) (s : ReadState) : Type 0 where
  pub chunked : IsChunked first block_size stream s
  pub position : s.stream_position ≡ base + length stream
  pub short : length s.pending_buffer < block_size

-- One round that goes on.
round : ℕ → Bytes → ReadState → ReadState
round block_size bytes s =
    let s' = extend bytes s in emit (suc (length s'.pending_buffer)) block_size s'

round-IsReading :
    (first base block_size : ℕ) (stream bytes : Bytes) (s : ReadState)
    → 0 < block_size
    → first + length (stream ++ bytes) < u64_mod
    → base + length (stream ++ bytes) < u64_mod
    → IsReading first base block_size stream s
    → IsReading first base block_size (stream ++ bytes) (round block_size bytes s)
      × ((round block_size bytes s).files ≡ s.files)
unfolding round
round-IsReading first base block_size stream bytes s h small fits r =
    let e =
      emit-Emitted (suc (length (s.pending_buffer ++ bytes))) first block_size (stream ++ bytes)
        (extend bytes s) h small (omega arith)
        (record {
          joined =
              sym (append_assoc (raw_bytes s.sent) s.pending_buffer bytes)
              ∙ ap (λ (t : Bytes). t ++ bytes) r.chunked.joined;
          full = r.chunked.full;
          numbered = r.chunked.numbered;
          next = r.chunked.next;
        }) in
    (
      record {
        chunked = e.chunked;
        position = e.same.position ∙ omega (arith, r.position, length-append stream bytes);
        short = e.short;
      },
      e.same.files,
    )

pub read_end :
    (rounds : ℕ) (p : FilePath) (f : OpenFile) (n block_size : ℕ) (left : Bytes) (s : ReadState)
    → f.fault n ≡ none
    → (granted f n block_size left == 0) ≡ true
    → read_loop (suc rounds) p f n block_size left s ≡ some (ok tt, s)
unfolding read_loop
read_end rounds p f n block_size left s e z = rw (e, read_loop) (rw (z, read_loop) refl)

read_on :
    (rounds : ℕ) (p : FilePath) (f : OpenFile) (n block_size : ℕ) (left : Bytes) (s : ReadState)
    → f.fault n ≡ none
    → (granted f n block_size left == 0) ≡ false
    → read_loop (suc rounds) p f n block_size left s
      ≡ read_loop rounds p f
          (n + 1)
          block_size
          (drop (granted f n block_size left) left)
          (round block_size (take (granted f n block_size left) left) s)
unfolding read_loop round
read_on rounds p f n block_size left s e z = rw (e, read_loop) (rw (z, read_loop) refl)

nil_of_length : (xs : Bytes) → length xs ≡ 0 → xs ≡ []
nil_of_length [] h = refl
nil_of_length (x ∷ xs) h = absurd (omega arith)

-- The loop has returned, and what was left of the file is in the stream.
record IsRead (first base block_size : ℕ) (stream : Bytes) (files : List FileEntry)
    (r : Option (Result (Unit {0}) × ReadState)) : Type 0 where
  state : ReadState
  returned : r ≡ some (ok tt, state)
  reading : IsReading first base block_size stream state
  files_kept : state.files ≡ files

module _ (p : FilePath) (f : OpenFile) (no_fault : (n : ℕ) → f.fault n ≡ none)
    (first base block_size : ℕ) (pos : 0 < block_size) where
  read_loop-IsRead :
      (rounds n : ℕ) (stream left : Bytes) (s : ReadState)
      → length left < rounds
      → first + length (stream ++ left) < u64_mod
      → base + length (stream ++ left) < u64_mod
      → IsReading first base block_size stream s
      → IsRead first base block_size
          (stream ++ left)
          s.files
          (read_loop rounds p f n block_size left s)
  read_loop-IsRead zero n stream left s enough small fits r = absurd (omega arith)
  read_loop-IsRead (suc rounds) n stream left s enough small fits r =
      let k = granted f n block_size left in
      elim (Bool-cases (k == 0)) [
        | inl z ↦ record {
          state = s;
          returned = read_end rounds p f n block_size left s (no_fault n) z;
          reading =
              subst (λ (t : Bytes). IsReading first base block_size t s)
                (sym (
                  ap (λ (t : Bytes). stream ++ t) (nil_of_length left (ground arith))
                  ∙ append-nil stream))
                r;
          files_kept = refl;
        }
        | inr z ↦
            let whole : (stream ++ take k left) ++ drop k left ≡ stream ++ left =
              append_assoc stream (take k left) (drop k left)
              ∙ ap (λ (t : Bytes). stream ++ t) (take-append-drop k left) in
            let size = ap length whole in
            let size' = length-append (stream ++ take k left) (drop k left) in
            let (r', kept) =
              round-IsReading first base block_size stream (take k left) s pos (omega arith)
                (omega arith) r in
            let positive : 0 < k = ground arith in
            let rest =
              read_loop-IsRead rounds (n + 1) (stream ++ take k left) (drop k left)
                (round block_size (take k left) s) (omega (arith, length-drop k left, positive))
                (omega arith) (omega arith) r' in
            record {
              state = rest.state;
              returned = read_on rounds p f n block_size left s (no_fault n) z ∙ rest.returned;
              reading =
                  subst (λ (t : Bytes). IsReading first base block_size t rest.state) whole
                    rest.reading;
              files_kept = rest.files_kept ∙ kept;
            }
      ]

pub read_file_to_bytes-regular :
    (root stripped : FilePath) (i : InputEntry) (m : Metadata) (f : OpenFile) (block_size : ℕ)
    (s : ReadState)
    → i.symlink_metadata ≡ inr m
    → file_type m ≡ FileType.file
    → strip_prefix i.path root ≡ some stripped
    → i.opened ≡ inr f
    → read_file_to_bytes root block_size i s
      ≡ read_loop
          (suc (length f.content))
          i.path
          f
          0
          block_size
          f.content
          (push (entry stripped FileType.file m s.stream_position m.size none) s)
unfolding read_file_to_bytes
read_file_to_bytes-regular root stripped i m f block_size s em et es eo =
    rw (em, read_file_to_bytes)
      (rw (es, read_file_to_bytes) (rw (et, read_entry) (rw (eo, read_regular) refl)))

-- A regular file under the root that can be read, with a block size that is not 0 and positions
-- below 2^64: its bytes go behind the stream, however little each read gives, its entry says where
-- they begin, and all blocks sent are full and numbered on. The entry's size is that of the
-- metadata.
pub read_file_to_bytes-stream :
    (root stripped : FilePath) (i : InputEntry) (m : Metadata) (f : OpenFile)
    (first base block_size : ℕ) (stream : Bytes) (s : ReadState)
    → i.symlink_metadata ≡ inr m
    → file_type m ≡ FileType.file
    → strip_prefix i.path root ≡ some stripped
    → i.opened ≡ inr f
    → ((n : ℕ) → f.fault n ≡ none)
    → 0 < block_size
    → first + length (stream ++ f.content) < u64_mod
    → base + length (stream ++ f.content) < u64_mod
    → IsReading first base block_size stream s
    → (t : ReadState) × (read_file_to_bytes root block_size i s ≡ some (ok tt, t))
      × IsReading first base block_size (stream ++ f.content) t
      × (t.files
          ≡ s.files ++ (entry stripped FileType.file m (base + length stream) m.size none ∷ []))
read_file_to_bytes-stream root stripped i m f first base block_size stream s em et es eo ok_reads
      pos small fits r =
    let e = entry stripped FileType.file m s.stream_position m.size none in
    let done =
      read_loop-IsRead i.path f ok_reads first base block_size pos (suc (length f.content)) 0 stream
        f.content (push e s) (omega arith) small fits
        (record { chunked = pushed e r.chunked; position = r.position; short = r.short }) in
    (
      done.state,
      read_file_to_bytes-regular root stripped i m f block_size s em et es eo ∙ done.returned,
      done.reading,
      done.files_kept
          ∙ ap (λ (k : ℕ). s.files ++ (entry stripped FileType.file m k m.size none ∷ []))
              r.position,
    )
  where
    pushed :
        (e : FileEntry)
        → IsChunked first block_size stream s
        → IsChunked first block_size stream (push e s)
    pushed e c = record { joined = c.joined; full = c.full; numbered = c.numbered; next = c.next }
