-- ===== src/Compress/Input/Whole.antt =====
-- All inputs together: the blocks that are sent make up the files' bytes, one behind the other.
use mathlib.Core.Path.{subst}
use cryo.Base.{
  ℕ, ◌+◌, ◌≤◌, ◌<◌, ◌≡◌, refl, sym, ap, ◌∙◌, none, some, List, [], ◌∷◌, ◌++◌, arith, length, All,
  Option, All-append, append-nil, append_assoc, length-append, ◌⊎◌, inl, inr,
}
use cryo.Base.Bytes.{Bytes, u64_mod}
use cryo.Compress.Chunks.{
  ReadState, Metadata, OpenFile, InputEntry, file_type, entry, push, read_entry, read_file_to_bytes,
  handle_non_regular_files,
}
use cryo.Compress.Chunks.Emit.{
  raw_bytes, raw_bytes-append, NumberedRaw, NumberedRaw-append, IsFull, length-raw_bytes,
}
use cryo.Compress.Chunks.Stream.{IsReading, read_file_to_bytes-stream}
use cryo.Compress.Input.{first_state, read_all, send_rest, read_inputs}
use cryo.Errors.{Result, ok}
use cryo.FilePath.{FilePath, strip_prefix}
use cryo.Format.{FileEntry, FileType, dir, symlink}
use cryo.Writer.{RawBlock}

-- An input that can be read: its entry, for the position where its bytes begin, and its bytes.
pub data Reads (root : FilePath) (i : InputEntry) : (ℕ → FileEntry) → Bytes → Type 0 where
  reads_file :
      (stripped : FilePath) (m : Metadata) (f : OpenFile)
      → i.symlink_metadata ≡ inr m
      → file_type m ≡ FileType.file
      → strip_prefix i.path root ≡ some stripped
      → i.opened ≡ inr f
      → ((n : ℕ) → f.fault n ≡ none)
      → Reads root i (λ k. entry stripped FileType.file m k m.size none) f.content
  reads_dir :
      (stripped : FilePath) (m : Metadata)
      → i.symlink_metadata ≡ inr m
      → file_type m ≡ dir
      → strip_prefix i.path root ≡ some stripped
      → Reads root i (λ k. entry stripped dir m k 0 none) []
  reads_link :
      (stripped target : FilePath) (m : Metadata)
      → i.symlink_metadata ≡ inr m
      → file_type m ≡ symlink
      → strip_prefix i.path root ≡ some stripped
      → i.read_link ≡ inr target
      → Reads root i (λ k. entry stripped symlink m k 0 (some target)) []

-- The entries and the bytes of all inputs, from a position on.
pub data AllRead (root : FilePath) : ℕ → List InputEntry → List FileEntry → Bytes → Type 0 where
  none_read : {k : ℕ} → AllRead root k [] [] []
  one_read :
      {k : ℕ} {i : InputEntry} {inputs : List InputEntry} {e : ℕ → FileEntry} {c rest : Bytes}
      {es : List FileEntry}
      → Reads root i e c
      → AllRead root (k + length c) inputs es rest
      → AllRead root k (i ∷ inputs) (e k ∷ es) (c ++ rest)

read_other :
    (root stripped : FilePath) (i : InputEntry) (m : Metadata) (kind : FileType) (block_size : ℕ)
    (s t : ReadState)
    → i.symlink_metadata ≡ inr m
    → file_type m ≡ kind
    → (kind ≡ dir) ⊎ (kind ≡ symlink)
    → strip_prefix i.path root ≡ some stripped
    → handle_non_regular_files kind m root i s ≡ ok t
    → read_file_to_bytes root block_size i s ≡ some (ok tt, t)
unfolding read_file_to_bytes
read_other root stripped i m FileType.file block_size s t em et k es h =
    absurd (elim k [ inl e ↦ cc | inr e ↦ cc ])
read_other root stripped i m FileType.dir block_size s t em et k es h =
    rw (em, read_file_to_bytes) (rw (es, read_file_to_bytes) (rw (et, read_entry) (rw h refl)))
read_other root stripped i m FileType.symlink block_size s t em et k es h =
    rw (em, read_file_to_bytes) (rw (es, read_file_to_bytes) (rw (et, read_entry) (rw h refl)))

-- What reading one input, or all of them, gives.
pub record IsReadTo (first base block_size : ℕ) (stream : Bytes) (files : List FileEntry)
    (r : Option (Result (Unit {0}) × ReadState)) : Type 0 where
  pub state : ReadState
  pub returned : r ≡ some (ok tt, state)
  pub reading : IsReading first base block_size stream state
  pub listed : state.files ≡ files

pushed :
    (first base block_size : ℕ) (stream : Bytes) (s : ReadState) (e : FileEntry)
    → IsReading first base block_size stream s
    → IsReading first base block_size (stream ++ []) (push e s)
pushed first base block_size stream s e r =
    subst (λ (t : Bytes). IsReading first base block_size t (push e s)) (sym (append-nil stream))
      (record {
        chunked = record {
          joined = r.chunked.joined;
          full = r.chunked.full;
          numbered = r.chunked.numbered;
          next = r.chunked.next;
        };
        position = r.position;
        short = r.short;
      })

module _ (first base : ℕ) (root : FilePath) (block_size : ℕ) (pos : 0 < block_size) where
  read_one :
      (i : InputEntry) (e : ℕ → FileEntry) (c stream : Bytes) (s : ReadState)
      → Reads root i e c
      → first + length (stream ++ c) < u64_mod
      → base + length (stream ++ c) < u64_mod
      → IsReading first base block_size stream s
      → IsReadTo first base block_size
          (stream ++ c)
          (s.files ++ (e (base + length stream) ∷ []))
          (read_file_to_bytes root block_size i s)
  read_one i e c stream s (reads_file stripped m f em et es eo ok_reads) small small' r =
      let (t, returned, reading, listed) =
        read_file_to_bytes-stream root stripped i m f first base block_size stream s em et es eo
          ok_reads pos (omega arith) (omega arith) r in
      record {
        state = t;
        returned = returned;
        reading = reading;
        listed =
            listed
            ∙ ap (λ (k : ℕ). s.files ++ (entry stripped FileType.file m k m.size none ∷ []))
                (omega arith);
      }
  read_one i e c stream s (reads_dir stripped m em et es) small small' r = record {
    state = push (e s.stream_position) s;
    returned =
        read_other root stripped i m dir block_size s _ em et (inl refl) es
          (unfold handle_non_regular_files in rw es refl);
    reading = pushed first base block_size stream s _ r;
    listed = ap (λ (k : ℕ). s.files ++ (e k ∷ [])) r.position;
  }
  read_one i e c stream s (reads_link stripped target m em et es el) small small' r = record {
    state = push (e s.stream_position) s;
    returned =
        read_other root stripped i m symlink block_size s _ em et (inr refl) es
          (unfold handle_non_regular_files in rw (el, es) refl);
    reading = pushed first base block_size stream s _ r;
    listed = ap (λ (k : ℕ). s.files ++ (e k ∷ [])) r.position;
  }

  pub read_all-AllRead :
      (k : ℕ) (inputs : List InputEntry) (es : List FileEntry) (c stream : Bytes) (s : ReadState)
      → k ≡ base + length stream
      → AllRead root k inputs es c
      → first + length (stream ++ c) < u64_mod
      → base + length (stream ++ c) < u64_mod
      → IsReading first base block_size stream s
      → IsReadTo first base block_size
          (stream ++ c)
          (s.files ++ es)
          (read_all root block_size inputs s)
  unfolding read_all
  read_all-AllRead k [] [] [] stream s at none_read small small' r = record {
    state = s;
    returned = refl;
    reading =
        subst (λ (t : Bytes). IsReading first base block_size t s) (sym (append-nil stream)) r;
    listed = sym (append-nil s.files);
  }
  read_all-AllRead k [] [] (x ∷ c) stream s at all small small' r = elim all [ ]
  read_all-AllRead k [] (e ∷ es) c stream s at all small small' r = elim all [ ]
  read_all-AllRead k (i ∷ inputs) _ _ stream s at
        (one_read {e = e} {c = c} {rest = rest} {es = es} one all) small small' r =
      let whole = append_assoc stream c rest in
      let size = ap length whole in
      let size' = length-append (stream ++ c) rest in
      let front = read_one i e c stream s one (omega arith) (omega arith) r in
      let more =
        read_all-AllRead (k + length c) inputs es rest (stream ++ c) front.state
          (omega (arith, at, length-append stream c)) all (omega arith) (omega arith)
          front.reading in
      record {
        state = more.state;
        returned = rw (front.returned, read_all) more.returned;
        reading =
            subst (λ (t : Bytes). IsReading first base block_size t more.state) whole more.reading;
        listed =
            more.listed
            ∙ ap (λ (l : List FileEntry). l ++ es) front.listed
            ∙ append_assoc s.files (e (base + length stream) ∷ []) es
            ∙ ap (λ (n : ℕ). s.files ++ (e n ∷ es)) (sym at);
      }

-- No block is longer than the archive's block size.
abbrev pub IsAtMost : ℕ → RawBlock → Type 0
IsAtMost block_size b = length b.raw_data ≤ block_size

-- The blocks that are sent for a stream.
pub record IsSent (first base block_size : ℕ) (stream : Bytes) (files : List FileEntry)
    (t : ReadState) : Type 0 where
  pub whole : raw_bytes t.sent ≡ stream
  pub numbered : NumberedRaw first t.sent
  pub at_most : All (IsAtMost block_size) t.sent
  pub few : length t.sent ≤ length stream
  pub position : t.stream_position ≡ base + length stream
  pub listed : t.files ≡ files

IsFull-IsAtMost :
    (block_size : ℕ) (bs : List RawBlock)
    → All (IsFull block_size) bs
    → All (IsAtMost block_size) bs
IsFull-IsAtMost block_size [] h = tt
IsFull-IsAtMost block_size (b ∷ bs) (e, h) = (omega arith, IsFull-IsAtMost block_size bs h)

pub send_rest-IsSent :
    (first base block_size : ℕ) (stream : Bytes) (s : ReadState)
    → IsReading first base block_size stream s
    → IsSent first base block_size stream s.files (send_rest (ok tt) s)
unfolding send_rest
send_rest-IsSent first base block_size stream s r = on_pending s.pending_buffer refl
  where
    on_pending :
        (pending : Bytes)
        → s.pending_buffer ≡ pending
        → IsSent first base block_size stream s.files (send_rest (ok tt) s)
    on_pending [] e = rw e (record {
      whole =
          sym (append-nil (raw_bytes s.sent))
          ∙ ap (λ (t : Bytes). raw_bytes s.sent ++ t) (sym e)
          ∙ r.chunked.joined;
      numbered = r.chunked.numbered;
      at_most = IsFull-IsAtMost block_size s.sent r.chunked.full;
      few = omega (
        arith,
        length-raw_bytes block_size s.sent (omega (arith, r.short)) r.chunked.full,
        length-append (raw_bytes s.sent) s.pending_buffer,
        ap length r.chunked.joined,
      );
      position = r.position;
      listed = refl;
    })
    on_pending (x ∷ bytes) e = rw e (record {
      whole =
          raw_bytes-append s.sent _
          ∙ ap (λ (t : Bytes). raw_bytes s.sent ++ t) (append-nil (x ∷ bytes) ∙ sym e)
          ∙ r.chunked.joined;
      numbered = NumberedRaw-append first s.sent _ r.chunked.numbered r.chunked.next;
      at_most =
          All-append (IsAtMost block_size) s.sent _
            (IsFull-IsAtMost block_size s.sent r.chunked.full)
            (omega (arith, r.short, ap length e), tt);
      few = omega (
        arith,
        length-raw_bytes block_size s.sent (omega (arith, r.short)) r.chunked.full,
        length-append (raw_bytes s.sent) s.pending_buffer,
        ap length r.chunked.joined,
        ap length e,
        length-append s.sent (record { id = s.block_id; raw_data = x ∷ bytes } ∷ []),
      );
      position = r.position;
      listed = refl;
    })

-- If every input is a regular file, a directory or a link that can be read, the block size is not
-- 0 and the bytes are fewer than 2^64, then the blocks sent join to the files' bytes one behind
-- the other, are numbered from 0 and are at most of the block size; the position is behind all
-- bytes, and each entry says where its file's bytes begin.
pub read_inputs-IsSent :
    (root : FilePath) (block_size : ℕ) (inputs : List InputEntry) (es : List FileEntry)
    (stream : Bytes)
    → 0 < block_size
    → length stream < u64_mod
    → AllRead root 0 inputs es stream
    → (t : ReadState) × (read_inputs root block_size inputs ≡ some (ok tt, t))
      × IsSent 0 0 block_size stream es t
unfolding read_inputs
read_inputs-IsSent root block_size inputs es stream pos small all =
    let done =
      read_all-AllRead 0 0 root block_size pos 0 inputs es stream [] first_state (omega arith) all
        (omega arith) (omega arith)
        (record {
          chunked = record { joined = refl; full = tt; numbered = tt; next = omega arith };
          position = omega arith;
          short = pos;
        }) in
    let sent = send_rest-IsSent 0 0 block_size stream done.state done.reading in
    (
      send_rest (ok tt) done.state,
      rw (done.returned, read_inputs) refl,
      subst (λ (l : List FileEntry). IsSent 0 0 block_size stream l (send_rest (ok tt) done.state))
          done.listed sent,
    )
