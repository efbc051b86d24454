-- ===== src/Compress/Chunks/Emit.antt =====
-- The blocks that have been sent and the pending bytes make up the stream.
use cryo.Base.{
  ℕ, zero, suc, ◌+◌, ◌%◌, ◌≤◌, ◌<◌, ◌≡◌, refl, sym, ap, ◌∙◌, true, false, List, [], ◌∷◌, ◌++◌,
  arith, leb, length, take, drop, All, All-append, length-append, length-take, length-drop,
  take-append-drop, append_assoc, Bool-cases, inl, inr, append-nil,
}
use cryo.Base.Bytes.{Bytes, u64_mod}
use mathlib.Core.Path.{subst}
use cryo.Compress.Chunks.{ReadState, emit}
use cryo.Writer.{RawBlock}

abbrev pub raw_bytes : List RawBlock → Bytes
raw_bytes [] = []
raw_bytes (b ∷ bs) = b.raw_data ++ raw_bytes bs

pub raw_bytes-append : (xs ys : List RawBlock) → raw_bytes (xs ++ ys) ≡ raw_bytes xs ++ raw_bytes ys
raw_bytes-append [] ys = refl
raw_bytes-append (x ∷ xs) ys =
    ap (λ (t : Bytes). x.raw_data ++ t) (raw_bytes-append xs ys)
    ∙ sym (append_assoc x.raw_data (raw_bytes xs) (raw_bytes ys))

-- Consecutive numbers from `k` on.
abbrev pub NumberedRaw : ℕ → List RawBlock → Type 0
NumberedRaw k [] = Unit
NumberedRaw k (b ∷ bs) = (b.id ≡ k) × NumberedRaw (k + 1) bs

pub NumberedRaw-append :
    (k : ℕ) (xs : List RawBlock) (b : RawBlock)
    → NumberedRaw k xs
    → b.id ≡ k + length xs
    → NumberedRaw k (xs ++ (b ∷ []))
NumberedRaw-append k [] b h e = (omega arith, tt)
NumberedRaw-append k (x ∷ xs) b (hx, h) e = (hx, NumberedRaw-append (k + 1) xs b h (omega arith))

-- A block of exactly the archive's block size.
abbrev pub IsFull : ℕ → RawBlock → Type 0
IsFull block_size b = length b.raw_data ≡ block_size

pub length-raw_bytes :
    (block_size : ℕ) (bs : List RawBlock)
    → 0 < block_size
    → All (IsFull block_size) bs
    → length bs ≤ length (raw_bytes bs)
length-raw_bytes block_size [] h all = omega arith
length-raw_bytes block_size (b ∷ bs) h (e, all) =
    omega (arith, length-append b.raw_data (raw_bytes bs), length-raw_bytes block_size bs h all)

-- The blocks sent are full and numbered from `first` on, and with the pending bytes they are `stream`.
pub record IsChunked (first block_size : ℕ) (stream : Bytes) (s : ReadState) : Type 0 where
  pub joined : raw_bytes s.sent ++ s.pending_buffer ≡ stream
  pub full : All (IsFull block_size) s.sent
  pub numbered : NumberedRaw first s.sent
  pub next : s.block_id ≡ first + length s.sent

-- The state behind one round of `emit`.
abbrev after : ℕ → ReadState → ReadState
after block_size s = record s {
  pending_buffer = drop block_size s.pending_buffer;
  sent = s.sent ++ (record { id = s.block_id; raw_data = take block_size s.pending_buffer } ∷ []);
  block_id = (s.block_id + 1) % u64_mod;
}

after-IsChunked :
    (first block_size : ℕ) (stream : Bytes) (s : ReadState)
    → 0 < block_size
    → first + length stream < u64_mod
    → block_size ≤ length s.pending_buffer
    → IsChunked first block_size stream s
    → IsChunked first block_size stream (after block_size s)
after-IsChunked first block_size stream s h small enough c = record {
  joined =
      ap (λ (t : Bytes). t ++ drop block_size s.pending_buffer) (raw_bytes-append s.sent _)
      ∙ append_assoc (raw_bytes s.sent) _ _
      ∙ ap (λ (t : Bytes). raw_bytes s.sent ++ t)
          (ap (λ (t : Bytes). t ++ drop block_size s.pending_buffer)
              (append-nil (take block_size s.pending_buffer))
            ∙ take-append-drop block_size s.pending_buffer)
      ∙ c.joined;
  full =
      All-append (IsFull block_size) s.sent _ c.full
        (omega (arith, length-take block_size s.pending_buffer), tt);
  numbered = NumberedRaw-append first s.sent _ c.numbered c.next;
  next = omega (
    arith,
    c.next,
    length-raw_bytes block_size s.sent h c.full,
    length-append (raw_bytes s.sent) s.pending_buffer,
    ap length c.joined,
    length-append s.sent
        (record { id = s.block_id; raw_data = take block_size s.pending_buffer } ∷ []),
  );
}

emit_more :
    (rounds block_size : ℕ) (s : ReadState)
    → leb block_size (length s.pending_buffer) ≡ true
    → emit (suc rounds) block_size s ≡ emit rounds block_size (after block_size s)
unfolding emit
emit_more rounds block_size s e = rw (e, emit)

emit_done :
    (rounds block_size : ℕ) (s : ReadState)
    → leb block_size (length s.pending_buffer) ≡ false
    → emit (suc rounds) block_size s ≡ s
unfolding emit
emit_done rounds block_size s e = rw (e, emit)

-- What `emit` leaves alone.
pub record SameRest (s t : ReadState) : Type 0 where
  pub files : t.files ≡ s.files
  pub position : t.stream_position ≡ s.stream_position

-- With enough rounds, what is pending is less than a block, and the stream is the same.
pub record Emitted (first block_size : ℕ) (stream : Bytes) (s t : ReadState) : Type 0 where
  pub chunked : IsChunked first block_size stream t
  pub short : length t.pending_buffer < block_size
  pub same : SameRest s t

-- With more rounds than there are pending bytes, a block size that is not 0 and numbers that stay
-- below 2^64, `emit` leaves less than a block pending; the blocks sent and the pending bytes are
-- still the stream, all blocks sent are full and numbered on, and files and position are as
-- before.
pub emit-Emitted :
    (rounds first block_size : ℕ) (stream : Bytes) (s : ReadState)
    → 0 < block_size
    → first + length stream < u64_mod
    → length s.pending_buffer < rounds
    → IsChunked first block_size stream s
    → Emitted first block_size stream s (emit rounds block_size s)
emit-Emitted zero first block_size stream s h small enough c = absurd (omega arith)
emit-Emitted (suc rounds) first block_size stream s h small enough c =
    elim (Bool-cases (leb block_size (length s.pending_buffer))) [
      | inr e ↦
          subst (Emitted first block_size stream s) (sym (emit_done rounds block_size s e))
            (record {
              chunked = c;
              short = ground arith;
              same = record { files = refl; position = refl };
            })
      | inl e ↦
          let le : block_size ≤ length s.pending_buffer = ground arith in
          let rest =
            emit-Emitted rounds first block_size stream (after block_size s) h small
              (omega (arith, length-drop block_size s.pending_buffer))
              (after-IsChunked first block_size stream s h small le c) in
          subst (Emitted first block_size stream s) (sym (emit_more rounds block_size s e))
            (record {
              chunked = rest.chunked;
              short = rest.short;
              same = record { files = rest.same.files; position = rest.same.position };
            })
    ]
