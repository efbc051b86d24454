-- ===== src/Disk/Laws.antt =====
-- Appending at the end of a prefix, cutting off what is stale, and reading back.
use cryo.Base.{
  ℕ, ◌+◌, ◌-◌, ◌≤◌, ◌<◌, ◌^◌, ◌≡◌, refl, sym, ap, ◌∙◌, some, ◌++◌, arith, length, take, drop,
  replicate, slice, append_assoc, append-nil, length-append, take-append_at, drop-append_at,
}
use cryo.Base.Bytes.{Bytes}
use cryo.Disk.{File, overwrite, write_all, set_len, read_exact, seek_start, seek_end}
use cryo.Errors.{ok}
use cryo.FilePath.{FilePath}

-- The bytes in front of the cursor: all of them are there.
pub record IsAt (f : File) (front : Bytes) : Type 0 where
  pub tail : Bytes
  pub content : f.content ≡ front ++ tail
  pub cursor : f.cursor ≡ length front

no_gap : (front tail : Bytes) → length front - length (front ++ tail) ≡ 0
no_gap front tail = omega (arith, length-append front tail)

overwrite_at :
    (front tail bs : Bytes)
    → overwrite (front ++ tail) (length front) bs
      ≡ (front ++ bs) ++ drop (length front + length bs) (front ++ tail)
unfolding overwrite
overwrite_at front tail bs =
    rw (no_gap front tail, take-append_at (length front) front tail refl, append_assoc front bs)

-- `write_all` succeeds exactly where the device has room, and what it leaves is known.
pub write_all-eq-some :
    (bs : Bytes) (f g : File)
    → write_all bs f ≡ some g
    → (g.content ≡ overwrite f.content f.cursor bs)
      × (g.cursor ≡ f.cursor + length bs)
      × (f.cursor + length bs ≤ f.room)
      × (g.room ≡ f.room)
unfolding write_all
write_all-eq-some bs f g h = ground arith

-- A write puts its bytes behind the front and moves behind them.
pub write_all-IsAt :
    {f g : File} {front : Bytes} (bs : Bytes)
    → IsAt f front
    → write_all bs f ≡ some g
    → IsAt g (front ++ bs)
write_all-IsAt {f} {g} {front} bs at h =
    let (content, cursor, _, _) = write_all-eq-some bs f g h in
    record {
      tail = drop (length front + length bs) (front ++ at.tail);
      content = content ∙ rw (at.content, at.cursor) (overwrite_at front at.tail bs);
      cursor = omega (arith, length-append front bs);
    }

-- Where the device has room, the write succeeds.
pub write_all-room :
    {f : File} {front : Bytes} (bs : Bytes)
    → IsAt f front
    → length front + length bs ≤ f.room
    → (g : File) × (write_all bs f ≡ some g) × IsAt g (front ++ bs) × (g.room ≡ f.room)
write_all-room {f} {front} bs at h =
    let g = record f { content = overwrite f.content f.cursor bs; cursor = f.cursor + length bs } in
    let done : write_all bs f ≡ some g = unfold write_all in ground (arith, at.cursor) in
    (g, done, write_all-IsAt bs at done, refl)

-- Cutting the file off at the cursor leaves the front alone, whatever stood behind it.
pub set_len-IsAt :
    {f g : File} {front : Bytes} (n : ℕ)
    → IsAt f front
    → n ≡ length front
    → set_len n f ≡ some g
    → g.content ≡ front
set_len-IsAt {f} {g} {front} n at e h =
    cut
    ∙ rw (at.content, e, no_gap front at.tail)
        (append-nil _ ∙ take-append_at (length front) front at.tail refl)
  where
    cut : g.content ≡ take n f.content ++ replicate (n - length f.content) 0
    cut = unfold set_len in ground arith

pub set_len-room :
    {f : File} {front : Bytes} (n : ℕ)
    → IsAt f front
    → n ≡ length front
    → n ≤ f.room
    → (g : File) × (set_len n f ≡ some g) × (g.content ≡ front)
set_len-room {f} {front} n at e h =
    let g = record f { content = take n f.content ++ replicate (n - length f.content) 0 } in
    let done : set_len n f ≡ some g = unfold set_len in ground arith in
    (g, done, set_len-IsAt n at e done)

-- A part of the file is read back where it stands.
pub read_exact-part :
    (p : FilePath) (front part tail : Bytes) (pos n : ℕ)
    → pos ≡ length front
    → n ≡ length part
    → read_exact p pos n (front ++ (part ++ tail)) ≡ ok part
unfolding read_exact
read_exact-part p front part tail pos n ep en =
    let part_read : slice pos (pos + n) (front ++ (part ++ tail)) ≡ part =
      ap (λ (k : ℕ). take k (drop pos (front ++ (part ++ tail)))) (omega arith)
      ∙ ap (take n) (drop-append_at pos front (part ++ tail) (sym ep))
      ∙ take-append_at n part tail (sym en) in
    ground (arith, length-append front (part ++ tail), length-append part tail)

-- The positions from which a whole part of the file can be read.
pub seek_start-ok : (p : FilePath) (pos : ℕ) → pos < 2 ^ 63 → seek_start p pos ≡ ok pos
unfolding seek_start
seek_start-ok p pos h = ground arith

pub seek_end-part :
    (p : FilePath) (front part : Bytes) (n : ℕ)
    → n ≡ length part
    → seek_end p n (front ++ part) ≡ ok (length front)
unfolding seek_end
seek_end-part p front part n e = ground (arith, length-append front part)
