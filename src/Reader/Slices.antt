-- ===== src/Reader/Slices.antt =====
-- The bytes of a file are cut out of the stream that the blocks make up.
pub mod Cuts
use cryo.Base.{
  ℕ, zero, suc, ◌+◌, ◌-◌, ◌%◌, ◌≤◌, ◌<◌, ◌≡◌, refl, sym, ap, ◌∙◌, ◌≢◌, min, Bool, true, false, not,
  ◌||◌, Option, none, some, List, [], ◌∷◌, ◌++◌, arith, ltb, leb, ◌==◌, if◌then◌else◌, length, take,
  drop, slice, bytes_eq, append-nil, append_assoc, length-append, take-append_left,
  take-append_right, drop-append_left, drop-append_right, drop-drop, take-all, take-nil, drop-nil,
  length-drop, drop-all, take-length,
}
use cryo.Base.Bytes.{Bytes, u64_mod}
use mathlib.Core.Path.{ap₂, subst}
use native.Mathlib.Decide.{dec_lt}
use mathlib.Core.Option.{get_or}
use cryo.Consts.{max_file_size}
use cryo.Engine.{DecompressingEngine, new_decompressing}
use cryo.Errors.{Result, ok, err, reject, ◌>>=◌, ◌>>◌, >>=-eq-ok, decompression_error}
use cryo.Externals.{Compressors, Ciphers, Serializers}
use cryo.Format.{BlockEntry, FileEntry}
use cryo.Reader.Slices.Cuts.{take_eq, cut, cut_inside}
use cryo.Reader.{
  ArchiveReader, ranges_from, build_block_ranges, partition_point, read_block, extract_from,
  extract_bytes,
}

-- The plain bytes of the blocks, one behind the other.
abbrev pub stream : List Bytes → Bytes
stream [] = []
stream (p ∷ ps) = p ++ stream ps

ranges_from-cons :
    (pos : ℕ) (b : BlockEntry) (bs : List BlockEntry) (p : Bytes)
    → length p ≡ b.size_plain
    → pos + length p < u64_mod
    → ranges_from pos (b ∷ bs) ≡ (pos, pos + length p) ∷ ranges_from (pos + length p) bs
unfolding ranges_from
ranges_from-cons pos b bs p e h = ap (λ (k : ℕ). (pos, k) ∷ ranges_from k bs) (omega arith)

module _ (L : Compressors) (S : Ciphers) (Z : Serializers) (r : ArchiveReader)
    (engine : DecompressingEngine) where
  -- The blocks from number `i` on are on the disk with these plain bytes, and their checksums hold.
  abbrev pub Stored : ℕ → List BlockEntry → List Bytes → Type 0
  Stored i [] [] = Unit
  Stored i [] (p ∷ ps) = ⊥
  Stored i (b ∷ bs) [] = ⊥
  Stored i (b ∷ bs) (p ∷ ps) =
      (read_block L S Z r b i engine ≡ ok p)
      × (bytes_eq (Z.blake3_hash p) b.checksum ≡ true)
      × (length p ≡ b.size_plain)
      × Stored (i + 1) bs ps

  module _ (file_start file_end : ℕ) (ordered : file_start ≤ file_end) where
    -- One round, inside the range.
    extract_round :
        (i start end : ℕ) (b : BlockEntry) (p : Bytes) (ranges : List (ℕ × ℕ))
        (bs : List BlockEntry) (out : Bytes)
        → file_start < end
        → start < file_end
        → end ≡ start + length p
        → read_block L S Z r b i engine ≡ ok p
        → bytes_eq (Z.blake3_hash p) b.checksum ≡ true
        → extract_from L S Z r engine file_start file_end i ((start, end) ∷ ranges) (b ∷ bs) out
          ≡ extract_from L S Z r engine file_start file_end
              (i + 1)
              ranges
              bs
              (out ++ slice (file_start - start) (min file_end end - start) p)
    unfolding extract_from
    extract_round i start end b p ranges bs out h k e read sum = ground arith

    extract_stop :
        (i start end : ℕ) (b : BlockEntry) (ranges : List (ℕ × ℕ)) (bs : List BlockEntry)
        (out : Bytes)
        → file_end ≤ start
        → extract_from L S Z r engine file_start file_end i ((start, end) ∷ ranges) (b ∷ bs) out
          ≡ ok out
    unfolding extract_from
    extract_stop i start end b ranges bs out h = ground arith

    -- Behind the start of the file the loop takes the stream up to the file's end.
    extract_inside :
        (i pos : ℕ) (bs : List BlockEntry) (ps : List Bytes) (out : Bytes)
        → Stored i bs ps
        → file_start < pos
        → pos + length (stream ps) < u64_mod
        → extract_from L S Z r engine file_start file_end i (ranges_from pos bs) bs out
          ≡ ok (out ++ take (file_end - pos) (stream ps))
    extract_inside i pos [] [] out stored h small =
        unfold extract_from ranges_from in rw (take-nil, append-nil) refl
    extract_inside i pos [] (p ∷ ps) out stored h small = absurd stored
    extract_inside i pos (b ∷ bs) [] out stored h small = absurd stored
    extract_inside i pos (b ∷ bs) (p ∷ ps) out (read, sum, size, stored) h small =
        rw (ranges_from-cons pos b bs p size (omega (arith, length-append p (stream ps))))
          (elim (dec_lt pos file_end) [
            | yes k ↦
                extract_round i pos (pos + length p) b p (ranges_from (pos + length p) bs) bs out
                  (omega arith) k refl read sum
                ∙ extract_inside (i + 1) (pos + length p) bs ps _ stored (omega arith)
                    (omega (arith, length-append p (stream ps)))
                ∙ ap ok (
                    append_assoc out _ _
                    ∙ ap (λ (t : Bytes). out ++ t)
                        (cut_inside pos file_start file_end p (stream ps) (omega arith)
                          (omega arith)))
            | no k ↦
                extract_stop i pos (pos + length p) b (ranges_from (pos + length p) bs) bs out
                  (omega arith)
                ∙ ap ok (
                    sym (
                      ap (λ (t : Bytes). out ++ t)
                        (take_eq {m = file_end - pos} {n = 0} (p ++ stream ps) (omega arith))
                      ∙ append-nil out))
          ])

    -- At a block that reaches behind the start of the file.
    extract_first :
        (i pos : ℕ) (b : BlockEntry) (bs : List BlockEntry) (p : Bytes) (ps : List Bytes)
        → Stored i (b ∷ bs) (p ∷ ps)
        → pos ≤ file_start
        → file_start < pos + length p
        → pos + length (stream (p ∷ ps)) < u64_mod
        → extract_from L S Z r engine file_start file_end i (ranges_from pos (b ∷ bs)) (b ∷ bs) []
          ≡ ok (take (file_end - file_start) (drop (file_start - pos) (stream (p ∷ ps))))
    extract_first i pos b bs p ps (read, sum, size, stored) h k small =
        rw (ranges_from-cons pos b bs p size (omega (arith, length-append p (stream ps))))
          (elim (dec_lt pos file_end) [
            | yes lt ↦
                extract_round i pos (pos + length p) b p (ranges_from (pos + length p) bs) bs [] k
                  lt refl read sum
                ∙ extract_inside (i + 1) (pos + length p) bs ps _ stored k
                    (omega (arith, length-append p (stream ps)))
                ∙ ap ok (
                    cut pos file_start file_end p (stream ps) ordered (omega arith) (omega arith)
                    ∙ take_eq {m = file_end - pos - (file_start - pos)} {n = file_end - file_start}
                        (drop (file_start - pos) (p ++ stream ps)) (omega arith))
            | no ge ↦
                extract_stop i pos (pos + length p) b (ranges_from (pos + length p) bs) bs []
                  (omega arith)
                ∙ ap ok (
                    take_eq {m = 0} {n = file_end - file_start}
                      (drop (file_start - pos) (p ++ stream ps)) (omega arith))
          ])

    -- The loop behind the blocks that `partition_point` skips.
    abbrev skipped : ℕ → List (ℕ × ℕ) → List BlockEntry → Result Bytes
    skipped i ranges bs =
        let k = partition_point file_start ranges in
        extract_from L S Z r engine file_start file_end (i + k) (drop k ranges) (drop k bs) []

    skipped_past :
        (i start end : ℕ) (b : BlockEntry) (ranges : List (ℕ × ℕ)) (bs : List BlockEntry)
        → end ≤ file_start
        → skipped i ((start, end) ∷ ranges) (b ∷ bs) ≡ skipped (i + 1) ranges bs
    unfolding partition_point
    skipped_past i start end b ranges bs h =
        let test : leb end file_start ≡ true = ground arith in
        rw test (
          ap
            (λ (n : ℕ).
              extract_from L S Z r engine file_start file_end n
                (drop (partition_point file_start ranges) ranges)
                (drop (partition_point file_start ranges) bs) [])
            (shift (partition_point file_start ranges)))
      where
        shift : (k : ℕ) → i + suc k ≡ i + 1 + k
        shift k = omega arith

    skipped_none :
        (i start end : ℕ) (b : BlockEntry) (ranges : List (ℕ × ℕ)) (bs : List BlockEntry)
        → file_start < end
        → skipped i ((start, end) ∷ ranges) (b ∷ bs)
          ≡ extract_from L S Z r engine file_start file_end i ((start, end) ∷ ranges) (b ∷ bs) []
    unfolding partition_point
    skipped_none i start end b ranges bs h =
        let test : leb end file_start ≡ false = ground arith in
        rw test (
          ap
            (λ (n : ℕ).
              extract_from L S Z r engine file_start file_end n ((start, end) ∷ ranges) (b ∷ bs) [])
            (shift i))
      where
        shift : (k : ℕ) → k + 0 ≡ k
        shift k = omega arith

    -- From any block on: those in front of the file are skipped.
    extract_skip :
        (i pos : ℕ) (bs : List BlockEntry) (ps : List Bytes)
        → Stored i bs ps
        → pos ≤ file_start
        → pos + length (stream ps) < u64_mod
        → skipped i (ranges_from pos bs) bs
          ≡ ok (take (file_end - file_start) (drop (file_start - pos) (stream ps)))
    extract_skip i pos [] [] stored h small =
        unfold extract_from ranges_from partition_point in
        rw (drop-nil (file_start - pos), take-nil (file_end - file_start)) refl
    extract_skip i pos [] (p ∷ ps) stored h small = absurd stored
    extract_skip i pos (b ∷ bs) [] stored h small = absurd stored
    extract_skip i pos (b ∷ bs) (p ∷ ps) (read, sum, size, stored) h small =
        let fits : pos + length p < u64_mod = omega (arith, length-append p (stream ps)) in
        elim (dec_lt file_start (pos + length p)) [
          | yes lt ↦
              ap (λ (t : List (ℕ × ℕ)). skipped i t (b ∷ bs))
                (ranges_from-cons pos b bs p size fits)
              ∙ skipped_none i pos (pos + length p) b (ranges_from (pos + length p) bs) bs lt
              ∙ ap
                  (λ (t : List (ℕ × ℕ)).
                    extract_from L S Z r engine file_start file_end i t (b ∷ bs) [])
                  (sym (ranges_from-cons pos b bs p size fits))
              ∙ extract_first i pos b bs p ps (read, sum, size, stored) h lt small
          | no ge ↦
              ap (λ (t : List (ℕ × ℕ)). skipped i t (b ∷ bs))
                (ranges_from-cons pos b bs p size fits)
              ∙ skipped_past i pos (pos + length p) b (ranges_from (pos + length p) bs) bs
                  (omega arith)
              ∙ extract_skip (i + 1) (pos + length p) bs ps stored (omega arith)
                  (omega (arith, length-append p (stream ps)))
              ∙ ap (λ (t : Bytes). ok (take (file_end - file_start) t)) (behind p (stream ps) ge)
        ]
      where
        behind :
            (p rest : Bytes)
            → ¬ (file_start < pos + length p)
            → drop (file_start - (pos + length p)) rest ≡ drop (file_start - pos) (p ++ rest)
        behind p rest ge =
            sym (drop-append_right p rest (file_start - (pos + length p)))
            ∙ ap (λ (k : ℕ). drop k (p ++ rest)) {x = length p + (file_start - (pos + length p))}
                {y = file_start - pos} (omega arith)

module _ (L : Compressors) (S : Ciphers) (Z : Serializers) where
  -- If the blocks of the index read back as given plain bytes with their checksums and sizes, a
  -- file whose size is within the limit is cut out of the stream of these bytes at its offset,
  -- wherever the borders of the blocks fall; of a stream that ends early it gets what there is.
  pub extract_bytes-stream :
      (r : ArchiveReader) (f : FileEntry) (engine : DecompressingEngine) (ps : List Bytes)
      → f.size ≤ get_or r.limits.file_size max_file_size
      → f.stream_offset + f.size < u64_mod
      → new_decompressing L r.header.compression ≡ ok engine
      → Stored L S Z r engine 0 r.index.block ps
      → length (stream ps) < u64_mod
      → extract_bytes L S Z r f (build_block_ranges r.index.block)
        ≡ ok (take f.size (drop f.stream_offset (stream ps)))
  unfolding extract_bytes build_block_ranges
  extract_bytes-stream r f engine ps size fits started stored small =
      let test : ltb (get_or r.limits.file_size max_file_size) f.size ≡ false = ground arith in
      let inside : ltb (f.stream_offset + f.size) u64_mod ≡ true = ground arith in
      rw (test, inside, started)
        (from_zero (partition_point f.stream_offset (ranges_from 0 r.index.block)) _ _
          ∙ extract_skip L S Z r engine f.stream_offset (f.stream_offset + f.size) (omega arith) 0 0
              r.index.block ps stored (omega arith) (omega arith)
          ∙ ap ok (
              ap₂ (λ (m n : ℕ). take m (drop n (stream ps)))
                {x = f.stream_offset + f.size - f.stream_offset} {y = f.size}
                {u = f.stream_offset - 0} {v = f.stream_offset} (omega arith) (omega arith)))
    where
      from_zero :
          (k : ℕ) (ranges : List (ℕ × ℕ)) (bs : List BlockEntry)
          → extract_from L S Z r engine f.stream_offset (f.stream_offset + f.size) k ranges bs []
            ≡ extract_from L S Z r engine f.stream_offset
                (f.stream_offset + f.size)
                (0 + k)
                ranges
                bs
                []
      from_zero k ranges bs =
          ap
            (λ (n : ℕ).
              extract_from L S Z r engine f.stream_offset (f.stream_offset + f.size) n ranges bs [])
            (omega arith)
