-- ===== src/Reader/Grown.antt =====
-- An archive that has grown behind its blocks: what was stored is still there.
use mathlib.Core.Path.{subst}
use cryo.Base.{
  ℕ, ◌+◌, ◌≤◌, ◌≡◌, refl, sym, ap, ◌∙◌, List, [], ◌∷◌, ◌++◌, All, arith, length, length-append,
  slice-append_left, true, leb, append_assoc, not, ◌==◌,
}
use cryo.Base.Bytes.{Bytes}
use cryo.Disk.{read_exact, seek_start}
use cryo.Engine.{DecompressingEngine}
use cryo.Errors.{ok, Result, ◌>>=◌, ◌>>◌, reject, decompression_error}
use cryo.Externals.{Compressors, Ciphers, Serializers}
use cryo.FilePath.{FilePath}
use cryo.Format.{BlockEntry, Index}
use cryo.Reader.{ArchiveReader, read_block, read_stored, check_sizes, unseal, unpack}
use cryo.Reader.Slices.{stream, Stored}

-- The block's bytes lie in front of `n`.
abbrev pub EndsBy : ℕ → BlockEntry → Type 0
EndsBy n b = b.offset + b.size_stored ≤ n

-- The same archive, with other bytes and another index.
abbrev pub grown : ArchiveReader → Bytes → Index → ArchiveReader
grown r content idx = record r { content = content; index = idx }

-- What is read in front does not depend on what stands behind.
read_exact-front :
    (p : FilePath) (front tail tail' : Bytes) (pos n : ℕ)
    → pos + n ≤ length front
    → read_exact p pos n (front ++ tail) ≡ read_exact p pos n (front ++ tail')
unfolding read_exact
read_exact-front p front tail tail' pos n h =
    let inside : leb (pos + n) (length (front ++ tail)) ≡ true =
      ground (arith, length-append front tail) in
    let inside' : leb (pos + n) (length (front ++ tail')) ≡ true =
      ground (arith, length-append front tail') in
    rw (inside, inside')
      (ap ok (
        slice-append_left pos (pos + n) front tail (omega arith) h
        ∙ sym (slice-append_left pos (pos + n) front tail' (omega arith) h)))

module _ (L : Compressors) (S : Ciphers) (Z : Serializers) (r : ArchiveReader)
    (engine : DecompressingEngine) (content : Bytes) (idx : Index) (front tail tail' : Bytes)
    (old : r.content ≡ front ++ tail) (new : content ≡ front ++ tail') where
  read_stored-grown :
      (b : BlockEntry)
      → EndsBy (length front) b
      → read_stored L S Z r.path content b ≡ read_stored L S Z r.path r.content b
  unfolding read_stored seek_start
  read_stored-grown b h =
      let same =
        ap (read_exact r.path b.offset b.size_stored) new
        ∙ read_exact-front r.path front tail' tail b.offset b.size_stored h
        ∙ ap (read_exact r.path b.offset b.size_stored) (sym old) in
      ground (arith, same)

  read_block-grown :
      (b : BlockEntry) (i : ℕ)
      → EndsBy (length front) b
      → read_block L S Z (grown r content idx) b i engine ≡ read_block L S Z r b i engine
  unfolding read_block unseal
  read_block-grown b i h =
      ap
        (λ (x : Result Bytes).
          check_sizes L S Z r.header b
          >> (x >>= λ stored. unseal L S Z r b i stored >>= λ decrypted.
              unpack L S Z engine b decrypted >>= λ plain.
              reject (not (length plain == b.size_plain)) decompression_error >> ok plain))
        (read_stored-grown b h)

  -- Blocks that are stored in front are stored in the grown archive, with the same bytes.
  pub Stored-grown :
      (i : ℕ) (bs : List BlockEntry) (ps : List Bytes)
      → All (EndsBy (length front)) bs
      → Stored L S Z r engine i bs ps
      → Stored L S Z (grown r content idx) engine i bs ps
  Stored-grown i [] [] h stored = tt
  Stored-grown i [] (p ∷ ps) h stored = absurd stored
  Stored-grown i (b ∷ bs) [] h stored = absurd stored
  Stored-grown i (b ∷ bs) (p ∷ ps) h (read, sum, size, stored) =
      (read_block-grown b i h.0 ∙ read, sum, size, Stored-grown (i + 1) bs ps h.1 stored)

module _ (L : Compressors) (S : Ciphers) (Z : Serializers) (r : ArchiveReader)
    (engine : DecompressingEngine) where
  pub Stored-append :
      (i : ℕ) (bs cs : List BlockEntry) (ps qs : List Bytes)
      → Stored L S Z r engine i bs ps
      → Stored L S Z r engine (i + length bs) cs qs
      → Stored L S Z r engine i (bs ++ cs) (ps ++ qs)
  Stored-append i [] cs [] qs h k = subst (λ (n : ℕ). Stored L S Z r engine n cs qs) (omega arith) k
  Stored-append i [] cs (p ∷ ps) qs h k = absurd h
  Stored-append i (b ∷ bs) cs [] qs h k = absurd h
  Stored-append i (b ∷ bs) cs (p ∷ ps) qs (read, sum, size, stored) k = (
    read,
    sum,
    size,
    Stored-append (i + 1) bs cs ps qs stored
        (subst (λ (n : ℕ). Stored L S Z r engine n cs qs) (omega arith) k),
  )

pub stream-append : (ps qs : List Bytes) → stream (ps ++ qs) ≡ stream ps ++ stream qs
stream-append [] qs = refl
stream-append (p ∷ ps) qs =
    ap (λ (t : Bytes). p ++ t) (stream-append ps qs) ∙ sym (append_assoc p (stream ps) (stream qs))
