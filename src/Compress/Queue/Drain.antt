-- ===== src/Compress/Queue/Drain.antt =====
-- Draining the queue: the blocks that are on the disk are a beginning of the sequence.
use cryo.Base.{
  ℕ, zero, suc, ◌+◌, ◌≤◌, ◌<◌, ◌≡◌, refl, sym, ap, ◌∙◌, none, some, List, [], ◌∷◌, ◌++◌, arith, ◌%◌,
  length, get_elem?, length-append, append_assoc, Option-cases, ◌⊎◌, inl, inr,
}
use cryo.Base.Bytes.{u64_mod}
use mathlib.Core.Path.{subst}
use cryo.Compress.Queue.{WriterState, write_block, drain}
use cryo.Compress.Queue.Map.{lookup, erase, lookup-erase, length-erase}
use cryo.Errors.{CryoErrors, Result, ok, err, ◌>>=◌, Result-cases}
use cryo.Writer.{ProcessedBlock, ArchiveWriter}

-- The blocks one after the other, with no queue.
unfoldable pub write_blocks : List ProcessedBlock → ArchiveWriter → Result ArchiveWriter
write_blocks [] arch = ok arch
write_blocks (b ∷ bs) arch = write_block b arch >>= write_blocks bs

pub write_blocks-append :
    (xs ys : List ProcessedBlock) (arch : ArchiveWriter)
    → write_blocks (xs ++ ys) arch ≡ (write_blocks xs arch >>= write_blocks ys)
unfolding write_blocks
write_blocks-append [] ys arch = refl
write_blocks-append (b ∷ xs) ys arch = elim (Result-cases (write_block b arch)) [
  | inl (a, e) ↦ rw e (write_blocks-append xs ys a)
  | inr (x, e) ↦ rw e refl
]

at_seam :
    (front rest : List ProcessedBlock) (b : ProcessedBlock)
    → get_elem? (front ++ rest) (length front) ≡ some b
    → (tail : List ProcessedBlock) × (rest ≡ b ∷ tail)
at_seam [] [] b h = cc
at_seam [] (c ∷ tail) b h = (tail, cc)
at_seam (c ∷ front) rest b h = at_seam front rest b h

-- The state behind one round.
abbrev after : WriterState → ArchiveWriter → WriterState
after s arch = record {
  block_queue = erase s.expected_id s.block_queue;
  expected_id = (s.expected_id + 1) % u64_mod;
  arch = arch;
}

drain-none :
    (rounds : ℕ) (s : WriterState)
    → lookup s.expected_id s.block_queue ≡ none
    → drain (suc rounds) s ≡ ok s
unfolding drain
drain-none rounds s e = rw (e, drain)

drain-some :
    (rounds : ℕ) (s : WriterState) (b : ProcessedBlock) (arch : ArchiveWriter)
    → lookup s.expected_id s.block_queue ≡ some b
    → write_block b s.arch ≡ ok arch
    → drain (suc rounds) s ≡ drain rounds (after s arch)
unfolding drain
drain-some rounds s b arch e w = rw (e, drain) (rw w refl)

drain_error :
    (rounds : ℕ) (s : WriterState) (b : ProcessedBlock) (x : CryoErrors)
    → lookup s.expected_id s.block_queue ≡ some b
    → write_block b s.arch ≡ err x
    → drain (suc rounds) s ≡ err x
unfolding drain
drain_error rounds s b x e w = rw (e, drain) (rw w refl)

-- `Has k bs`: a block with the number `k` is among `bs`.
abbrev pub Has : ℕ → List ProcessedBlock → Type 0
Has k [] = ⊥
Has k (b ∷ bs) = (b.id ≡ k) ⊎ Has k bs

-- `seq` is the sequence of all blocks, numbered from `first` on; `received` has come in so far.
module _ (first : ℕ) (start : ArchiveWriter) (seq received : List ProcessedBlock) where
  pub record Progress (s : WriterState) : Type 0 where
    pub written : List ProcessedBlock
    pub rest : List ProcessedBlock
    pub split : seq ≡ written ++ rest
    pub next : s.expected_id ≡ first + length written
    pub on_disk : write_blocks written start ≡ ok s.arch
    pub sound :
        (i : ℕ) (b : ProcessedBlock)
        → lookup (first + i) s.block_queue ≡ some b
        → get_elem? seq i ≡ some b
    pub complete :
        (i : ℕ) (b : ProcessedBlock)
        → length written ≤ i
        → Has (first + i) received
        → get_elem? seq i ≡ some b
        → lookup (first + i) s.block_queue ≡ some b

  -- Either the block that is next is not there, or the sequence cannot be written at all.
  pub data Outcome (r : Result WriterState) : Type 0 where
    advanced :
        (s : WriterState)
        → r ≡ ok s
        → Progress s
        → lookup s.expected_id s.block_queue ≡ none
        → Outcome r
    failed : (e : CryoErrors) → r ≡ err e → write_blocks seq start ≡ err e → Outcome r

  round-Progress :
      (s : WriterState) (p : Progress s) (b : ProcessedBlock) (tail : List ProcessedBlock)
      (arch : ArchiveWriter)
      → first + length seq < u64_mod
      → p.rest ≡ b ∷ tail
      → write_block b s.arch ≡ ok arch
      → Progress (after s arch)
  round-Progress s p b tail arch small e w = record {
    written = p.written ++ (b ∷ []);
    rest = tail;
    split = p.split ∙ rw (e, append_assoc p.written (b ∷ []) tail) refl;
    next = omega (arith, p.next, length-append p.written (b ∷ []), size);
    on_disk =
        write_blocks-append p.written (b ∷ []) start
        ∙ rw p.on_disk (unfold write_blocks in rw w refl);
    sound =
        λ i c h. p.sound i c (ground (arith, lookup-erase (first + i) s.expected_id s.block_queue));
    complete = λ i c le has h. ground (
      arith,
      lookup-erase (first + i) s.expected_id s.block_queue,
      p.complete i c (omega (arith, le, length-append p.written (b ∷ []))) has h,
      p.next,
      le,
      length-append p.written (b ∷ []),
    );
  }
    where
      size : length seq ≡ length p.written + suc (length tail)
      size = ap length p.split ∙ length-append p.written p.rest ∙ rw e refl

  drain_fails :
      (s : WriterState) (p : Progress s) (b : ProcessedBlock) (tail : List ProcessedBlock)
      (x : CryoErrors)
      → p.rest ≡ b ∷ tail
      → write_block b s.arch ≡ err x
      → write_blocks seq start ≡ err x
  drain_fails s p b tail x e w =
      rw (p.split, e)
        (write_blocks-append p.written (b ∷ tail) start
          ∙ rw p.on_disk (unfold write_blocks in rw w refl))

  -- The block that is next, where the queue holds one.
  next_block :
      (s : WriterState) (p : Progress s) (b : ProcessedBlock)
      → lookup s.expected_id s.block_queue ≡ some b
      → (tail : List ProcessedBlock) × (p.rest ≡ b ∷ tail)
  next_block s p b e = at_seam p.written p.rest b (
      ap (λ (t : List ProcessedBlock). get_elem? t (length p.written)) (sym p.split)
      ∙ p.sound (length p.written) b (ap (λ (k : ℕ). lookup k s.block_queue) (sym p.next) ∙ e))

  -- With a round more than the queue has blocks, the queue is drained.
  pub drain-Outcome :
      (rounds : ℕ) (s : WriterState)
      → first + length seq < u64_mod
      → length s.block_queue < rounds
      → Progress s
      → Outcome (drain rounds s)
  drain-Outcome zero s small enough p = absurd (omega arith)
  drain-Outcome (suc rounds) s small enough p =
      elim (Option-cases (lookup s.expected_id s.block_queue)) [
        | inl e ↦ advanced s (drain-none rounds s e) p e
        | inr (b, e) ↦
            let (tail, er) = next_block s p b e in
            elim (Result-cases (write_block b s.arch)) [
              | inl (arch, w) ↦ subst Outcome (sym (drain-some rounds s b arch e w)) (
                  drain-Outcome rounds (after s arch) small
                    (omega (arith, length-erase s.expected_id s.block_queue b e))
                    (round-Progress s p b tail arch small er w))
              | inr (x, w) ↦ failed x (drain_error rounds s b x e w) (drain_fails s p b tail x er w)
            ]
      ]
