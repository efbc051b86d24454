-- ===== src/Compress/Queue/Order.antt =====
-- Whatever order the blocks come in, the archive is the one that they give in the order of their
-- numbers.
use mathlib.Core.List.{Permᴰ}
use mathlib.Core.Path.{subst}
use cryo.Base.{
  ℕ, zero, suc, ◌+◌, ◌<◌, ◌≡◌, refl, sym, ap, ◌∙◌, none, some, List, [], ◌∷◌, ◌++◌, map, arith,
  length, get_elem?, All, append-nil, append_assoc, length-append, ◌⊎◌, inl, inr,
}
use cryo.Base.Perms.{All-Permᴰ}
use cryo.Base.Bytes.{Bytes, u64_mod}
use cryo.Compress.Queue.{WriterState, accept, close, receive, writer}
use cryo.Compress.Queue.Drain.{
  write_blocks, Has, Progress, Outcome, advanced, failed, drain-Outcome,
}
use cryo.Compress.Queue.Map.{lookup, lookup-insert}
use cryo.Errors.{ok, ◌>>=◌}
use cryo.Externals.{Compressors, Ciphers, Serializers}
use cryo.Format.{FileEntry}
use cryo.Writer.{ProcessedBlock, block, finalize, ArchiveWriter}

-- Consecutive numbers from `k` on.
abbrev pub Numbered : ℕ → List ProcessedBlock → Type 0
Numbered k [] = Unit
Numbered k (b ∷ bs) = (b.id ≡ k) × Numbered (k + 1) bs

get_elem?-append :
    (xs ys : List ProcessedBlock) (b : ProcessedBlock)
    → get_elem? (xs ++ (b ∷ ys)) (length xs) ≡ some b
get_elem?-append [] ys b = refl
get_elem?-append (x ∷ xs) ys b = get_elem?-append xs ys b

module _ (first : ℕ) (seq : List ProcessedBlock) where
  -- A block that stands in the sequence at its number.
  pub record Belongs (b : ProcessedBlock) : Type 0 where
    pub place : ℕ
    pub number : b.id ≡ first + place
    pub there : get_elem? seq place ≡ some b

  here : (i : ℕ) (b : ProcessedBlock) (w : Belongs b) → w.place ≡ i → get_elem? seq i ≡ some b
  here i b w e = ap (get_elem? seq) (sym e) ∙ w.there

module _ (first : ℕ) (start : ArchiveWriter) (seq : List ProcessedBlock) where
  accept-Outcome :
      (received : List ProcessedBlock) (s : WriterState) (b : ProcessedBlock)
      → first + length seq < u64_mod
      → Belongs first seq b
      → Progress first start seq received s
      → Outcome first start seq (b ∷ received) (accept b s)
  unfolding accept
  accept-Outcome received s b small w p =
      drain-Outcome first start seq (b ∷ received) _ _ small (omega arith) (record {
        written = p.written;
        rest = p.rest;
        split = p.split;
        next = p.next;
        on_disk = p.on_disk;
        sound = λ i c h. ground (
          arith,
          lookup-insert (first + i) b.id b s.block_queue,
          w.number,
          here first seq i b w,
          p.sound i c,
        );
        complete = λ i c le has h. ground (
          arith,
          lookup-insert (first + i) b.id b s.block_queue,
          w.number,
          here first seq i b w,
          p.complete i c le,
        );
      })

  -- At the end nothing is left: what is not on the disk would still be next.
  nothing_left :
      (received : List ProcessedBlock) (s : WriterState) (p : Progress first start seq received s)
      (rest : List ProcessedBlock)
      → p.rest ≡ rest
      → lookup s.expected_id s.block_queue ≡ none
      → ((i : ℕ) → i < length seq → Has (first + i) received)
      → write_blocks seq start ≡ ok s.arch
  nothing_left received s p [] e empty all =
      ap (λ (t : List ProcessedBlock). write_blocks t start)
        (p.split ∙ ap (λ (t : List ProcessedBlock). p.written ++ t) e ∙ append-nil p.written)
      ∙ p.on_disk
  nothing_left received s p (b ∷ tail) e empty all =
      let split : seq ≡ p.written ++ (b ∷ tail) =
        p.split ∙ ap (λ (t : List ProcessedBlock). p.written ++ t) e in
      let there : get_elem? seq (length p.written) ≡ some b =
        ap (λ (t : List ProcessedBlock). get_elem? t (length p.written)) split
        ∙ get_elem?-append p.written tail b in
      let inside : length p.written < length seq =
        omega (arith, ap length split, length-append p.written (b ∷ tail)) in
      let held =
        p.complete (length p.written) b (omega arith) (all (length p.written) inside) there in
      let next = ap (λ (k : ℕ). lookup k s.block_queue) p.next in cc

  module _ (L : Compressors) (S : Ciphers) (Z : Serializers) (nonce : Bytes) where
    receive-order :
        (received coming : List ProcessedBlock) (files : List FileEntry) (total : ℕ)
        (s : WriterState)
        → first + length seq < u64_mod
        → All (Belongs first seq) coming
        → ((i : ℕ) → i < length seq → Has (first + i) coming ⊎ Has (first + i) received)
        → Progress first start seq received s
        → lookup s.expected_id s.block_queue ≡ none
        → receive L S Z nonce (map block coming ++ (finalize files total ∷ [])) s
          ≡ (write_blocks seq start >>= close L S Z nonce files total)
    unfolding receive
    receive-order received [] files total s small all covered p empty = rw (
        nothing_left received s p p.rest refl empty
          (λ i lt. elim (covered i lt) [ inl h ↦ absurd h | inr h ↦ h ]))
    receive-order received (b ∷ coming) files total s small (w, all) covered p empty =
        elim (accept-Outcome received s b small w p) [
          | advanced s' e p' empty' ↦ rw e (
              receive-order (b ∷ received) coming files total s' small all
                (λ i lt. elim (covered i lt) [
                  | inl (inl h) ↦ inr (inl h)
                  | inl (inr h) ↦ inl h
                  | inr h ↦ inr (inr h)
                ])
                p' empty')
          | failed x e f ↦ rw (e, f)
        ]

-- A reordering keeps which numbers there are.
Has-Permᴰ : (k : ℕ) {xs ys : List ProcessedBlock} → Permᴰ xs ys → Has k ys → Has k xs
Has-Permᴰ k Permᴰ.nil h = h
Has-Permᴰ k (Permᴰ.cons e p) (inl h) = inl (ap (λ (b : ProcessedBlock). b.id) e ∙ h)
Has-Permᴰ k (Permᴰ.cons e p) (inr h) = inr (Has-Permᴰ k p h)
Has-Permᴰ k (Permᴰ.swap e f) (inl h) = inr (inl (ap (λ (b : ProcessedBlock). b.id) f ∙ h))
Has-Permᴰ k (Permᴰ.swap e f) (inr (inl h)) = inl (ap (λ (b : ProcessedBlock). b.id) e ∙ h)
Has-Permᴰ k (Permᴰ.swap e f) (inr (inr h)) = inr (inr h)
Has-Permᴰ k (Permᴰ.trans p q) h = Has-Permᴰ k p (Has-Permᴰ k q h)

pub All-Belongs :
    (first : ℕ) (front rest : List ProcessedBlock)
    → Numbered (first + length front) rest
    → All (Belongs first (front ++ rest)) rest
All-Belongs first front [] h = tt
All-Belongs first front (b ∷ rest) (e, h) = (
  record { place = length front; number = e; there = get_elem?-append front rest b },
  subst (λ (t : List ProcessedBlock). All (Belongs first t) rest) (append_assoc front (b ∷ []) rest)
      (All-Belongs first (front ++ (b ∷ [])) rest
        (subst (λ (k : ℕ). Numbered k rest) (omega (arith, length-append front (b ∷ []))) h)),
)

Numbered-Has :
    (first i : ℕ) (seq : List ProcessedBlock)
    → Numbered first seq
    → i < length seq
    → Has (first + i) seq
Numbered-Has first i [] h lt = absurd (omega arith)
Numbered-Has first zero (b ∷ seq) (e, h) lt = inl (omega arith)
Numbered-Has first (suc i) (b ∷ seq) (e, h) lt =
    inr
      (subst (λ (k : ℕ). Has k seq) (omega arith) (Numbered-Has (first + 1) i seq h (omega arith)))

module _ (L : Compressors) (S : Ciphers) (Z : Serializers) (nonce : Bytes) where
  -- If blocks are numbered on from the blocks that the index has, with numbers below 2^64, and
  -- come in any order before the final message, the writer gives what writing them by their
  -- numbers and then finishing gives: the same archive, or the same error.
  pub writer-order :
      (received seq : List ProcessedBlock) (files : List FileEntry) (total : ℕ)
      (start : ArchiveWriter)
      → length start.index.block + length seq < u64_mod
      → Numbered (length start.index.block) seq
      → Permᴰ received seq
      → writer L S Z nonce (map block received ++ (finalize files total ∷ [])) start
        ≡ (write_blocks seq start >>= close L S Z nonce files total)
  unfolding writer
  writer-order received seq files total start small numbered perm =
      let first = length start.index.block in
      receive-order first start seq L S Z nonce [] received files total _ small
        (All-Permᴰ (Belongs first seq) perm
          (All-Belongs first [] seq (subst (λ (k : ℕ). Numbered k seq) (omega arith) numbered)))
        (λ i lt. inl (Has-Permᴰ (first + i) perm (Numbered-Has first i seq numbered lt)))
        (record {
          written = [];
          rest = seq;
          split = refl;
          next = omega arith;
          on_disk = unfold write_blocks in refl;
          sound = λ i b h. unfold lookup in cc;
          complete = λ i b le has h. absurd has;
        })
        (unfold lookup in refl)
