-- ===== src/Format/Sizes/Whole.antt =====
-- The stored size of a file that has whole blocks.
use cryo.Base.{
  ℕ, ◌+◌, ◌-◌, ◌%◌, ◌^◌, ◌<◌, ◌≤◌, ◌≡◌, refl, sym, ap, ◌∙◌, min, max, true, List, [], ◌∷◌, ◌++◌,
  ◌||◌, All, arith, leb,
}
use cryo.Base.Bytes.{u64_mod, u32_mod}
use cryo.Format.{BlockEntry, FileEntry, Index}
use cryo.Format.Sizes.{Floats, IsExact, saturating_add, add_share, add_shares, file_compressed_size}

abbrev pub plain_sum : List BlockEntry → ℕ
plain_sum [] = 0
plain_sum (b ∷ bs) = b.size_plain + plain_sum bs

abbrev pub stored_sum : List BlockEntry → ℕ
stored_sum [] = 0
stored_sum (b ∷ bs) = b.size_stored + stored_sum bs

abbrev pub HasBytes : BlockEntry → Type 0
HasBytes b = (0 < b.size_plain) × (b.size_plain < u32_mod)

no_wrap : (n : ℕ) → n < u64_mod → n % u64_mod ≡ n
no_wrap n h = omega arith

min_right : (a b : ℕ) → b ≤ a → min a b ≡ b
min_right a b h = grind arith

min_left : (a b : ℕ) → a ≤ b → min a b ≡ a
min_left a b h = grind arith

max_right : (a b : ℕ) → a ≤ b → max a b ≡ b
max_right a b h = grind arith

module _ (fl : Floats) (file_start file_end : ℕ) where
  -- A block outside the file's range.
  share_outside :
      (s e : ℕ) (b : BlockEntry) (x : fl.F64)
      → leb e file_start || leb file_end s ≡ true
      → add_share fl file_start file_end s e b x ≡ x
  unfolding add_share
  share_outside s e b x h = ground arith

  behind_test : (s e : ℕ) → file_end ≤ s → leb e file_start || leb file_end s ≡ true
  behind_test s e h = ground arith

  shares_before :
      (pos : ℕ) (pre rest : List BlockEntry) (x : fl.F64)
      → pos + plain_sum pre ≤ file_start
      → file_start < u64_mod
      → add_shares fl file_start file_end pos (pre ++ rest) x
        ≡ add_shares fl file_start file_end (pos + plain_sum pre) rest x
  unfolding add_shares
  shares_before pos [] rest x h lt =
      ap (λ (p : ℕ). add_shares fl file_start file_end p rest x) (omega arith)
  shares_before pos (b ∷ pre) rest x h lt =
      ap
        (λ (e : ℕ).
          add_shares fl file_start file_end e (pre ++ rest)
            (add_share fl file_start file_end pos e b x))
        (no_wrap (pos + b.size_plain) (omega arith))
      ∙ ap (add_shares fl file_start file_end (pos + b.size_plain) (pre ++ rest))
          (share_outside pos (pos + b.size_plain) b x (ground arith))
      ∙ shares_before (pos + b.size_plain) pre rest x (omega arith) lt
      ∙ ap (λ (p : ℕ). add_shares fl file_start file_end p rest x) (omega arith)

  shares_behind :
      (pos : ℕ) (post : List BlockEntry) (x : fl.F64)
      → file_end ≤ pos
      → pos + plain_sum post < u64_mod
      → add_shares fl file_start file_end pos post x ≡ x
  unfolding add_shares
  shares_behind pos [] x h lt = refl
  shares_behind pos (b ∷ post) x h lt =
      ap
        (λ (e : ℕ).
          add_shares fl file_start file_end e post (add_share fl file_start file_end pos e b x))
        (no_wrap (pos + b.size_plain) (omega arith))
      ∙ ap (add_shares fl file_start file_end (pos + b.size_plain) post)
          (share_outside pos (pos + b.size_plain) b x (behind_test pos (pos + b.size_plain) h))
      ∙ shares_behind (pos + b.size_plain) post x (omega arith) (omega arith)

  -- A block inside it counts with all its bytes.
  share_inside :
      IsExact fl
      → (s : ℕ) (b : BlockEntry) (a : ℕ) → HasBytes b
      → file_start ≤ s
      → s + b.size_plain ≤ file_end
      → a + b.size_stored ≤ 2 ^ 53
      → add_share fl file_start file_end s (s + b.size_plain) b (fl.of_u64 a)
        ≡ fl.of_u64 (a + b.size_stored)
  unfolding add_share
  share_inside exact s b a (pos, lt) h k small =
      inside_tests
      ∙ ap
          (λ (n : ℕ).
            fl.add (fl.of_u64 a)
              (fl.mul (fl.div (fl.of_u64 n) (fl.of_u64 b.size_plain)) (fl.of_u64 b.size_stored)))
          overlap
      ∙ ap (fl.add (fl.of_u64 a)) (exact.mul-div_self b.size_plain b.size_stored pos (omega arith))
      ∙ exact.add-of_u64 a b.size_stored small
    where
      overlap : min file_end (s + b.size_plain) - max file_start s ≡ b.size_plain
      overlap =
          ap (λ (n : ℕ). n - max file_start s) (min_right file_end (s + b.size_plain) k)
          ∙ ap (λ (n : ℕ). s + b.size_plain - n) (max_right file_start s h)
          ∙ omega arith

      inside_tests :
          add_share fl file_start file_end s (s + b.size_plain) b (fl.of_u64 a)
          ≡ fl.add (fl.of_u64 a) (
              fl.mul
                (fl.div
                  (fl.of_u64 (min file_end (s + b.size_plain) - max file_start s))
                  (fl.of_u64 b.size_plain))
                (fl.of_u64 b.size_stored))
      inside_tests = ground arith

  shares_inside :
      IsExact fl
      → (s : ℕ) (mid post : List BlockEntry) (a : ℕ) → All HasBytes mid
      → file_start ≤ s
      → s + plain_sum mid ≤ file_end
      → file_end < u64_mod
      → a + stored_sum mid ≤ 2 ^ 53
      → add_shares fl file_start file_end s (mid ++ post) (fl.of_u64 a)
        ≡ add_shares fl file_start file_end
            (s + plain_sum mid)
            post
            (fl.of_u64 (a + stored_sum mid))
  unfolding add_shares
  shares_inside exact s [] post a has h k lt small =
      ap (λ (p : ℕ). add_shares fl file_start file_end p post (fl.of_u64 a)) (omega arith)
      ∙ ap (λ (n : ℕ). add_shares fl file_start file_end (s + 0) post (fl.of_u64 n)) (omega arith)
  shares_inside exact s (b ∷ mid) post a has h k lt small =
      ap
        (λ (e : ℕ).
          add_shares fl file_start file_end e (mid ++ post)
            (add_share fl file_start file_end s e b (fl.of_u64 a)))
        (no_wrap (s + b.size_plain) (omega arith))
      ∙ ap (add_shares fl file_start file_end (s + b.size_plain) (mid ++ post))
          (share_inside exact s b a has.0 h (omega arith) (omega arith))
      ∙ shares_inside exact (s + b.size_plain) mid post (a + b.size_stored) has.1 (omega arith)
          (omega arith) lt (omega arith)
      ∙ ap
          (λ (p : ℕ).
            add_shares fl file_start file_end p post
              (fl.of_u64 (a + b.size_stored + stored_sum mid)))
          (omega arith)
      ∙ ap
          (λ (n : ℕ).
            add_shares fl file_start file_end (s + plain_sum (b ∷ mid)) post (fl.of_u64 n))
          (omega arith)

module _ (fl : Floats) (exact : IsExact fl) where
  all_shares :
      (pre mid post : List BlockEntry) (start end : ℕ)
      → start ≡ plain_sum pre
      → end ≡ plain_sum pre + plain_sum mid
      → All HasBytes mid
      → plain_sum pre + plain_sum mid + plain_sum post < u64_mod
      → stored_sum mid ≤ 2 ^ 53
      → add_shares fl start end 0 (pre ++ (mid ++ post)) fl.zero ≡ fl.of_u64 (stored_sum mid)
  all_shares pre mid post start end s e has lt small =
      ap (add_shares fl start end 0 (pre ++ (mid ++ post))) (sym exact.of_u64-zero)
      ∙ shares_before fl start end 0 pre (mid ++ post) (fl.of_u64 0) (omega arith) (omega arith)
      ∙ shares_inside fl start end exact (0 + plain_sum pre) mid post 0 has (omega arith)
          (omega arith) (omega arith) (omega arith)
      ∙ shares_behind fl start end (0 + plain_sum pre + plain_sum mid) post
          (fl.of_u64 (0 + stored_sum mid)) (omega arith) (omega arith)
      ∙ ap fl.of_u64 (omega arith)

  not_empty :
      (idx : Index) (f : FileEntry)
      → 0 < f.size
      → file_compressed_size fl idx f
        ≡ fl.to_u64 (
            add_shares fl f.stream_offset
              (saturating_add f.stream_offset f.size)
              0
              idx.block
              fl.zero)
  unfolding file_compressed_size
  not_empty idx f h = ground arith

  -- Let a file's range in the stream be exactly that of some whole blocks that follow each other,
  -- none of them empty. Then the compressed size that a listing shows for it is the sum of the
  -- stored sizes of these blocks, not more and not less: f64 loses nothing up to 2^53. All plain
  -- sizes add up to less than 2^64, and each block's to less than 2^32.
  pub file_compressed_size-whole :
      (idx : Index) (f : FileEntry) (pre mid post : List BlockEntry)
      → idx.block ≡ pre ++ (mid ++ post)
      → f.stream_offset ≡ plain_sum pre
      → f.size ≡ plain_sum mid
      → All HasBytes mid
      → plain_sum pre + plain_sum mid + plain_sum post < u64_mod
      → stored_sum mid ≤ 2 ^ 53
      → file_compressed_size fl idx f ≡ stored_sum mid
  unfolding file_compressed_size
  file_compressed_size-whole idx f pre [] post blocks offset size has lt small = ground arith
  file_compressed_size-whole idx f pre (b ∷ mid) post blocks offset size has lt small =
      not_empty idx f (omega arith)
      ∙ ap
          (λ (bs : List BlockEntry).
            fl.to_u64
              (add_shares fl f.stream_offset (saturating_add f.stream_offset f.size) 0 bs fl.zero))
          blocks
      ∙ ap fl.to_u64 (
          all_shares pre (b ∷ mid) post f.stream_offset (saturating_add f.stream_offset f.size)
            offset (min_left (f.stream_offset + f.size) (u64_mod - 1) (omega arith) ∙ omega arith)
            has lt small)
      ∙ exact.to_u64-of_u64 (stored_sum (b ∷ mid)) small
