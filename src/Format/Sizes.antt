-- ===== src/Format/Sizes.antt =====
-- src/format.rs, `Index::total_compressed_size` and `Index::file_compressed_size`: how many stored
-- bytes a listing counts for the archive and for a file.
pub mod Whole
use cryo.Base.{
  ℕ, ◌+◌, ◌-◌, ◌*◌, ◌%◌, ◌^◌, ◌<◌, ◌≤◌, ◌≡◌, min, max, Bool, ◌||◌, List, [], ◌∷◌, leb, ◌==◌,
  if◌then◌else◌,
}
use cryo.Base.Bytes.{u64_mod}
use cryo.Format.{BlockEntry, FileEntry, Index}

-- f64, as far as the program uses it; `to_u64` is `as u64`.
pub record Floats : Type 1 where
  pub F64 : Type 0
  pub zero : F64
  pub of_u64 : ℕ → F64
  pub div : F64 → F64 → F64
  pub mul : F64 → F64 → F64
  pub add : F64 → F64 → F64
  pub to_u64 : F64 → ℕ

-- What IEEE 754 says of whole numbers: those up to 2^53 are exact, with their sums, and a number
-- divided by itself is one.
pub record IsExact (fl : Floats) : Type 0 where
  pub of_u64-zero : fl.of_u64 0 ≡ fl.zero
  pub mul-div_self :
      (n k : ℕ)
      → 0 < n
      → n ≤ 2 ^ 53
      → fl.mul (fl.div (fl.of_u64 n) (fl.of_u64 n)) (fl.of_u64 k) ≡ fl.of_u64 k
  pub add-of_u64 :
      (a b : ℕ) → a + b ≤ 2 ^ 53 → fl.add (fl.of_u64 a) (fl.of_u64 b) ≡ fl.of_u64 (a + b)
  pub to_u64-of_u64 : (n : ℕ) → n ≤ 2 ^ 53 → fl.to_u64 (fl.of_u64 n) ≡ n

-- `a.saturating_add(b)`
abbrev pub saturating_add : ℕ → ℕ → ℕ
saturating_add a b = min (a + b) (u64_mod - 1)

sum_stored : List BlockEntry → ℕ
sum_stored [] = 0
sum_stored (b ∷ blocks) = (b.size_stored + sum_stored blocks) % u64_mod

unfoldable pub total_compressed_size : Index → ℕ
unfolding sum_stored
total_compressed_size idx = sum_stored idx.block

module _ (fl : Floats) (file_start file_end : ℕ) where
  -- One block: what the file has of it.
  unfoldable pub add_share : ℕ → ℕ → BlockEntry → fl.F64 → fl.F64
  add_share block_start block_end b compressed =
      if leb block_end file_start || leb file_end block_start
      then compressed
      else if b.size_plain == 0
      then compressed
      else fl.add compressed (
          fl.mul
            (fl.div (fl.of_u64 (min file_end block_end - max file_start block_start))
              (fl.of_u64 b.size_plain))
            (fl.of_u64 b.size_stored))

  unfoldable pub add_shares : ℕ → List BlockEntry → fl.F64 → fl.F64
  unfolding add_share
  add_shares stream_pos [] compressed = compressed
  add_shares stream_pos (b ∷ blocks) compressed =
      let block_end = (stream_pos + b.size_plain) % u64_mod in
      add_shares block_end blocks (add_share stream_pos block_end b compressed)

unfoldable pub file_compressed_size : Floats → Index → FileEntry → ℕ
unfolding add_shares
file_compressed_size fl idx f =
    if f.size == 0
    then 0
    else fl.to_u64
        (add_shares fl f.stream_offset (saturating_add f.stream_offset f.size) 0 idx.block fl.zero)
