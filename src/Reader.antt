-- ===== src/Reader.antt =====
-- src/reader.rs: reading blocks back, checking them, and cutting files out of them.
pub mod Slices
pub mod Blocks
pub mod Grown
pub mod Inputs
pub mod Made
pub mod Parts
pub mod Restore
pub mod Verify
use cryo.Base.{
  ℕ, ◌+◌, ◌-◌, ◌%◌, min, suc, Bool, true, false, not, ◌||◌, Option, none, some, List, [], ◌∷◌, ◌++◌,
  ltb, leb, ◌==◌, if◌then◌else◌, length, slice, drop, bytes_eq,
}
use cryo.Base.Bytes.{Bytes, u64_mod}
use cryo.Codec.{Cipher, Prompts, u64_max, decrypt_block}
use cryo.Consts.{Limits, max_file_size, stored_block_overhead}
use cryo.Disk.{seek_start, read_exact}
use cryo.Engine.{DecompressingEngine, new_decompressing, decompress}
use cryo.Errors.{
  Result, ok, err, or_err, reject, ◌>>=◌, ◌>>◌, block_too_large, file_too_large,
  decompression_error, deserialization_failed, checksum_mismatch,
}
use cryo.Externals.{Compressors, Ciphers, Serializers}
use cryo.FilePath.{FilePath}
use cryo.Format.{block, BlockEntry, FileEntry, Index, Header}
use cryo.Loader.{is_plain, retrieve}
use mathlib.Core.Option.{get_or}

-- The archive that is read: `content` is what its file holds.
pub record ArchiveReader : Type 0 where
  pub root : FilePath
  pub path : FilePath
  pub content : Bytes
  pub index : Index
  pub header : Header
  pub cipher : Cipher
  pub limits : Limits

-- `ArchiveReader::new` on the bytes of the file.
unfoldable pub new_reader :
    Compressors
    → Ciphers
    → Serializers
    → FilePath
    → FilePath
    → Limits
    → Bool
    → Prompts
    → Bytes
    → Result ArchiveReader
new_reader L S Z p out limits confirm typed content = do
  structs ← retrieve L S Z p limits confirm typed content
  ok (record {
    root = out;
    path = p;
    content = content;
    index = structs.index;
    header = structs.header;
    cipher = structs.cipher;
    limits = limits;
  })

-- `a.saturating_add(b)` and `a.checked_add(b)` on u64.
abbrev pub saturating_add : ℕ → ℕ → ℕ
saturating_add a b = min (a + b) u64_max

abbrev pub checked_add : ℕ → ℕ → Option ℕ
checked_add a b = if ltb (a + b) u64_mod then some (a + b) else none

-- `build_block_ranges`, from a stream position on.
unfoldable pub ranges_from : ℕ → List BlockEntry → List (ℕ × ℕ)
ranges_from start [] = []
ranges_from start (b ∷ blocks) =
    let end = (start + b.size_plain) % u64_mod in (start, end) ∷ ranges_from end blocks

unfoldable pub build_block_ranges : List BlockEntry → List (ℕ × ℕ)
unfolding ranges_from
build_block_ranges blocks = ranges_from 0 blocks

-- `blocks.partition_point(|(_, end)| *end <= file_start)`: the ends never fall, so the point is
-- behind the blocks in front for which the test holds.
unfoldable pub partition_point : ℕ → List (ℕ × ℕ) → ℕ
partition_point file_start [] = 0
partition_point file_start ((start, end) ∷ ranges) =
    let more = partition_point file_start ranges in if leb end file_start then suc more else 0

module _ (L : Compressors) (S : Ciphers) (Z : Serializers) where
  check_sizes : Header → BlockEntry → Result (Unit {0})
  check_sizes h b = do
    reject (ltb h.block_size b.size_plain) (block_too_large b.size_plain h.block_size)
    let max_stored = saturating_add h.block_size stored_block_overhead
    reject (ltb max_stored b.size_stored) (block_too_large b.size_stored max_stored)
    ok tt

  read_stored : FilePath → Bytes → BlockEntry → Result Bytes
  read_stored p content b = do pos ← seek_start p b.offset; read_exact p pos b.size_stored content

  unpack : DecompressingEngine → BlockEntry → Bytes → Result Bytes
  unpack engine b decrypted =
      if b.is_compressed then decompress L engine decrypted b.size_plain else ok decrypted

  unseal : ArchiveReader → BlockEntry → ℕ → Bytes → Result Bytes
  unseal r b num stored =
      if is_plain r.cipher
      then ok stored
      else decrypt_block S (block b.nonce) r.cipher r.header stored num

  unfoldable pub read_block : ArchiveReader → BlockEntry → ℕ → DecompressingEngine → Result Bytes
  unfolding check_sizes read_stored unpack unseal
  read_block r b num engine = do
    check_sizes r.header b
    stored ← read_stored r.path r.content b
    decrypted ← unseal r b num stored
    plain ← unpack engine b decrypted
    reject (not (length plain == b.size_plain)) decompression_error
    ok plain

  -- One round of the loop of `verify`.
  unfoldable pub verify_block :
      FilePath → ArchiveReader → BlockEntry → ℕ → DecompressingEngine → Result (Unit {0})
  unfolding check_sizes read_stored unpack
  verify_block p r b num engine = do
    check_sizes r.header b
    stored ← read_stored p r.content b
    decrypted ← decrypt_block S (block b.nonce) r.cipher r.header stored num
    plain ← unpack engine b decrypted
    reject (not (bytes_eq (Z.blake3_hash plain) b.checksum)) checksum_mismatch
    ok tt

  unfoldable pub verify_from :
      FilePath → ArchiveReader → DecompressingEngine → ℕ → List BlockEntry → Result (Unit {0})
  verify_from p r engine i [] = ok tt
  verify_from p r engine i (b ∷ blocks) = do
    verify_block p r b i engine
    verify_from p r engine (i + 1) blocks

  -- `verify`
  unfoldable pub verify : FilePath → ArchiveReader → Result (Unit {0})
  verify p r = do
    engine ← new_decompressing L r.header.compression
    verify_from p r engine 0 r.index.block

  -- The loop of `extract_file` over the blocks from number `i` on; `out` is what is written so far.
  unfoldable pub extract_from :
      ArchiveReader
      → DecompressingEngine
      → ℕ
      → ℕ
      → ℕ
      → List (ℕ × ℕ)
      → List BlockEntry
      → Bytes
      → Result Bytes
  extract_from r engine file_start file_end i ((start, end) ∷ ranges) (b ∷ blocks) out =
      if leb end file_start || leb file_end start then ok out else (do
        let take_start = file_start - start
        let take_end = min file_end end - start
        plain ← read_block r b i engine
        reject (not (bytes_eq (Z.blake3_hash plain) b.checksum)) decompression_error
        reject (ltb take_end take_start || ltb (length plain) take_end) decompression_error
        extract_from r engine file_start file_end (i + 1) ranges blocks
            (out ++ slice take_start take_end plain))
  extract_from r engine file_start file_end i _ _ out = ok out

  -- In front: the limit on the size, and the end of the file in the stream.
  unfoldable pub check_range : ArchiveReader → FileEntry → Result ℕ
  check_range r f = do
    let max_file = get_or r.limits.file_size max_file_size
    reject (ltb max_file f.size) (file_too_large f.size max_file)
    or_err deserialization_failed (checked_add f.stream_offset f.size)

  -- What is written for a regular file.
  unfoldable pub extract_content : ArchiveReader → FileEntry → ℕ → List (ℕ × ℕ) → Result Bytes
  extract_content r f file_end blocks = do
    let first = partition_point f.stream_offset blocks
    engine ← new_decompressing L r.header.compression
    extract_from r engine f.stream_offset file_end first (drop first blocks)
        (drop first r.index.block) []

  -- The bytes that `extract_file` gives a regular file.
  unfoldable pub extract_bytes : ArchiveReader → FileEntry → List (ℕ × ℕ) → Result Bytes
  unfolding check_range extract_content
  extract_bytes r f blocks = do file_end ← check_range r f; extract_content r f file_end blocks
