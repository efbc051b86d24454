-- ===== src/Listing/Columns.antt =====
-- src/list.rs: the labels and the numbers that the tables have in common.
use cryo.Base.{ℕ, ◌*◌, ◌/◌, ◌-◌, min, Option, none, some, ◌++◌, ◌==◌, if◌then◌else◌}
use cryo.Base.Bytes.{u64_mod}
use cryo.Base.Text.{Text, codes, decimal}
use cryo.Engine.Algo.{Compressor}
use cryo.Format.{Header, EncryptionType, FileType, FileEntry, Index}
use cryo.Format.Sizes.{Floats, file_compressed_size}
use mathlib.Core.Option.{get_or}

unfoldable pub algo_name : Compressor → Text
algo_name Compressor.zstd = codes "zstd"
algo_name Compressor.xz = codes "xz"
algo_name Compressor.deflate = codes "deflate"
algo_name Compressor.none = codes "none"

unfoldable pub compression_label : Header → Text
unfolding algo_name
compression_label h = elim h.compression [
  | Compressor.none ↦ algo_name h.compression
  | other ↦
      algo_name h.compression ++ (codes " (level " ++ (decimal h.compression_level ++ codes ")"))
]

unfoldable pub encryption_label : EncryptionType → Text
encryption_label EncryptionType.aes = codes "AES-256-GCM"
encryption_label EncryptionType.cha_cha = codes "ChaCha20-Poly1305"
encryption_label EncryptionType.none = codes "none"

unfoldable pub type_label : FileType → Text
type_label FileType.file = codes "file"
type_label FileType.dir = codes "dir"
type_label FileType.symlink = codes "link"

-- `part.saturating_mul(100).checked_div(whole)`
unfoldable pub percent : ℕ → ℕ → Option ℕ
percent part whole = if whole == 0 then none else some (min (part * 100) (u64_mod - 1) / whole)

-- Size, compressed size and ratio.
unfoldable pub sizes_of : Floats → Index → FileEntry → ℕ × ℕ × ℕ
unfolding percent
sizes_of fl idx f = elim f.ftype [
  | FileType.file ↦
      let c = file_compressed_size fl idx f in (f.size, c, get_or (percent c f.size) 0)
  | other ↦ (0, 0, 0)
]
