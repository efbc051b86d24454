-- ===== src/Loader.antt =====
-- src/loader.rs: reading the header, the footer and the index of an archive under limits.
pub mod RoundTrip
pub mod Reopen
use cryo.Base.{
  ℕ, ◌*◌, Bool, true, false, not, Option, some, none, ltb, ◌==◌, if◌then◌else◌, bytes_eq,
}
use cryo.Base.Bytes.{Bytes, from_le_bytes}
use cryo.Codec.{Cipher, Prompts, new_cipher, decrypt_block}
use cryo.Consts.{
  Limits, magic_bytes, format_version, max_block_size, max_header_size, max_index_size, max_m_cost,
}
use cryo.Disk.{seek_start, seek_end, read_exact}
use cryo.Engine.{new_decompressing, decompress}
use cryo.Errors.{
  Result, ok, err, or_err, reject, ◌>>=◌, ◌>>◌, header_too_large, block_too_large, m_cost_too_large,
  index_too_large, deserialization_failed, not_supported, invalid_magic,
}
use cryo.Externals.{Compressors, Ciphers, Serializers}
use cryo.FilePath.{FilePath}
use cryo.Format.{EncryptedData, index, Index, Header}
use cryo.Format.Footer.{Footer, deserialize}
use mathlib.Core.Option.{get_or}

pub record FileStructs : Type 0 where
  pub header : Header
  pub index : Index
  pub cipher : Cipher
  pub footer : Footer

-- `matches!(c, Cipher::None)`
abbrev pub is_plain : Cipher → Bool
is_plain Cipher.none = true
is_plain (Cipher.aes k) = false
is_plain (Cipher.chacha k) = false

unfoldable pub verify_metadata : Header → Result (Unit {0})
verify_metadata h = do
  reject (not (h.version == format_version)) not_supported
  reject (not (bytes_eq h.magic magic_bytes)) invalid_magic
  ok tt

module _ (L : Compressors) (S : Ciphers) (Z : Serializers) (p : FilePath) (limits : Limits) where
  -- The length prefix and the header, in front.
  unfoldable pub read_header : Bytes → Result Header
  read_header content = do
    header_size_bytes ← read_exact p 0 4 content
    let header_size = from_le_bytes header_size_bytes
    let max_header = get_or limits.header_size max_header_size
    reject (ltb max_header header_size) (header_too_large header_size max_header)
    header_bytes ← read_exact p 4 header_size content
    or_err deserialization_failed (Z.header_from_slice header_bytes)

  unfoldable pub check_header : Header → Result (Unit {0})
  unfolding verify_metadata
  check_header h = do
    verify_metadata h
    let max_block = get_or limits.block_size max_block_size
    reject (ltb max_block h.block_size) (block_too_large h.block_size max_block)
    let max_m = get_or limits.m_cost max_m_cost
    reject (ltb max_m h.argon_params.0) (m_cost_too_large (h.argon_params.0 * 1024) (max_m * 1024))
    ok tt

  -- The last 29 bytes.
  unfoldable pub read_footer : Bytes → Result Footer
  read_footer content = do
    pos ← seek_end p 29 content
    footer_bytes ← read_exact p pos 29 content
    footer ← deserialize footer_bytes
    let max_index = get_or limits.index_size max_index_size
    reject (ltb max_index footer.index_size_stored)
        (index_too_large footer.index_size_stored max_index)
    reject (ltb max_index footer.index_size_plain)
        (index_too_large footer.index_size_plain max_index)
    ok footer

  unseal_index : Cipher → Header → Footer → Bytes → Result Bytes
  unseal_index cipher h footer stored =
      if is_plain cipher
      then ok stored
      else decrypt_block S (index footer.index_nonce) cipher h stored 0

  unpack_index : Header → Footer → Bytes → Result Bytes
  unpack_index h footer bytes =
      if footer.index_compressed
      then (do
        engine ← new_decompressing L h.compression
        decompress L engine bytes footer.index_size_plain)
      else ok bytes

  unfoldable pub read_index : Cipher → Header → Footer → Bytes → Result Index
  unfolding unseal_index unpack_index
  read_index cipher h footer content = do
    pos ← seek_start p footer.index_offset
    stored ← read_exact p pos footer.index_size_stored content
    unsealed ← unseal_index cipher h footer stored
    index_bytes ← unpack_index h footer unsealed
    or_err deserialization_failed (Z.index_from_slice index_bytes)

  -- `FileStructs::retrieve` on the bytes of the file.
  unfoldable pub retrieve : Bool → Prompts → Bytes → Result FileStructs
  retrieve confirm typed content = do
    h ← read_header content
    check_header h
    footer ← read_footer content
    cipher ← new_cipher S h confirm typed
    idx ← read_index cipher h footer content
    ok (record { header = h; index = idx; cipher = cipher; footer = footer })
