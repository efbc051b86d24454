-- ===== src/Loader/RoundTrip.antt =====
-- What `finish` wrote, `retrieve` reads.
use cryo.Base.{
  ◌≤◌, ◌<◌, ◌≡◌, refl, sym, ap, ◌∙◌, ◌++◌, [], ◌%◌, true, some, arith, length, bytes_eq,
  append_assoc, append-nil,
}
use cryo.Base.Bytes.{
  Bytes, u32_mod, to_le_bytes, from_le_bytes, length-to_le_bytes, from_le_bytes-to_le_bytes,
}
use cryo.Consts.{
  Limits, max_header_size, max_index_size, max_block_size, max_m_cost, format_version, magic_bytes,
}
use cryo.Disk.{read_exact}
use cryo.Disk.Laws.{read_exact-part, seek_end-part}
use cryo.Errors.{ok}
use cryo.Externals.{Compressors, Ciphers, Serializers}
use cryo.FilePath.{FilePath}
use cryo.Format.{Header}
use cryo.Format.Footer.{Footer, IsFooter, serialize}
use cryo.Format.Footer.RoundTrip.{deserialize-serialize, length-serialize}
use cryo.Loader.{read_header, check_header, read_footer}
use cryo.Writer.{header_part}
use mathlib.Core.Option.{get_or}

module _ (L : Compressors) (S : Ciphers) (Z : Serializers) (p : FilePath) (limits : Limits) where
  -- A header in front of anything is read back if it fits its limit.
  pub read_header-header_part :
      (h : Header) (header_bytes rest : Bytes)
      → Z.header_from_slice header_bytes ≡ some h
      → length header_bytes ≤ get_or limits.header_size max_header_size
      → length header_bytes < u32_mod
      → read_header L S Z p limits (header_part header_bytes ++ rest) ≡ ok h
  unfolding read_header
  read_header-header_part h header_bytes rest e fits small =
      ground (arith, size_read, size, header_read)
    where
      size_bytes : Bytes
      size_bytes = to_le_bytes 4 (length header_bytes % u32_mod)

      parted : header_part header_bytes ++ rest ≡ size_bytes ++ (header_bytes ++ rest)
      parted = append_assoc size_bytes header_bytes rest

      size_read : read_exact p 0 4 (header_part header_bytes ++ rest) ≡ ok size_bytes
      size_read =
          ap (read_exact p 0 4) parted
          ∙ read_exact-part p [] size_bytes (header_bytes ++ rest) 0 4 refl
              (sym (length-to_le_bytes 4 _))

      size : from_le_bytes size_bytes ≡ length header_bytes
      size = from_le_bytes-to_le_bytes 4 _ (omega arith) ∙ omega arith

      header_read :
          read_exact p 4 (length header_bytes) (header_part header_bytes ++ rest) ≡ ok header_bytes
      header_read =
          ap (read_exact p 4 (length header_bytes)) parted
          ∙ read_exact-part p size_bytes header_bytes rest 4 (length header_bytes)
              (sym (length-to_le_bytes 4 _)) refl

  -- A header of this version within the limits passes.
  pub record IsAcceptable (h : Header) : Type 0 where
    pub version : h.version ≡ format_version
    pub magic : bytes_eq h.magic magic_bytes ≡ true
    pub block_size : h.block_size ≤ get_or limits.block_size max_block_size
    pub m_cost : h.argon_params.0 ≤ get_or limits.m_cost max_m_cost

  pub check_header-ok : (h : Header) → IsAcceptable h → check_header L S Z p limits h ≡ ok tt
  unfolding check_header
  check_header-ok h a = ground (arith, a.version, a.magic, a.block_size, a.m_cost)

  -- The footer behind anything is read back if its sizes are within the limit.
  pub read_footer-serialize :
      (front : Bytes) (f : Footer)
      → IsFooter f
      → f.index_size_stored ≤ get_or limits.index_size max_index_size
      → f.index_size_plain ≤ get_or limits.index_size max_index_size
      → read_footer L S Z p limits (front ++ serialize f) ≡ ok f
  unfolding read_footer
  read_footer-serialize front f is_footer stored plain = ground (
    arith,
    seek_end-part p front (serialize f) 29 (sym (length-serialize f is_footer)),
    bytes_read,
    deserialize-serialize f is_footer,
  )
    where
      bytes_read : read_exact p (length front) 29 (front ++ serialize f) ≡ ok (serialize f)
      bytes_read =
          ap (λ (t : Bytes). read_exact p (length front) 29 (front ++ t))
            (sym (append-nil (serialize f)))
          ∙ read_exact-part p front (serialize f) [] (length front) 29 refl
              (sym (length-serialize f is_footer))
