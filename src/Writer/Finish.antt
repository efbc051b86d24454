-- ===== src/Writer/Finish.antt =====
-- What `finish` leaves on the disk.
use cryo.Base.{◌+◌, ◌<◌, ◌≡◌, sym, ap, ◌∙◌, ◌++◌, arith, length, length-append, append_assoc}
use cryo.Base.Bytes.{Bytes, u64_mod}
use cryo.Disk.{write_all, File}
use cryo.Disk.Laws.{IsAt, write_all-IsAt, set_len-IsAt}
use cryo.Errors.{ok, or_err, write_error, >>=-eq-ok, or_err-eq-ok, ◌>>=◌}
use cryo.Externals.{Compressors, Ciphers, Serializers}
use cryo.Format.{index, Index}
use cryo.Format.Footer.{serialize}
use cryo.Writer.{ArchiveWriter, PackedIndex, pack_index, encrypt_own, finish, store, footer_of}

-- When `store` returns, the file holds the front, the sealed index and the footer, and nothing
-- behind them: what it held there before is cut off. The writer stands behind the front, and the
-- lengths stay below 2^64.
pub store-content :
    (a : ArchiveWriter) (sealed footer_bytes front : Bytes) (u : File)
    → IsAt a.writer front
    → a.file_position ≡ length front
    → length front + length sealed + length footer_bytes < u64_mod
    → store a sealed footer_bytes ≡ ok u
    → u.content ≡ front ++ (sealed ++ footer_bytes)
unfolding store
store-content a sealed footer_bytes front u at pos fits h =
    let (w, e1, h1) = >>=-eq-ok (or_err write_error (write_all sealed a.writer)) _ h in
    let (v, e2, h2) = >>=-eq-ok (or_err write_error (write_all footer_bytes w)) _ h1 in
    let at1 = write_all-IsAt sealed at (or_err-eq-ok _ _ e1) in
    let at2 = write_all-IsAt footer_bytes at1 (or_err-eq-ok _ _ e2) in
    set_len-IsAt _ at2
      (omega (arith, length-append (front ++ sealed) footer_bytes, length-append front sealed))
      (or_err-eq-ok _ _ h2)
    ∙ append_assoc front sealed footer_bytes

-- The index that `finish` stores.
abbrev pub final_index : ArchiveWriter → Index
final_index a = record a.index { total_stream_size = a.stream_position }

module _ (L : Compressors) (S : Ciphers) (Z : Serializers) where
  -- The stored index and the footer of a finished archive.
  pub record Finished (nonce : Bytes) (a b : ArchiveWriter) : Type 0 where
    pub packed : PackedIndex
    pub sealed : Bytes
    pub packing : pack_index L Z a.header (final_index a) ≡ ok packed
    pub sealing :
        encrypt_own S (record a { index = final_index a }) packed.bytes (index nonce) ≡ ok sealed
    pub storing : store a sealed (serialize (footer_of nonce a packed sealed)) ≡ ok b.writer
    pub stamped : b ≡ record a { writer = b.writer; index = final_index a }

  finished :
      (nonce : Bytes) (a b : ArchiveWriter) (packed : PackedIndex) (sealed : Bytes)
      → pack_index L Z a.header (final_index a) ≡ ok packed
      → encrypt_own S (record a { index = final_index a }) packed.bytes (index nonce) ≡ ok sealed
      → (store a sealed (serialize (footer_of nonce a packed sealed)) >>= λ u.
          ok (record a { writer = u; index = final_index a }))
        ≡ ok b
      → Finished nonce a b
  finished nonce a b packed sealed packing sealing h =
      let (u, e, h') =
        >>=-eq-ok (store a sealed (serialize (footer_of nonce a packed sealed))) _ h in
      let done : record a { writer = u; index = final_index a } ≡ b = cc in
      record {
        packed = packed;
        sealed = sealed;
        packing = packing;
        sealing = sealing;
        storing = e ∙ ap (λ (x : ArchiveWriter). ok x.writer) done;
        stamped =
            sym done
            ∙ ap (λ (x : ArchiveWriter). record a { writer = x.writer; index = final_index a })
                done;
      }

  pub finish-Finished :
      (nonce : Bytes) (a b : ArchiveWriter) → finish L S Z nonce a ≡ ok b → Finished nonce a b
  unfolding finish
  finish-Finished nonce a b h =
      let (packed, packing, h1) = >>=-eq-ok (pack_index L Z a.header (final_index a)) _ h in
      let (sealed, sealing, h2) =
        >>=-eq-ok (encrypt_own S (record a { index = final_index a }) packed.bytes (index nonce)) _
          h1 in
      finished nonce a b packed sealed packing sealing h2
