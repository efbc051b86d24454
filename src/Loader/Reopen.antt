-- ===== src/Loader/Reopen.antt =====
-- An archive that `finish` has written opens again.
use cryo.Base.{
  ◌+◌, ◌≤◌, ◌<◌, ◌^◌, ◌≡◌, refl, ap, ◌∙◌, ◌++◌, Bool, some, arith, length, if◌then◌else◌,
  append_assoc,
}
use cryo.Base.Bytes.{Bytes, u32_mod}
use cryo.Codec.{Cipher, aes, chacha, Prompts, new_cipher, encrypt_block, decrypt_block}
use cryo.Codec.Expansion.{length-encrypt_block}
use cryo.Codec.Sealing.{decrypt_block-encrypt_block}
use cryo.Consts.{Limits, max_header_size, max_index_size}
use cryo.Disk.Laws.{IsAt, read_exact-part, seek_start-ok}
use cryo.Engine.{DecompressingEngine, new_decompressing, decompress}
use cryo.Errors.{ok}
use cryo.Externals.{Compressors, Ciphers, Serializers}
use cryo.Externals.Laws.{IsLossless, IsSealing, HasShortTag}
use cryo.FilePath.{FilePath}
use cryo.Format.{Header, Index, index}
use cryo.Format.Footer.{Footer, IsFooter, serialize}
use cryo.Loader.{
  unseal_index, unpack_index, read_header, check_header, read_footer, read_index, retrieve,
}
use cryo.Format.Footer.RoundTrip.{length-serialize}
use cryo.Loader.RoundTrip.{
  IsAcceptable, read_header-header_part, check_header-ok, read_footer-serialize,
}
use cryo.Writer.{ArchiveWriter, header_part, finish, footer_of}
use cryo.Writer.Finish.{Finished, finish-Finished, final_index, store-content}
use cryo.Writer.Packing.{Packing, pack_index-Packing, unpack-packed_of}
use cryo.Writer.Sealing.{encrypt_own-encrypt_block, encrypt_block-index}
use mathlib.Core.Option.{get_or}

module _ (L : Compressors) (S : Ciphers) (Z : Serializers) (p : FilePath) (limits : Limits) where
  unseal-encrypt_block :
      IsSealing S
      → (c : Cipher) (h : Header) (f : Footer) (payload sealed : Bytes)
      → encrypt_block S 0 payload (index f.index_nonce) h.archive_id c ≡ ok sealed
      → unseal_index L S Z p limits c h f sealed ≡ ok payload
  unfolding unseal_index decrypt_block encrypt_block
  unseal-encrypt_block law (aes k) h f payload sealed e =
      decrypt_block-encrypt_block S law 0 payload sealed (index f.index_nonce) h (aes k) e
  unseal-encrypt_block law (chacha k) h f payload sealed e =
      decrypt_block-encrypt_block S law 0 payload sealed (index f.index_nonce) h (chacha k) e
  unseal-encrypt_block law Cipher.none h f payload sealed e = cc

  read_index-sealed :
      (c : Cipher) (h : Header) (f : Footer) (front sealed tail payload index_bytes : Bytes)
      (idx : Index)
      → f.index_offset ≡ length front
      → length front < 2 ^ 63
      → f.index_size_stored ≡ length sealed
      → unseal_index L S Z p limits c h f sealed ≡ ok payload
      → unpack_index L S Z p limits h f payload ≡ ok index_bytes
      → Z.index_from_slice index_bytes ≡ some idx
      → read_index L S Z p limits c h f (front ++ (sealed ++ tail)) ≡ ok idx
  unfolding read_index
  read_index-sealed c h f front sealed tail payload index_bytes idx at small stored unsealed
        unpacked decoded =
      ground (
        arith,
        seek_start-ok p (length front) small,
        read_exact-part p front sealed tail (length front) (length sealed) refl refl,
      )

  unpack-packed :
      (h : Header) (f : Footer) (d : DecompressingEngine) (payload index_bytes : Bytes)
      → new_decompressing L h.compression ≡ ok d
      → (if f.index_compressed then decompress L d payload f.index_size_plain else ok payload)
        ≡ ok index_bytes
      → unpack_index L S Z p limits h f payload ≡ ok index_bytes
  unfolding unpack_index
  unpack-packed h f d payload index_bytes hd e = ground arith

  retrieve-parts :
      (confirm : Bool) (typed : Prompts) (content : Bytes) (h : Header) (f : Footer) (c : Cipher)
      (idx : Index)
      → read_header L S Z p limits content ≡ ok h
      → check_header L S Z p limits h ≡ ok tt
      → read_footer L S Z p limits content ≡ ok f
      → new_cipher S h confirm typed ≡ ok c
      → read_index L S Z p limits c h f content ≡ ok idx
      → retrieve L S Z p limits confirm typed content
        ≡ ok (record { header = h; index = idx; cipher = c; footer = f })
  unfolding retrieve
  retrieve-parts confirm typed content h f c idx e1 e2 e3 e4 e5 = rw (e1, e2, e3, e4, e5)

  -- What the caller of `retrieve` and the writer must agree on.
  pub record CanReopen (confirm : Bool) (typed : Prompts) (a : ArchiveWriter) (nonce : Bytes)
      : Type 0 where
    pub header_bytes : Bytes
    pub body : Bytes
    pub index_bytes : Bytes
    pub engine : DecompressingEngine
    pub front : IsAt a.writer (header_part header_bytes ++ body)
    pub position : a.file_position ≡ length (header_part header_bytes ++ body)
    pub position_small : a.file_position < 2 ^ 62
    pub header_decodes : Z.header_from_slice header_bytes ≡ some a.header
    pub header_small : length header_bytes < u32_mod
    pub header_fits : length header_bytes ≤ get_or limits.header_size max_header_size
    pub acceptable : IsAcceptable L S Z p limits a.header
    pub same_key : new_cipher S a.header confirm typed ≡ ok a.cipher
    pub engine_starts : new_decompressing L a.header.compression ≡ ok engine
    pub index_encodes : Z.index_to_vec (final_index a) ≡ some index_bytes
    pub index_decodes : Z.index_from_slice index_bytes ≡ some (final_index a)
    pub index_small : length index_bytes + 16 < u32_mod
    pub index_fits : length index_bytes + 16 ≤ get_or limits.index_size max_index_size
    pub nonce_fits : length nonce ≡ 12

  -- A finished archive, part by part.
  module _ (lossless : IsLossless L) (sealing : IsSealing S) (tag : HasShortTag S) (confirm : Bool)
      (typed : Prompts) (nonce : Bytes) (a b : ArchiveWriter) (r : CanReopen confirm typed a nonce)
      (done : Finished L S Z nonce a b) where
    pk : Packing L Z a.header r.index_bytes done.packed
    pk =
        pack_index-Packing L Z a.header (final_index a) r.index_bytes done.packed r.index_encodes
          done.packing

    whole :
        (done.packed.size_plain ≡ length r.index_bytes)
        × (length done.packed.bytes ≤ length r.index_bytes)
        × ((if done.packed.compressed
              then decompress L r.engine done.packed.bytes done.packed.size_plain
              else ok done.packed.bytes)
            ≡ ok r.index_bytes)
    whole =
        unpack-packed_of L Z lossless a.header r.index_bytes done.packed r.engine pk r.engine_starts
          (omega arith)

    sealing0 :
        encrypt_block S 0 done.packed.bytes (index nonce) a.header.archive_id a.cipher
        ≡ ok done.sealed
    sealing0 =
        encrypt_block-index S 0 _ done.packed.bytes nonce a.header.archive_id a.cipher
        ∙ (encrypt_own-encrypt_block S (record a { index = final_index a }) done.packed.bytes
              done.sealed (index nonce)).0
            done.sealing

    short : length done.sealed ≤ length r.index_bytes + 16
    short = omega (
      arith,
      whole.1,
      length-encrypt_block S tag 0 done.packed.bytes done.sealed (index nonce) a.header.archive_id
          a.cipher sealing0,
    )

    abbrev pub foot : Footer
    foot = footer_of nonce a done.packed done.sealed

    abbrev front : Bytes
    front = header_part r.header_bytes ++ r.body

    is_footer : IsFooter foot
    is_footer = record {
      offset_fits = omega (arith, r.position_small);
      stored_fits = omega arith;
      plain_fits = omega (arith, whole.0, r.index_small);
      nonce_fits = r.nonce_fits;
    }

    pub finished-content : b.writer.content ≡ front ++ (done.sealed ++ serialize foot)
    finished-content =
        store-content a done.sealed (serialize foot) front b.writer r.front r.position
          (omega (
            arith,
            r.position,
            r.position_small,
            short,
            r.index_small,
            length-serialize foot is_footer,
          ))
          done.storing

    header_read :
        read_header L S Z p limits (front ++ (done.sealed ++ serialize foot)) ≡ ok a.header
    header_read = rw (append_assoc (header_part r.header_bytes) r.body) (
        read_header-header_part L S Z p limits a.header r.header_bytes _ r.header_decodes
          r.header_fits r.header_small)

    footer_read : read_footer L S Z p limits (front ++ (done.sealed ++ serialize foot)) ≡ ok foot
    footer_read = rw (← append_assoc front done.sealed (serialize foot)) (
        read_footer-serialize L S Z p limits (front ++ done.sealed) foot is_footer
          (omega (arith, short, r.index_fits)) (omega (arith, whole.0, r.index_fits)))

    index_read :
        read_index L S Z p limits a.cipher a.header foot (front ++ (done.sealed ++ serialize foot))
        ≡ ok (final_index a)
    index_read =
        read_index-sealed a.cipher a.header foot front done.sealed (serialize foot)
          done.packed.bytes r.index_bytes (final_index a) r.position
          (omega (arith, r.position, r.position_small)) (omega (arith, short, r.index_small))
          (unseal-encrypt_block sealing a.cipher a.header foot done.packed.bytes done.sealed
            sealing0)
          (unpack-packed a.header foot r.engine done.packed.bytes r.index_bytes r.engine_starts
            whole.2)
          r.index_decodes

    opened :
        retrieve L S Z p limits confirm typed b.writer.content
        ≡ ok (record { header = a.header; index = final_index a; cipher = a.cipher; footer = foot })
    opened =
        ap (retrieve L S Z p limits confirm typed) finished-content
        ∙ (retrieve-parts confirm typed (front ++ (done.sealed ++ serialize foot)) a.header foot
            a.cipher (final_index a) header_read
            (check_header-ok L S Z p limits a.header r.acceptable) footer_read r.same_key
            index_read)

  -- Once `finish` has returned, `retrieve` under the same password gives back the header, the
  -- cipher and the index that was stored, and a footer that points behind the blocks. The
  -- archive's file holds the header and then its blocks; header, index and block size respect the
  -- limits of the one who opens; the serializer reads these two values back; the codec is
  -- lossless, and the cipher opens what it sealed with a tag of at most 16 bytes.
  pub retrieve-finish :
      IsLossless L
      → IsSealing S
      → HasShortTag S
      → (confirm : Bool) (typed : Prompts) (nonce : Bytes) (a b : ArchiveWriter)
      → CanReopen confirm typed a nonce
      → finish L S Z nonce a ≡ ok b
      → (f : Footer) × (retrieve L S Z p limits confirm typed b.writer.content
          ≡ ok (record { header = a.header; index = final_index a; cipher = a.cipher; footer = f }))
        × (f.index_offset ≡ a.file_position)
  retrieve-finish lossless sealing tag confirm typed nonce a b r h =
      let done = finish-Finished L S Z nonce a b h in
      (
        foot lossless sealing tag confirm typed nonce a b r done,
        opened lossless sealing tag confirm typed nonce a b r done,
        refl,
      )
