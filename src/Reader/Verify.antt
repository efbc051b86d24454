-- ===== src/Reader/Verify.antt =====
-- `verify` against what the extraction reads.
use cryo.Base.{
  ℕ, ◌+◌, ◌≡◌, ◌≢◌, Bool-cases, inl, inr, refl, ◌∙◌, ap, true, not, List, [], ◌∷◌, arith, length,
  bytes_eq, ◌==◌,
}
use cryo.Base.Bytes.{Bytes}
use cryo.Codec.{Cipher, aes, chacha, decrypt_block}
use cryo.Engine.{DecompressingEngine, new_decompressing}
use cryo.Errors.{
  ok, err, reject, reject-eq-ok, ◌>>◌, >>=-eq-ok, decompression_error, checksum_mismatch,
}
use cryo.Externals.{Compressors, Ciphers, Serializers}
use cryo.Format.{block, BlockEntry}
use cryo.Reader.{
  ArchiveReader, check_sizes, read_stored, unseal, unpack, read_block, verify_block, verify_from,
  verify,
}
use cryo.Reader.Slices.{Stored}

module _ (L : Compressors) (S : Ciphers) (Z : Serializers) (r : ArchiveReader)
    (engine : DecompressingEngine) where
  unseal-decrypt_block :
      (c : Cipher) (b : BlockEntry) (num : ℕ) (stored out : Bytes)
      → r.cipher ≡ c
      → unseal L S Z r b num stored ≡ ok out
      → decrypt_block S (block b.nonce) c r.header stored num ≡ ok out
  unfolding unseal
  unseal-decrypt_block (aes k) b num stored out e h = ground arith
  unseal-decrypt_block (chacha k) b num stored out e h = ground arith
  unseal-decrypt_block Cipher.none b num stored out e h = unfold decrypt_block in ground arith

  verify_block-parts :
      (b : BlockEntry) (num : ℕ) (stored out p : Bytes)
      → check_sizes L S Z r.header b ≡ ok tt
      → read_stored L S Z r.path r.content b ≡ ok stored
      → decrypt_block S (block b.nonce) r.cipher r.header stored num ≡ ok out
      → unpack L S Z engine b out ≡ ok p
      → bytes_eq (Z.blake3_hash p) b.checksum ≡ true
      → verify_block L S Z r.path r b num engine ≡ ok tt
  unfolding verify_block
  verify_block-parts b num stored out p e1 e2 e3 e4 e5 = rw (e1, e2, e3, e4, e5) refl

  verify_block-read_block :
      (b : BlockEntry) (num : ℕ) (p : Bytes)
      → read_block L S Z r b num engine ≡ ok p
      → bytes_eq (Z.blake3_hash p) b.checksum ≡ true
      → verify_block L S Z r.path r b num engine ≡ ok tt
  unfolding read_block
  verify_block-read_block b num p h sum =
      let (_, e1, h1) = >>=-eq-ok (check_sizes L S Z r.header b) _ h in
      let (stored, e2, h2) = >>=-eq-ok (read_stored L S Z r.path r.content b) _ h1 in
      let (out, e3, h3) = >>=-eq-ok (unseal L S Z r b num stored) _ h2 in
      let (plain, e4, h4) = >>=-eq-ok (unpack L S Z engine b out) _ h3 in
      let (_, _, h5) =
        >>=-eq-ok (reject (not (length plain == b.size_plain)) decompression_error) _ h4 in
      let same : plain ≡ p = cc in
      verify_block-parts b num stored out p e1 e2
        (unseal-decrypt_block r.cipher b num stored out refl e3) (e4 ∙ ap ok same) sum

  verify_from-Stored :
      (i : ℕ) (bs : List BlockEntry) (ps : List Bytes)
      → Stored L S Z r engine i bs ps
      → verify_from L S Z r.path r engine i bs ≡ ok tt
  unfolding verify_from
  verify_from-Stored i [] [] h = refl
  verify_from-Stored i [] (p ∷ ps) h = refl
  verify_from-Stored i (b ∷ bs) [] h = absurd h
  verify_from-Stored i (b ∷ bs) (p ∷ ps) (read, sum, _, rest) =
      rw (verify_block-read_block b i p read sum, verify_from-Stored (i + 1) bs ps rest) refl

  pub verify-Stored :
      (ps : List Bytes)
      → new_decompressing L r.header.compression ≡ ok engine
      → Stored L S Z r engine 0 r.index.block ps
      → verify L S Z r.path r ≡ ok tt
  unfolding verify
  verify-Stored ps started stored = rw (started, verify_from-Stored 0 r.index.block ps stored) refl

  decrypt_block-unseal :
      (c : Cipher) (b : BlockEntry) (num : ℕ) (stored out : Bytes)
      → r.cipher ≡ c
      → decrypt_block S (block b.nonce) c r.header stored num ≡ ok out
      → unseal L S Z r b num stored ≡ ok out
  unfolding unseal
  decrypt_block-unseal (aes k) b num stored out e h = ground arith
  decrypt_block-unseal (chacha k) b num stored out e h = ground arith
  decrypt_block-unseal Cipher.none b num stored out e h = unfold decrypt_block in ground arith

  -- How the extraction reads a block with the plain bytes `p`: as these, or not at all where their
  -- number is not the one in the index.
  pub data IsReadAs (b : BlockEntry) (num : ℕ) (p : Bytes) : Type 0 where
    as_listed : length p ≡ b.size_plain → read_block L S Z r b num engine ≡ ok p → IsReadAs b num p
    other_size :
        length p ≢ b.size_plain
        → read_block L S Z r b num engine ≡ err decompression_error
        → IsReadAs b num p

  -- Every block is readable, and its bytes have the checksum of the index.
  abbrev pub Checked : ℕ → List BlockEntry → List Bytes → Type 0
  Checked i [] [] = Unit
  Checked i [] (p ∷ ps) = ⊥
  Checked i (b ∷ bs) [] = ⊥
  Checked i (b ∷ bs) (p ∷ ps) =
      (bytes_eq (Z.blake3_hash p) b.checksum ≡ true) × IsReadAs b i p × Checked (i + 1) bs ps

  read_block-sized :
      (b : BlockEntry) (num : ℕ) (stored out p : Bytes)
      → check_sizes L S Z r.header b ≡ ok tt
      → read_stored L S Z r.path r.content b ≡ ok stored
      → unseal L S Z r b num stored ≡ ok out
      → unpack L S Z engine b out ≡ ok p
      → read_block L S Z r b num engine
        ≡ (reject (not (length p == b.size_plain)) decompression_error >> ok p)
  unfolding read_block
  read_block-sized b num stored out p e1 e2 e3 e4 = rw (e1, e2, e3, e4) refl

  sized-IsReadAs :
      (b : BlockEntry) (num : ℕ) (p : Bytes)
      → read_block L S Z r b num engine
        ≡ (reject (not (length p == b.size_plain)) decompression_error >> ok p)
      → IsReadAs b num p
  sized-IsReadAs b num p h = elim (Bool-cases (length p == b.size_plain)) [
    | inl e ↦ as_listed (ground arith) (ground arith)
    | inr e ↦ other_size (ground arith) (ground arith)
  ]

  verify_block-Checked :
      (b : BlockEntry) (num : ℕ)
      → verify_block L S Z r.path r b num engine ≡ ok tt
      → (p : Bytes) × (bytes_eq (Z.blake3_hash p) b.checksum ≡ true) × IsReadAs b num p
  unfolding verify_block
  verify_block-Checked b num h =
      let (_, e1, h1) = >>=-eq-ok (check_sizes L S Z r.header b) _ h in
      let (stored, e2, h2) = >>=-eq-ok (read_stored L S Z r.path r.content b) _ h1 in
      let (out, e3, h3) =
        >>=-eq-ok (decrypt_block S (block b.nonce) r.cipher r.header stored num) _ h2 in
      let (p, e4, h4) = >>=-eq-ok (unpack L S Z engine b out) _ h3 in
      let (_, e5, h5) =
        >>=-eq-ok (reject (not (bytes_eq (Z.blake3_hash p) b.checksum)) checksum_mismatch) _ h4 in
      (
        p,
        ground (arith, reject-eq-ok _ _ e5),
        sized-IsReadAs b num p (
            read_block-sized b num stored out p e1 e2
              (decrypt_block-unseal r.cipher b num stored out refl e3) e4),
      )

  verify_from-Checked :
      (i : ℕ) (bs : List BlockEntry)
      → verify_from L S Z r.path r engine i bs ≡ ok tt
      → (ps : List Bytes) × Checked i bs ps
  unfolding verify_from
  verify_from-Checked i [] h = ([], tt)
  verify_from-Checked i (b ∷ bs) h =
      let (_, e, h1) = >>=-eq-ok (verify_block L S Z r.path r b i engine) _ h in
      let (p, sum, read) = verify_block-Checked b i e in
      let (ps, rest) = verify_from-Checked (i + 1) bs h1 in (p ∷ ps, (sum, read, rest))

module _ (L : Compressors) (S : Ciphers) (Z : Serializers) (r : ArchiveReader) where
  verify-started :
      verify L S Z r.path r ≡ ok tt
      → (engine : DecompressingEngine) × (new_decompressing L r.header.compression ≡ ok engine)
        × (verify_from L S Z r.path r engine 0 r.index.block ≡ ok tt)
  unfolding verify
  verify-started h = >>=-eq-ok (new_decompressing L r.header.compression) _ h

  -- Of an archive that `verify` accepts each block has bytes with its checksum, and these are what
  -- the extraction reads, but for a block whose bytes are not as many as the index says, which the
  -- extraction refuses.
  pub verify-Checked :
      verify L S Z r.path r ≡ ok tt
      → (engine : DecompressingEngine) × (new_decompressing L r.header.compression ≡ ok engine)
        × ((ps : List Bytes) × Checked L S Z r engine 0 r.index.block ps)
  verify-Checked h =
      let (engine, started, rest) = verify-started h in
      (engine, started, verify_from-Checked L S Z r engine 0 r.index.block rest)
