-- ===== src/Writer/Sealing.antt =====
-- The writer's own copy of the sealing, and the one of src/codec.rs.
use cryo.Base.{ℕ, ◌≡◌, ◌↔◌, refl, arith, length}
use cryo.Base.Bytes.{Bytes}
use cryo.Codec.{Cipher, aes, chacha, encrypt_block}
use cryo.Errors.{ok}
use cryo.Externals.{Ciphers}
use cryo.Format.{EncryptedData, block, index}
use cryo.Writer.{ArchiveWriter, encrypt_own}

module _ (S : Ciphers) where
  own_lem :
      (a : ArchiveWriter) (c : Cipher) (payload sealed : Bytes) (encd : EncryptedData)
      → a.cipher ≡ c
      → (encrypt_own S a payload encd ≡ ok sealed)
        ↔ (encrypt_block S (length a.index.block) payload encd a.header.archive_id c ≡ ok sealed)
  unfolding encrypt_own encrypt_block
  own_lem a (aes k) payload sealed (block nonce) e = rw e (ground arith)
  own_lem a (aes k) payload sealed (index nonce) e = rw e (ground arith)
  own_lem a (chacha k) payload sealed (block nonce) e = rw e (ground arith)
  own_lem a (chacha k) payload sealed (index nonce) e = rw e (ground arith)
  own_lem a Cipher.none payload sealed encd e = rw e (ground arith)

  -- The writer's `encrypt_block` gives some bytes exactly where `codec::encrypt_block`, for the
  -- next block's number and the archive's id and cipher, gives these bytes.
  pub encrypt_own-encrypt_block :
      (a : ArchiveWriter) (payload sealed : Bytes) (encd : EncryptedData)
      → (encrypt_own S a payload encd ≡ ok sealed) ↔ (
          encrypt_block S (length a.index.block) payload encd a.header.archive_id a.cipher
          ≡ ok sealed)
  encrypt_own-encrypt_block a payload sealed encd = own_lem a a.cipher payload sealed encd refl

  -- For the index the number is not looked at.
  pub encrypt_block-index :
      (m n : ℕ) (payload nonce id : Bytes) (c : Cipher)
      → encrypt_block S m payload (index nonce) id c ≡ encrypt_block S n payload (index nonce) id c
  unfolding encrypt_block
  encrypt_block-index m n payload nonce id (aes k) = refl
  encrypt_block-index m n payload nonce id (chacha k) = refl
  encrypt_block-index m n payload nonce id Cipher.none = refl
