-- ===== src/Codec/Expansion.antt =====
-- How long a sealed block is.
use cryo.Base.{ℕ, ◌+◌, ◌≤◌, ◌≡◌, arith, length}
use cryo.Base.Bytes.{Bytes}
use cryo.Codec.{Cipher, aes, chacha, nonce_and_aad, encrypt_block}
use cryo.Errors.{ok}
use cryo.Externals.{Ciphers}
use cryo.Externals.Laws.{HasShortTag}
use cryo.Format.{EncryptedData}

-- A sealed block is at most 16 bytes longer than what it seals.
pub length-encrypt_block :
    (S : Ciphers)
    → HasShortTag S
    → (num : ℕ) (payload sealed : Bytes) (encd : EncryptedData) (id : Bytes) (c : Cipher)
    → encrypt_block S num payload encd id c ≡ ok sealed
    → length sealed ≤ length payload + 16
unfolding encrypt_block
length-encrypt_block S law num payload sealed encd id (aes k) e =
    let (nonce, aad) = nonce_and_aad encd num id in
    ground (arith, law.aes k nonce aad payload sealed)
length-encrypt_block S law num payload sealed encd id (chacha k) e =
    let (nonce, aad) = nonce_and_aad encd num id in
    ground (arith, law.chacha k nonce aad payload sealed)
length-encrypt_block S law num payload sealed encd id Cipher.none e = ground arith
