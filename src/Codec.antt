-- ===== src/Codec.antt =====
-- src/codec.rs: the key of an archive, and the sealing of its blocks and of its index.
pub mod Sealing
pub mod Expansion
use text.Mathlib.Text.{◌==◌ as str_eq}
use cryo.Base.{
  ℕ, ◌-◌, Bool, true, false, not, ◌&&◌, Option, some, List, ◌++◌, String, if◌then◌else◌,
}
use cryo.Base.Bytes.{Bytes, u64_mod, to_le_bytes}
use cryo.Errors.{Result, ok, err, or_err, reject, ◌>>=◌, ◌>>◌, cryptographic_error}
use cryo.Externals.{Ciphers}
use cryo.Format.{EncryptedData, index, block, EncryptionType, Header}

pub data Cipher : Type 0 where
  none : Cipher
  aes chacha : Bytes → Cipher

-- What is typed at the first and at the second prompt; reading may fail.
pub record Prompts : Type 0 where
  pub first : Option String
  pub second : Option String

prompt_for_password : Option String → Result String
prompt_for_password typed = or_err (cryptographic_error "Failed to read password") typed

confirm_password : Bool → Option String → String → Result (Unit {0})
unfolding prompt_for_password
confirm_password true second password = do
  repeated ← prompt_for_password second
  reject (not (str_eq password repeated)) (cryptographic_error "Passwords don't match")
confirm_password false second password = ok tt

-- The nonce, and 24 bytes of associated data: the number of the block, with `u64::MAX` for the
-- index, and the archive's id.
abbrev pub u64_max : ℕ
u64_max = u64_mod - 1

unfoldable pub nonce_and_aad : EncryptedData → ℕ → Bytes → Bytes × Bytes
nonce_and_aad (block nonce) num id = (nonce, to_le_bytes 8 num ++ id)
nonce_and_aad (index nonce) num id = (nonce, to_le_bytes 8 u64_max ++ id)

module _ (S : Ciphers) where
  derive : Header → String → Result Bytes
  derive h password =
      or_err (cryptographic_error "Argon2 failure")
        (S.hash_password_into h.argon_params password h.argon_salt)

  derive_key : Header → Bool → Prompts → Result Bytes
  unfolding prompt_for_password confirm_password derive
  derive_key h confirm typed = do
    reject (not (S.argon2_params h.argon_params))
        (cryptographic_error "Failed to initialize argon2 params")
    password ← prompt_for_password typed.first
    confirm_password confirm typed.second password
    derive h password

  for_encryption : EncryptionType → Result Bytes → Result Cipher
  for_encryption EncryptionType.none key = ok none
  for_encryption EncryptionType.aes key = do k ← key; ok (aes k)
  for_encryption EncryptionType.cha_cha key = do k ← key; ok (chacha k)

  -- `Cipher::new`; an archive with no encryption asks for nothing.
  unfoldable pub new_cipher : Header → Bool → Prompts → Result Cipher
  unfolding derive_key for_encryption
  new_cipher h confirm typed = for_encryption h.encryption (derive_key h confirm typed)

  unfoldable pub encrypt_block : ℕ → Bytes → EncryptedData → Bytes → Cipher → Result Bytes
  unfolding nonce_and_aad
  encrypt_block block_id payload encd archive_id (aes k) = do
    let (nonce, aad) = nonce_and_aad encd block_id archive_id
    reject (not (S.aes_new k)) (cryptographic_error "AES initialization failure")
    or_err (cryptographic_error "AES encryption failure") (S.aes_encrypt k nonce aad payload)
  encrypt_block block_id payload encd archive_id (chacha k) = do
    let (nonce, aad) = nonce_and_aad encd block_id archive_id
    or_err (cryptographic_error "CHACHA encrypt failure") (S.chacha_encrypt k nonce aad payload)
  encrypt_block block_id payload encd archive_id none = ok payload

  unfoldable pub decrypt_block : EncryptedData → Cipher → Header → Bytes → ℕ → Result Bytes
  unfolding nonce_and_aad
  decrypt_block encd (aes k) h payload block_num = do
    let (nonce, aad) = nonce_and_aad encd block_num h.archive_id
    reject (not (S.aes_new k)) (cryptographic_error "AES initialization failure")
    or_err (cryptographic_error "AES decryption failure") (S.aes_decrypt k nonce aad payload)
  decrypt_block encd (chacha k) h payload block_num = do
    let (nonce, aad) = nonce_and_aad encd block_num h.archive_id
    or_err (cryptographic_error "CHACHA decrypt failure") (S.chacha_decrypt k nonce aad payload)
  decrypt_block encd none h payload block_num = ok payload
