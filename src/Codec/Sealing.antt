-- ===== src/Codec/Sealing.antt =====
-- Sealed blocks open where they belong, and nowhere else.
use cryo.Base.{
  ℕ, ◌<◌, ◌≡◌, refl, ap, sym, ◌∙◌, ◌≢◌, ◌++◌, arith, take, drop, take-append_at, drop-append_at,
}
use cryo.Base.Bytes.{
  Bytes, u64_mod, to_le_bytes, from_le_bytes, length-to_le_bytes, from_le_bytes-to_le_bytes,
}
use cryo.Errors.{ok}
use cryo.Externals.{Ciphers}
use cryo.Externals.Laws.{IsSealing, IsAuthentic}
use cryo.Format.{EncryptedData, index, block, Header}
use cryo.Codec.{Cipher, aes, chacha, u64_max, nonce_and_aad, encrypt_block, decrypt_block}

module _ (S : Ciphers) where
  -- What `encrypt_block` has sealed, `decrypt_block` opens under the same cipher, nonce, number
  -- and archive id, if the ciphers open what they sealed.
  pub decrypt_block-encrypt_block :
      IsSealing S
      → (num : ℕ) (payload sealed : Bytes) (encd : EncryptedData) (h : Header) (c : Cipher)
      → encrypt_block S num payload encd h.archive_id c ≡ ok sealed
      → decrypt_block S encd c h sealed num ≡ ok payload
  unfolding encrypt_block decrypt_block
  decrypt_block-encrypt_block law num payload sealed encd h (aes k) e =
      let (nonce, aad) = nonce_and_aad encd num h.archive_id in
      ground (arith, law.aes k nonce aad payload sealed)
  decrypt_block-encrypt_block law num payload sealed encd h (chacha k) e =
      let (nonce, aad) = nonce_and_aad encd num h.archive_id in
      ground (arith, law.chacha k nonce aad payload sealed)
  decrypt_block-encrypt_block law num payload sealed encd h Cipher.none e = ground arith

-- The place that the associated data name: a block's number, or the index.
abbrev pub place : EncryptedData → ℕ → ℕ
place (block nonce) num = num
place (index nonce) num = u64_max

place-lt : (encd : EncryptedData) (num : ℕ) → num < u64_mod → place encd num < u64_mod
place-lt (block nonce) num h = h
place-lt (index nonce) num h = omega arith

aad_lem :
    (encd : EncryptedData) (num : ℕ) (id : Bytes)
    → (nonce_and_aad encd num id).1 ≡ to_le_bytes 8 (place encd num) ++ id
unfolding nonce_and_aad
aad_lem (block nonce) num id = refl
aad_lem (index nonce) num id = refl

le_prefix :
    (a b : ℕ) (id id' : Bytes)
    → a < u64_mod
    → b < u64_mod
    → to_le_bytes 8 a ++ id ≡ to_le_bytes 8 b ++ id'
    → (a ≡ b) × (id ≡ id')
le_prefix a b id id' h h' e = (
  sym (number a id h) ∙ ap (λ t. from_le_bytes (take 8 t)) e ∙ number b id' h',
  sym (drop-append_at 8 (to_le_bytes 8 a) id (length-to_le_bytes 8 a))
      ∙ ap (drop 8) e
      ∙ drop-append_at 8 (to_le_bytes 8 b) id' (length-to_le_bytes 8 b),
)
  where
    number :
        (n : ℕ) (rest : Bytes) → n < u64_mod → from_le_bytes (take 8 (to_le_bytes 8 n ++ rest)) ≡ n
    number n rest k =
        ap from_le_bytes (take-append_at 8 (to_le_bytes 8 n) rest (length-to_le_bytes 8 n))
        ∙ from_le_bytes-to_le_bytes 8 n k

aad_place :
    (encd encd' : EncryptedData) (num num' : ℕ) (id id' : Bytes)
    → num < u64_mod
    → num' < u64_mod
    → (nonce_and_aad encd num id).1 ≡ (nonce_and_aad encd' num' id').1
    → (place encd num ≡ place encd' num') × (id ≡ id')
aad_place encd encd' num num' id id' h h' e =
    le_prefix (place encd num) (place encd' num') id id' (place-lt encd num h)
      (place-lt encd' num' h') (sym (aad_lem encd num id) ∙ e ∙ aad_lem encd' num' id')

module _ (S : Ciphers) where
  -- Under ciphers whose tag covers the associated data, what is sealed under a key opens only with
  -- the same number in these data (that of the block, or `u64_max` for the index) and under the
  -- same archive id.
  pub decrypt_block_place :
      IsAuthentic S
      → (num num' : ℕ) (payload sealed out : Bytes) (encd encd' : EncryptedData) (id : Bytes)
        (h : Header) (c : Cipher)
      → c ≢ Cipher.none
      → num < u64_mod
      → num' < u64_mod
      → encrypt_block S num payload encd id c ≡ ok sealed
      → decrypt_block S encd' c h sealed num' ≡ ok out
      → (place encd num ≡ place encd' num') × (id ≡ h.archive_id)
  unfolding encrypt_block decrypt_block
  decrypt_block_place law num num' payload sealed out encd encd' id h (aes k) ne l l' e e' =
      let (nonce, aad) = nonce_and_aad encd num id in
      let (nonce', aad') = nonce_and_aad encd' num' h.archive_id in
      aad_place encd encd' num num' id h.archive_id l l'
        (law.aes k nonce aad payload sealed nonce' aad' out (ground arith) (ground arith))
  decrypt_block_place law num num' payload sealed out encd encd' id h (chacha k) ne l l' e e' =
      let (nonce, aad) = nonce_and_aad encd num id in
      let (nonce', aad') = nonce_and_aad encd' num' h.archive_id in
      aad_place encd encd' num num' id h.archive_id l l'
        (law.chacha k nonce aad payload sealed nonce' aad' out (ground arith) (ground arith))
  decrypt_block_place law num num' payload sealed out encd encd' id h Cipher.none ne l l' e e' =
      absurd (ne refl)
