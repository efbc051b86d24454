-- ===== src/Externals/Laws.antt =====
-- What the program relies on: lossless codecs, capacity limits, and sealed messages that open
-- under what they were sealed with and under nothing else.
use cryo.Base.{ℕ, ◌+◌, ◌≤◌, ◌≡◌, false, some, length}
use cryo.Base.Bytes.{Bytes}
use cryo.Base.Int.{ℤ}
use cryo.Externals.{encoded, Compressors, Ciphers}

pub record IsLossless (L : Compressors) : Type 0 where
  pub zstd :
      (level : ℤ) (plain c : Bytes) (n : ℕ)
      → L.zstd_compress level plain ≡ some c
      → length plain ≤ n
      → L.zstd_decompress c n ≡ some plain
  pub xz :
      (level : ℕ) (plain c : Bytes)
      → L.xz_encode level plain ≡ encoded c
      → L.xz_decode c ≡ record { bytes = plain; fails = false }
  pub deflate :
      (level : ℕ) (plain c : Bytes)
      → L.deflate_encode level plain ≡ encoded c
      → L.deflate_decode c ≡ record { bytes = plain; fails = false }

pub record IsSealing (S : Ciphers) : Type 0 where
  pub aes :
      (key nonce aad msg c : Bytes)
      → S.aes_encrypt key nonce aad msg ≡ some c
      → S.aes_decrypt key nonce aad c ≡ some msg
  pub chacha :
      (key nonce aad msg c : Bytes)
      → S.chacha_encrypt key nonce aad msg ≡ some c
      → S.chacha_decrypt key nonce aad c ≡ some msg

-- The tag covers the associated data.
pub record IsAuthentic (S : Ciphers) : Type 0 where
  pub aes :
      (key nonce aad msg c nonce' aad' out : Bytes)
      → S.aes_encrypt key nonce aad msg ≡ some c
      → S.aes_decrypt key nonce' aad' c ≡ some out
      → aad ≡ aad'
  pub chacha :
      (key nonce aad msg c nonce' aad' out : Bytes)
      → S.chacha_encrypt key nonce aad msg ≡ some c
      → S.chacha_decrypt key nonce' aad' c ≡ some out
      → aad ≡ aad'

-- Sealing adds a tag of 16 bytes.
pub record HasShortTag (S : Ciphers) : Type 0 where
  pub aes :
      (key nonce aad msg c : Bytes)
      → S.aes_encrypt key nonce aad msg ≡ some c
      → length c ≤ length msg + 16
  pub chacha :
      (key nonce aad msg c : Bytes)
      → S.chacha_encrypt key nonce aad msg ≡ some c
      → length c ≤ length msg + 16
