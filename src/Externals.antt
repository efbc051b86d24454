-- ===== src/Externals.antt =====
-- The crates that the program calls and does not contain: what each gives is a field, and what the
-- program relies on is a law over the fields.
pub mod Laws
use cryo.Base.{ℕ, Bool, String, Option}
use cryo.Base.Bytes.{Bytes}
use cryo.Base.Int.{ℤ}
use cryo.Format.{Header, Index}

-- An encoder that takes the whole input by `write_all` and gives its output by `finish`.
pub data Encoded : Type 0 where
  write_failed finish_failed : Encoded
  encoded : Bytes → Encoded

-- What a decoder yields, byte by byte: these bytes, and then the end or an error.
pub record Stream : Type 0 where
  pub bytes : Bytes
  pub fails : Bool

-- zstd, xz2 and flate2. The bulk contexts of zstd keep nothing from one call to the next.
pub record Compressors : Type 0 where
  pub zstd_min : ℤ
  pub zstd_max : ℤ
  pub zstd_compressor : ℤ → Bool
  pub zstd_compress : ℤ → Bytes → Option Bytes
  pub zstd_decompressor : Bool
  pub zstd_decompress : Bytes → ℕ → Option Bytes
  pub xz_encode : ℕ → Bytes → Encoded
  pub xz_decode : Bytes → Stream
  pub deflate_encode : ℕ → Bytes → Encoded
  pub deflate_decode : Bytes → Stream

-- aes_gcm, chacha20poly1305 and argon2: key, nonce, associated data, message.
pub record Ciphers : Type 0 where
  pub aes_new : Bytes → Bool
  pub aes_encrypt : Bytes → Bytes → Bytes → Bytes → Option Bytes
  pub aes_decrypt : Bytes → Bytes → Bytes → Bytes → Option Bytes
  pub chacha_encrypt : Bytes → Bytes → Bytes → Bytes → Option Bytes
  pub chacha_decrypt : Bytes → Bytes → Bytes → Bytes → Option Bytes
  pub argon2_params : ℕ × ℕ × ℕ → Bool
  pub hash_password_into : ℕ × ℕ × ℕ → String → Bytes → Option Bytes

-- rmp_serde and blake3.
pub record Serializers : Type 0 where
  pub header_to_vec : Header → Option Bytes
  pub header_from_slice : Bytes → Option Header
  pub index_to_vec : Index → Option Bytes
  pub index_from_slice : Bytes → Option Index
  pub blake3_hash : Bytes → Bytes
