-- ===== src/Tests/Toys.antt =====
-- Toy crates for the tests: a codec that shortens three zeros in front, and two ciphers that tag.
use cryo.Base.{
  ℕ, zero, suc, ◌%◌, ◌≡◌, refl, true, false, ◌&&◌, Option, none, some, [], ◌∷◌, ◌++◌, arith, leb,
  ◌==◌, if◌then◌else◌, length, take, drop, take-append_at, bytes_eq, bytes_eq→eq,
}
use cryo.Base.Bytes.{Bytes, from_le_bytes}
use cryo.Base.Int.{pos, negsuc}
use cryo.Externals.{Compressors, Ciphers, encoded, Stream}
use cryo.Externals.Laws.{IsLossless, IsSealing, IsAuthentic, HasShortTag}

abbrev zip : Bytes → Bytes
zip (zero ∷ zero ∷ zero ∷ xs) = 1 ∷ xs
zip xs = 0 ∷ xs

abbrev unzip : Bytes → Bytes
unzip [] = []
unzip (zero ∷ xs) = xs
unzip (suc n ∷ xs) = 0 ∷ 0 ∷ 0 ∷ xs

unzip-zip : (xs : Bytes) → unzip (zip xs) ≡ xs
unzip-zip [] = refl
unzip-zip (suc n ∷ xs) = refl
unzip-zip (zero ∷ []) = refl
unzip-zip (zero ∷ suc n ∷ xs) = refl
unzip-zip (zero ∷ zero ∷ []) = refl
unzip-zip (zero ∷ zero ∷ suc n ∷ xs) = refl
unzip-zip (zero ∷ zero ∷ zero ∷ xs) = refl

abbrev fitting : Bytes → ℕ → Option Bytes
fitting out n = if leb (length out) n then some out else none

abbrev whole : Bytes → Stream
whole out = record { bytes = out; fails = false }

abbrev pub toy_compressors : Compressors
toy_compressors = record {
  zstd_min = negsuc 6;
  zstd_max = pos 22;
  zstd_compressor = λ level. true;
  zstd_compress = λ level plain. some (zip plain);
  zstd_decompressor = true;
  zstd_decompress = λ c n. fitting (unzip c) n;
  xz_encode = λ level plain. encoded (zip plain);
  xz_decode = λ c. whole (unzip c);
  deflate_encode = λ level plain. encoded (zip plain);
  deflate_decode = λ c. whole (unzip c);
}

pub toy-IsLossless : IsLossless toy_compressors
toy-IsLossless = record {
  zstd = λ level plain c n e le. ground (arith, unzip-zip plain);
  xz = λ level plain c e. ground (arith, unzip-zip plain);
  deflate = λ level plain c e. ground (arith, unzip-zip plain);
}

-- A tag of one number in front of the message, made of the key, the nonce and the associated data.
abbrev pub tag : Bytes → Bytes → Bytes → ℕ
tag key nonce aad = from_le_bytes (key ++ (nonce ++ aad)) % 251

abbrev open_tagged : ℕ → Bytes → Option Bytes
open_tagged t [] = none
open_tagged t (x ∷ msg) = if x == t then some msg else none

abbrev pub toy_ciphers : Ciphers
toy_ciphers = record {
  aes_new = λ key. true;
  aes_encrypt = λ key nonce aad msg. some (tag key nonce aad ∷ msg);
  aes_decrypt = λ key nonce aad c. open_tagged (tag key nonce aad) c;
  chacha_encrypt = λ key nonce aad msg. some (tag key nonce aad ∷ msg);
  chacha_decrypt = λ key nonce aad c. open_tagged (tag key nonce aad) c;
  argon2_params = λ params. true;
  hash_password_into = λ params password salt. some salt;
}

pub toy-IsSealing : IsSealing toy_ciphers
toy-IsSealing = record {
  aes = λ key nonce aad msg c e. ground arith;
  chacha = λ key nonce aad msg c e. ground arith;
}

pub toy-HasShortTag : HasShortTag toy_ciphers
toy-HasShortTag = record {
  aes = λ key nonce aad msg c e. ground arith;
  chacha = λ key nonce aad msg c e. ground arith;
}

-- The associated data, with their length, in front of the message.
abbrev lock : Bytes → Bytes → Bytes
lock aad msg = length aad ∷ (aad ++ msg)

abbrev unlock : Bytes → Bytes → Option Bytes
unlock aad [] = none
unlock aad (n ∷ c) = if n == length aad && bytes_eq (take n c) aad then some (drop n c) else none

unlock-lock : (aad aad' msg out : Bytes) → unlock aad' (lock aad msg) ≡ some out → aad ≡ aad'
unlock-lock aad aad' msg out e =
    let same = bytes_eq→eq (take (length aad) (aad ++ msg)) aad' in
    ground (arith, take-append_at (length aad) aad msg refl, same)

abbrev pub long_ciphers : Ciphers
long_ciphers = record {
  aes_new = λ key. true;
  aes_encrypt = λ key nonce aad msg. some (lock aad msg);
  aes_decrypt = λ key nonce aad c. unlock aad c;
  chacha_encrypt = λ key nonce aad msg. some (lock aad msg);
  chacha_decrypt = λ key nonce aad c. unlock aad c;
  argon2_params = λ params. true;
  hash_password_into = λ params password salt. some salt;
}

pub long-IsAuthentic : IsAuthentic long_ciphers
long-IsAuthentic = record {
  aes = λ key nonce aad msg c nonce' aad' out e e'. ground (arith, unlock-lock aad aad' msg out);
  chacha = λ key nonce aad msg c nonce' aad' out e e'. ground (arith, unlock-lock aad aad' msg out);
}
