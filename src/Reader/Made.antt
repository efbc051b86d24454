-- ===== src/Reader/Made.antt =====
-- What the blocks that the workers made keep of the raw blocks.
use mathlib.Core.List.{Permᴰ}
use cryo.Base.{
  ℕ, ◌+◌, ◌≤◌, ◌≡◌, refl, ap, ◌∙◌, List, ◌++◌, arith, length, ltb, if◌then◌else◌, length-append,
}
use cryo.Base.Bytes.{Bytes}
use cryo.Codec.{Cipher}
use cryo.Codec.Expansion.{length-encrypt_block}
use cryo.Compress.Chunks.Emit.{NumberedRaw}
use cryo.Compress.Queue.Layout.{stored_bytes, AreSmall}
use cryo.Compress.Queue.Order.{Numbered}
use cryo.Engine.{CompressingEngine}
use cryo.Externals.{Compressors, Ciphers, Serializers}
use cryo.Externals.Laws.{HasShortTag}
use cryo.Format.{block}
use cryo.Reader.Blocks.{process_block-Making}
use cryo.Reader.Restore.{AreMade, none_made, one_made, Fit}
use cryo.Writer.{RawBlock, ProcessedBlock}

-- The stored bytes are as many in any order.
pub length-stored_bytes :
    {xs ys : List ProcessedBlock}
    → Permᴰ xs ys
    → length (stored_bytes xs) ≡ length (stored_bytes ys)
length-stored_bytes Permᴰ.nil = refl
length-stored_bytes (Permᴰ.cons {a = a} {b = b} {l₁ = l} {l₂ = m} e p) = omega (
  arith,
  ap (λ (x : ProcessedBlock). length x.processed_data) e,
  length-stored_bytes p,
  length-append a.processed_data (stored_bytes l),
  length-append b.processed_data (stored_bytes m),
)
length-stored_bytes (Permᴰ.swap {a = a} {b = b} {a' = a'} {b' = b'} {l = l} e f) = omega (
  arith,
  ap (λ (x : ProcessedBlock). length x.processed_data) e,
  ap (λ (x : ProcessedBlock). length x.processed_data) f,
  length-append a.processed_data (b.processed_data ++ stored_bytes l),
  length-append b.processed_data (stored_bytes l),
  length-append a'.processed_data (b'.processed_data ++ stored_bytes l),
  length-append b'.processed_data (stored_bytes l),
)
length-stored_bytes (Permᴰ.trans p q) = length-stored_bytes p ∙ length-stored_bytes q

payload_le :
    (compressed plain : Bytes)
    → length (if ltb (length compressed) (length plain) then compressed else plain) ≤ length plain
payload_le compressed plain = ground arith

module _ (L : Compressors) (S : Ciphers) (Z : Serializers) {c : Cipher} {id : Bytes}
    {e : CompressingEngine} where
  pub AreMade-Numbered :
      (k : ℕ) {raws : List RawBlock} {bs : List ProcessedBlock}
      → AreMade L S Z c id e raws bs
      → NumberedRaw k raws
      → Numbered k bs
  AreMade-Numbered k none_made h = tt
  AreMade-Numbered k (one_made {raw} {b} {raws} {bs} nonce p made) (h, hs) =
      let m = process_block-Making L S Z nonce raw c id e b p in
      (ap (λ (x : ProcessedBlock). x.id) m.result ∙ h, AreMade-Numbered (k + 1) made hs)

  pub length-AreMade :
      {raws : List RawBlock} {bs : List ProcessedBlock}
      → AreMade L S Z c id e raws bs
      → length bs ≡ length raws
  length-AreMade none_made = refl
  length-AreMade (one_made nonce p made) = omega (arith, length-AreMade made)

  pub AreMade-AreSmall :
      HasShortTag S
      → (block_size : ℕ) {raws : List RawBlock} {bs : List ProcessedBlock}
      → AreMade L S Z c id e raws bs
      → Fit L S Z block_size raws
      → AreSmall bs
  AreMade-AreSmall tag block_size none_made h = tt
  AreMade-AreSmall tag block_size (one_made {raw} {b} {raws} {bs} nonce p made) (_, size, fits) =
      let m = process_block-Making L S Z nonce raw c id e b p in
      (
        omega (
          arith,
          ap (λ (x : ProcessedBlock). length x.processed_data) m.result,
          length-encrypt_block S tag raw.id _ m.sealed (block nonce) id c m.sealing,
          payload_le m.compressed raw.raw_data,
        ),
        AreMade-AreSmall tag block_size made fits,
      )
