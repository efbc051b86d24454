-- ===== src/Engine/Levels.antt =====
-- Which levels an engine accepts.
use cryo.Base.{◌≡◌, refl, arith, ◌≢◌, ◌↔◌}
use cryo.Base.Int.{ℤ, ◌≤ℤ◌}
use cryo.Engine.Algo.{Compressor}
use cryo.Engine.{name, give_range, new_compressing}
use cryo.Errors.{err, invalid_compression_level}
use cryo.Externals.{Compressors}

module _ (L : Compressors) where
  -- Under an algorithm that compresses, a level is refused with the bounds that `give_range` names
  -- exactly where it lies outside them.
  pub new_compressing_range :
      (algo : Compressor) (level : ℤ)
      → algo ≢ Compressor.none
      → (new_compressing L algo level
          ≡ err (invalid_compression_level (name algo) (give_range L algo).0 (give_range L algo).1))
        ↔ ¬ (((give_range L algo).0 ≤ℤ level) × (level ≤ℤ (give_range L algo).1))
  unfolding new_compressing
  new_compressing_range Compressor.zstd level h = grind arith
  new_compressing_range Compressor.xz level h = grind arith
  new_compressing_range Compressor.deflate level h = grind arith
  new_compressing_range Compressor.none level h = absurd (h refl)
