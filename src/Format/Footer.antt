-- ===== src/Format/Footer.antt =====
-- src/format.rs: the 29 bytes at the end of an archive.
pub mod RoundTrip
use cryo.Base.{
  ℕ, ◌<◌, ◌-◌, ◌≡◌, refl, ◌≢◌, Bool, true, false, not, Option, none, some, List, [], ◌∷◌, ◌++◌,
  arith, ◌==◌, if◌then◌else◌, length, slice, take, drop, get_elem?, All,
}
use cryo.Base.Bytes.{Bytes, IsByte, u32_mod, u64_mod, to_le_bytes, from_le_bytes}
use cryo.Errors.{Result, ok, err, CryoErrors, deserialization_failed, ◌>>=◌, ◌>>◌}

pub record Footer : Type 0 where
  pub index_offset : ℕ
  pub index_size_stored : ℕ
  pub index_size_plain : ℕ
  pub index_compressed : Bool
  pub index_nonce : Bytes

-- The values that the Rust field types can hold.
pub record IsFooter (f : Footer) : Type 0 where
  pub offset_fits : f.index_offset < u64_mod
  pub stored_fits : f.index_size_stored < u32_mod
  pub plain_fits : f.index_size_plain < u32_mod
  pub nonce_fits : length f.index_nonce ≡ 12

unfoldable pub serialize : Footer → Bytes
serialize f =
    to_le_bytes 8 f.index_offset
    ++ (to_le_bytes 4 f.index_size_stored
        ++ (to_le_bytes 4 f.index_size_plain
            ++ ((if f.index_compressed then 1 else 0) ∷ f.index_nonce)))

-- `raw[a..b].try_into()`: an array of `b - a` bytes, or the error.
abbrev to_array : ℕ → ℕ → Bytes → Result Bytes
to_array a b raw =
    let part = slice a b raw in
    if length part == (b - a) then ok part else err deserialization_failed

-- `raw[i]` of that array
abbrev byte_at : ℕ → Bytes → Result ℕ
byte_at i bs = elim (get_elem? bs i) [ none ↦ err deserialization_failed | some b ↦ ok b ]

-- `raw_data` is the array of 29 bytes that the loader has read.
unfoldable pub deserialize : Bytes → Result Footer
deserialize raw = do
  raw_index_offset ← to_array 0 8 raw
  raw_size_stored ← to_array 8 12 raw
  raw_size_plain ← to_array 12 16 raw
  raw_compressed ← byte_at 16 raw
  nonce ← to_array 17 29 raw
  ok (record {
    index_offset = from_le_bytes raw_index_offset;
    index_size_stored = from_le_bytes raw_size_stored;
    index_size_plain = from_le_bytes raw_size_plain;
    index_compressed = not (raw_compressed == 0);
    index_nonce = nonce;
  })
