-- ===== src/Consts.antt =====
-- src/consts.rs: the signature, the version and the default limits.
use cryo.Base.{ℕ, ◌*◌, Option, some, [], ◌∷◌}
use cryo.Base.Bytes.{Bytes}

abbrev pub magic_bytes : Bytes
magic_bytes = 0x43 ∷ 0x52 ∷ 0x59 ∷ 0x4f ∷ 0x1a ∷ 0x0a ∷ 0x0d ∷ 0x00 ∷ []

abbrev pub format_version : ℕ
format_version = 3

abbrev pub max_file_size : ℕ
max_file_size = 10 * 1024 * 1024 * 1024

abbrev pub max_block_size : ℕ
max_block_size = 256 * 1024 * 1024

abbrev pub max_m_cost : ℕ
max_m_cost = 1024 * 1024

abbrev pub max_index_size : ℕ
max_index_size = 100 * 1024 * 1024

abbrev pub max_header_size : ℕ
max_header_size = 64 * 1024

abbrev pub stored_block_overhead : ℕ
stored_block_overhead = 1024

pub record Limits : Type 0 where
  pub block_size : Option ℕ
  pub file_size : Option ℕ
  pub m_cost : Option ℕ
  pub index_size : Option ℕ
  pub header_size : Option ℕ

abbrev pub default_limits : Limits
default_limits = record {
  block_size = some max_block_size;
  file_size = some max_file_size;
  m_cost = some max_m_cost;
  index_size = some max_index_size;
  header_size = some max_header_size;
}
