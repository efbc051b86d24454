-- ===== src/Format.antt =====
-- src/format.rs: the structures of an archive. A fixed array [u8; n] is a byte string, and its
-- length is a hypothesis where a theorem needs it.
pub mod Footer
pub mod Sizes
use cryo.Base.{ℕ, Bool, List, Option}
use cryo.Base.Bytes.{Bytes}
use cryo.Base.Int.{ℤ}
use cryo.Consts.{magic_bytes, format_version}
use cryo.Engine.Algo.{Compressor}
use cryo.FilePath.{FilePath}

-- What is sealed: the index or a block, each with its nonce.
pub data EncryptedData : Type 0 where
  index block : Bytes → EncryptedData

pub record BlockEntry : Type 0 where
  pub offset : ℕ
  pub size_stored : ℕ
  pub size_plain : ℕ
  pub is_compressed : Bool
  pub nonce : Bytes
  pub checksum : Bytes

pub data FileType : Type 0 where
  file dir symlink : FileType

pub record FileEntry : Type 0 where
  pub path : FilePath
  pub ftype : FileType
  pub stream_offset : ℕ
  pub size : ℕ
  pub timestamp : ℕ
  pub permissions : ℕ
  pub symlink_target : Option FilePath

pub record Index : Type 0 where
  pub files : List FileEntry
  pub block : List BlockEntry
  pub total_stream_size : ℕ

pub data EncryptionType : Type 0 where
  aes cha_cha none : EncryptionType

pub record Header : Type 0 where
  pub magic : Bytes
  pub version : ℕ
  pub compression : Compressor
  pub compression_level : ℤ
  pub encryption : EncryptionType
  pub argon_salt : Bytes
  pub argon_params : ℕ × ℕ × ℕ
  pub archive_id : Bytes
  pub block_size : ℕ

pub data ParamsProfile : Type 0 where
  fast balanced paranoid : ParamsProfile

unfoldable pub params : ParamsProfile → ℕ × ℕ × ℕ
params fast = (19456, 2, 1)
params balanced = (65536, 3, 4)
params paranoid = (262144, 4, 4)

-- `Header::new`; the salt and the archive id are drawn by the caller's random source.
unfoldable pub new_header :
    ParamsProfile → Compressor → ℤ → ℕ → EncryptionType → Bytes → Bytes → Header
unfolding params
new_header profile algo level bs enc salt id = record {
  magic = magic_bytes;
  version = format_version;
  compression = algo;
  compression_level = level;
  encryption = enc;
  argon_salt = salt;
  argon_params = params profile;
  archive_id = id;
  block_size = bs;
}
