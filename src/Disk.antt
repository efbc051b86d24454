-- ===== src/Disk.antt =====
-- std::fs::File with its cursor, as far as the program uses it. `room` is how long the device lets
-- the file grow; a buffered write that fails later, at the flush, fails here at once.
pub mod Laws
use cryo.Base.{
  ℕ, ◌+◌, ◌-◌, ◌^◌, Bool, Option, none, some, ◌++◌, leb, ltb, if◌then◌else◌, length, take, drop,
  replicate, slice,
}
use cryo.Base.Bytes.{Bytes}
use cryo.Errors.{Result, ok, err, IoError, unexpected_eof, os_error, read_failed}
use cryo.FilePath.{FilePath}

pub record File : Type 0 where
  pub content : Bytes
  pub cursor : ℕ
  pub room : ℕ

-- The bytes from `pos` on are replaced; a gap behind the end is filled with zeros.
unfoldable pub overwrite : Bytes → ℕ → Bytes → Bytes
overwrite old pos bs =
    take pos old ++ (replicate (pos - length old) 0 ++ (bs ++ drop (pos + length bs) old))

-- `write_all`
unfoldable pub write_all : Bytes → File → Option File
unfolding overwrite
write_all bs f =
    let end = f.cursor + length bs in
    if leb end f.room
    then some (record f { content = overwrite f.content f.cursor bs; cursor = end })
    else none

-- `set_len`; the cursor stays.
unfoldable pub set_len : ℕ → File → Option File
set_len n f =
    if leb n f.room
    then some (record f { content = take n f.content ++ replicate (n - length f.content) 0 })
    else none

-- `lseek` takes a signed offset; 22 is EINVAL.
abbrev max_offset : ℕ
max_offset = 2 ^ 63

-- `seek(SeekFrom::Start(pos))`: the new position.
unfoldable pub seek_start : FilePath → ℕ → Result ℕ
seek_start p pos = if ltb pos max_offset then ok pos else err (read_failed p (os_error 22))

-- `seek(SeekFrom::End(-back))`
unfoldable pub seek_end : FilePath → ℕ → Bytes → Result ℕ
seek_end p back content =
    if leb back (length content)
    then ok (length content - back)
    else err (read_failed p (os_error 22))

-- `read_exact` of `n` bytes at a position.
unfoldable pub read_exact : FilePath → ℕ → ℕ → Bytes → Result Bytes
read_exact p pos n content =
    if leb (pos + n) (length content)
    then ok (slice pos (pos + n) content)
    else err (read_failed p unexpected_eof)
