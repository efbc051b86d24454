-- ===== src/Compress/Chunks/Lost.antt =====
-- A block size of 0, which the command line lets through.
use cryo.Base.{◌≡◌, ◌∙◌, none, some, arith, length, inr}
use cryo.Compress.Chunks.{
  ReadState, Metadata, OpenFile, InputEntry, file_type, entry, push, read_file_to_bytes,
}
use cryo.Compress.Chunks.Stream.{read_end, read_file_to_bytes-regular}
use cryo.Errors.{ok}
use cryo.FilePath.{FilePath, strip_prefix}
use cryo.Format.{FileType}

-- With a block size of 0, a regular file under the root whose first read does not fail is listed
-- with the size of its metadata, without an error, and the stream, the pending bytes and the
-- blocks sent stay as they were.
pub read_file_to_bytes-lost :
    (root stripped : FilePath) (i : InputEntry) (m : Metadata) (f : OpenFile) (s : ReadState)
    → i.symlink_metadata ≡ inr m
    → file_type m ≡ FileType.file
    → strip_prefix i.path root ≡ some stripped
    → i.opened ≡ inr f
    → f.fault 0 ≡ none
    → read_file_to_bytes root 0 i s
      ≡ some (ok tt, push (entry stripped FileType.file m s.stream_position m.size none) s)
read_file_to_bytes-lost root stripped i m f s em et es eo readable =
    read_file_to_bytes-regular root stripped i m f 0 s em et es eo
    ∙ read_end (length f.content) i.path f 0 0 f.content _ readable (ground arith)
