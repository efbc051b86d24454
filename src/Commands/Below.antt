-- ===== src/Commands/Below.antt =====
-- What the commands that read an archive do to the disk, and the limits that they set.
use cryo.FilePath.{FilePath}
