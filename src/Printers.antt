-- ===== src/Printers.antt =====
-- What std and the crate bytesize print: a path as it is shown and as `{:?}`, an error of the
-- operating system, a size, and a size at the right of ten columns.
use cryo.Base.{ℕ}
use cryo.Base.Text.{Text}
use cryo.Errors.{IoError}
use cryo.FilePath.{FilePath}

pub record Printers : Type 0 where
  pub display : FilePath → Text
  pub debug : FilePath → Text
  pub io_error : IoError → Text
  pub byte_size : ℕ → Text
  pub byte_size_right : ℕ → Text
