-- ===== src/Main.antt =====
-- src/main.rs: the command that is asked for, and the exit status and the messages that it ends
-- with. The log and its option are left out.
pub mod Status
use cryo.Append.{AppendArgs, AppendRun, AppendEnd, append_file}
use cryo.Base.{ℕ, Bool, Option, none, some, [], ◌∷◌, ◌++◌, map}
use cryo.Base.Bytes.{Bytes}
use cryo.Base.Text.{Text, codes}
use cryo.Codec.{Prompts}
use cryo.Commands.{Globs, Paths, DecompressArgs, initialize_decompression, verify_archive}
use cryo.Create.{CompressArgs, System, Run, Trace, initialize_compression}
use cryo.Errors.{Result, ok, err, CryoErrors, IoError}
use cryo.Errors.Display.{display, source}
use cryo.Externals.{Compressors, Ciphers, Serializers}
use cryo.Extract.{FileSystem}
use cryo.FilePath.{FilePath}
use cryo.Format.Sizes.{Floats}
use cryo.Listing.Files.{ListArgs, list_files}
use cryo.PathSafety.{Change}
use cryo.Printers.{Printers}
use mathlib.Core.List.{List}

pub data Command : Type 0 where
  compress : CompressArgs → Command
  decompress : DecompressArgs → Command
  list : ListArgs → Command
  verify : FilePath → Command
  append : AppendArgs → Command

-- What the commands meet: the answers of the system, what is typed, and, for an append, the bytes
-- that the archive holds.
pub record World : Type 1 where
  pub system : System
  pub run : Run
  pub append_run : AppendRun
  pub appended_to : Bytes
  pub paths : Paths
  pub globs : Globs
  pub disk : FileSystem
  pub terminal : Bool
  pub typed : Prompts

-- What a command does beside its output. A decompression that fails leaves some of its changes.
pub data Effect : Type 0 where
  compressed : Trace → Effect
  extracted : List Change → Effect
  partly_extracted only_read : Effect
  appended : AppendEnd → Effect

-- How the process ends.
pub record Process : Type 0 where
  pub exit_code : ℕ
  pub stdout : Text
  pub stderr : Text
  pub effect : Effect

-- The same result with a text that is printed.
abbrev pub printing : Text → Result (Unit {0}) → Result Text
printing out (ok u) = ok out
printing out (err e) = err e

abbrev pub on_trace : Option (Result (Unit {0}) × Trace) → Option (Result Text × Effect)
on_trace none = none
on_trace (some (r, trace)) = some (printing [] r, compressed trace)

abbrev pub on_changes : Result (List Change) → Result Text × Effect
on_changes (ok changes) = (ok [], extracted changes)
on_changes (err e) = (err e, partly_extracted)

abbrev pub on_end : Option AppendEnd → Option (Result Text × Effect)
on_end none = none
on_end (some e) = some (printing [] e.result, appended e)

module _ (pr : Printers) where
  abbrev cause_lines : Option IoError → Text
  cause_lines none = []
  cause_lines (some cause) =
      codes "  "
      ++ (0x1b
          ∷ (codes "[2mcaused by:" ++ (0x1b ∷ (codes "[0m " ++ (pr.io_error cause ++ codes "\n")))))

  -- The error and what caused it; an error of the system has no cause of its own.
  unfoldable pub error_lines : CryoErrors → Text
  error_lines e =
      0x1b
      ∷ (codes "[1;31merror:"
          ++ (0x1b ∷ (codes "[0m " ++ (display pr e ++ (codes "\n" ++ cause_lines (source e))))))

  -- The status that the process ends with.
  abbrev pub end_process : Result Text × Effect → Process
  end_process (ok out, effect) = record {
    exit_code = 0;
    stdout = out;
    stderr = [];
    effect = effect;
  }
  end_process (err e, effect) = record {
    exit_code = 1;
    stdout = [];
    stderr = error_lines e;
    effect = effect;
  }

  abbrev pub ended : Option (Result Text × Effect) → Option Process
  ended none = none
  ended (some r) = some (end_process r)

module _ (pr : Printers) (fl : Floats) (L : Compressors) (S : Ciphers) (Z : Serializers) where
  -- `match cli.command`; `none` would mean that the rounds of a loop ran out.
  unfoldable pub carry_out : World → Command → Option (Result Text × Effect)
  carry_out w (compress args) = on_trace (initialize_compression L S Z args w.system w.run)
  carry_out w (decompress args) =
      some (on_changes (initialize_decompression L S Z w.globs w.paths w.disk args w.typed))
  carry_out w (list args) = some (list_files pr fl L S Z w.paths w.terminal args w.typed, only_read)
  carry_out w (verify archive) = some (
    printing (codes "Successfully verified the archive!\n")
        (verify_archive L S Z w.paths archive w.typed),
    only_read,
  )
  carry_out w (append args) = on_end (append_file L S Z args w.system w.append_run w.appended_to)

  unfoldable pub main : World → Command → Option Process
  unfolding carry_out error_lines
  main w command = ended pr (carry_out w command)
