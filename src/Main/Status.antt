-- ===== src/Main/Status.antt =====
-- What the exit status of the program says.
use cryo.Append.{AppendEnd, AppendArgs}
use cryo.Append.Ends.{IsSwept, IsReplaced}
use cryo.Base.{◌≡◌, false, [], ◌∷◌, List, inr}
use cryo.Base.Bytes.{Bytes}
use cryo.Base.Text.{Text, codes}
use cryo.Commands.{DecompressArgs, initialize_decompression, verify_archive}
use cryo.Consts.{default_limits}
use cryo.Engine.{DecompressingEngine, new_decompressing}
use cryo.Extract.Below.{IsUnder}
use cryo.FilePath.{FilePath, cur_dir}
use cryo.Reader.{ArchiveReader, new_reader, verify}
use cryo.Reader.Verify.{Checked}
use cryo.Listing.Files.{ListArgs, list_files}
use cryo.Create.{Trace, kept, CompressArgs}
use cryo.Create.Ends.{Ends, IsClosed}
use cryo.Errors.{ok, err, CryoErrors}
use cryo.Externals.{Compressors, Ciphers, Serializers}
use cryo.Format.Sizes.{Floats}
use cryo.Main.{
  Command, World, Effect, compressed, extracted, partly_extracted, only_read, appended, Process,
  error_lines,
}
use cryo.PathSafety.{Change}
use cryo.Printers.{Printers}

module _ (pr : Printers) (fl : Floats) (L : Compressors) (S : Ciphers) (Z : Serializers)
    (w : World) where
  -- The archive opens, and every block has bytes with its checksum, which the extraction reads.
  pub record IsVerified (archive : FilePath) : Type 0 where
    pub content : Bytes
    pub r : ArchiveReader
    pub engine : DecompressingEngine
    pub plain : List Bytes
    pub opened : w.paths.opened archive ≡ inr content
    pub opens : new_reader L S Z archive (cur_dir ∷ []) default_limits false w.typed content ≡ ok r
    pub starts : new_decompressing L r.header.compression ≡ ok engine
    pub checked : Checked L S Z r engine 0 r.index.block plain

  -- What a command has done.
  pub data IsDone : Command → Text → Effect → Type 0 where
    archived :
        (args : CompressArgs) (content : Bytes)
        → IsClosed L S Z args w.run w.system content
        → IsDone (Command.compress args) [] (compressed (kept content))
    restored :
        (args : DecompressArgs) (changes : List Change)
        → initialize_decompression L S Z w.globs w.paths w.disk args w.typed ≡ ok changes
        → IsUnder w.disk args.output changes
        → IsDone (Command.decompress args) [] (extracted changes)
    listed :
        (args : ListArgs) (out : Text)
        → list_files pr fl L S Z w.paths w.terminal args w.typed ≡ ok out
        → IsDone (Command.list args) out only_read
    verified :
        (archive : FilePath)
        → IsVerified archive
        → IsDone (Command.verify archive) (codes "Successfully verified the archive!\n") only_read
    replaced :
        (args : AppendArgs) (e : AppendEnd)
        → IsReplaced L S Z args w.system w.append_run w.appended_to e
        → IsDone (Command.append args) [] (appended e)

  -- What a command leaves that returns the error `x`.
  pub data IsUndone (x : CryoErrors) : Command → Effect → Type 0 where
    not_archived :
        (args : CompressArgs) (trace : Trace)
        → Ends L S Z args w.run w.system (err x) trace
        → IsUndone x (Command.compress args) (compressed trace)
    not_restored :
        (args : DecompressArgs)
        → initialize_decompression L S Z w.globs w.paths w.disk args w.typed ≡ err x
        → IsUndone x (Command.decompress args) partly_extracted
    not_listed :
        (args : ListArgs)
        → list_files pr fl L S Z w.paths w.terminal args w.typed ≡ err x
        → IsUndone x (Command.list args) only_read
    not_verified :
        (archive : FilePath)
        → verify_archive L S Z w.paths archive w.typed ≡ err x
        → IsUndone x (Command.verify archive) only_read
    not_replaced :
        (args : AppendArgs) (e : AppendEnd)
        → e.result ≡ err x
        → e.archive ≡ w.appended_to
        → IsSwept L S Z args w.system w.append_run w.appended_to e
        → IsUndone x (Command.append args) (appended e)

  pub data IsTruthful (command : Command) (p : Process) : Type 0 where
    success :
        p.exit_code ≡ 0 → p.stderr ≡ [] → IsDone command p.stdout p.effect → IsTruthful command p
    failure :
        (x : CryoErrors)
        → p.exit_code ≡ 1
        → p.stdout ≡ []
        → p.stderr ≡ error_lines pr x
        → IsUndone x command p.effect
        → IsTruthful command p
