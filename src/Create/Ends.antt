-- ===== src/Create/Ends.antt =====
-- What a run leaves under the archive's name, whether it succeeds or fails.
use mathlib.Core.Path.{subst}
use cryo.Base.{
  ◌≡◌, refl, sym, ap, ◌∙◌, Bool, true, false, Option, none, some, List, [], arith, map,
  if◌then◌else◌, inl, inr,
}
use cryo.Base.Bytes.{Bytes}
use cryo.Codec.{Cipher, new_cipher}
use cryo.Compress.Chunks.{ReadState}
use cryo.Compress.Input.{read_inputs}
use cryo.Create.{
  CompressArgs, System, input_at, Run, Trace, untouched, abandoned, removed, kept, choose_files,
  check_args, join_threads, conclude, left_over, header_of, compress_chosen, compress_files,
  initialize_compression,
}
use cryo.Create.Outcome.{
  compress_files-conclude, compress_files-failed, compress_files-unread, initialize_compression-bad,
  initialize_compression-good, join_threads-ok, receive-closes,
}
use cryo.Disk.{File}
use cryo.Errors.{Result, ok, err, Result-cases, CryoErrors, invalid_path}
use cryo.Externals.{Compressors, Ciphers, Serializers}
use cryo.FilePath.{FilePath}
use cryo.Writer.{block, ArchiveWriter, new_archive}
use cryo.Compress.Queue.{close, writer}

module _ (L : Compressors) (S : Ciphers) (Z : Serializers) (args : CompressArgs) (run : Run)
    (sys : System) where
  -- The bytes of an archive that has been closed with the index of all that was read.
  pub record IsClosed (content : Bytes) : Type 0 where
    pub root : FilePath
    pub files : List FilePath
    pub t : ReadState
    pub first : ArchiveWriter
    pub blocks_written : ArchiveWriter
    pub last : ArchiveWriter
    pub chosen : choose_files sys args ≡ some (ok (root, files))
    pub everything_read : read_inputs root args.bs (map (input_at sys) files) ≡ some (ok tt, t)
    pub no_failure : (run.workers t.sent).failures ≡ []
    pub begun : new_archive S Z run.created (header_of args run) args.confirm run.typed ≡ ok first
    pub written :
        writer L S Z run.index_nonce (map block (run.workers t.sent).sent) first ≡ ok blocks_written
    pub closing : close L S Z run.index_nonce t.files t.stream_position blocks_written ≡ ok last
    pub left : content ≡ last.writer.content

  -- Why no file has been made.
  pub data NotMade (x : CryoErrors) : Type 0 where
    refused : check_args L S Z sys args ≡ err x → NotMade x
    not_chosen : choose_files sys args ≡ some (err x) → NotMade x
    no_key : new_cipher S (header_of args run) args.confirm run.typed ≡ err x → NotMade x
    no_file : run.created ≡ none → x ≡ invalid_path → NotMade x

  -- The file has been made, and its header stands in it.
  abbrev pub IsBegun : Type 0
  IsBegun =
      (a : ArchiveWriter) × (new_archive S Z run.created (header_of args run) args.confirm run.typed
        ≡ ok a)

  -- Which result goes with which trace.
  pub data Ends : Result (Unit {0}) → Trace → Type 0 where
    completed : (content : Bytes) → IsClosed content → Ends (ok tt) (kept content)
    nothing_made : (x : CryoErrors) → NotMade x → Ends (err x) untouched
    taken_back : (x : CryoErrors) → IsBegun → run.removable ≡ true → Ends (err x) removed
    not_removed : (x : CryoErrors) → IsBegun → run.removable ≡ false → Ends (err x) abandoned
    no_header :
        (x : CryoErrors) (file : File)
        → run.created ≡ some file
        → new_archive S Z run.created (header_of args run) args.confirm run.typed ≡ err x
        → Ends (err x) abandoned

  joined-IsClosed :
      (root : FilePath) (files : List FilePath) (read : Result (Unit {0})) (t : ReadState)
      (a b : ArchiveWriter)
      → choose_files sys args ≡ some (ok (root, files))
      → read_inputs root args.bs (map (input_at sys) files) ≡ some (read, t)
      → new_archive S Z run.created (header_of args run) args.confirm run.typed ≡ ok a
      → join_threads L S Z run (run.workers t.sent) read t a ≡ ok b
      → IsClosed b.writer.content
  unfolding writer
  joined-IsClosed root files read t a b chosen reading begun joined =
      let (none_failed, all_read, closing) =
        join_threads-ok L S Z run (run.workers t.sent) read t a b joined in
      let (before, written, closed) =
        receive-closes L S Z run.index_nonce (run.workers t.sent).sent t.files t.stream_position _ b
          closing in
      record {
        root = root;
        files = files;
        t = t;
        first = a;
        blocks_written = before;
        begun = begun;
        written = written;
        last = b;
        chosen = chosen;
        everything_read = reading ∙ ap (λ (r : Result (Unit {0})). some (r, t)) all_read;
        no_failure = none_failed;
        closing = closed;
        left = refl;
      }

  conclude-Ends :
      IsBegun
      → (r : Result ArchiveWriter) → ((b : ArchiveWriter) → r ≡ ok b → IsClosed b.writer.content)
      → Ends (conclude run r).0 (conclude run r).1
  conclude-Ends begun (ok b) h = completed b.writer.content (h b refl)
  conclude-Ends begun (err x) h = on_removal run.removable refl
    where
      on_removal : (b : Bool) → run.removable ≡ b → Ends (err x) (if b then removed else abandoned)
      on_removal true e = taken_back x begun e
      on_removal false e = not_removed x begun e

  -- The first of the things that `new_archive` needs.
  no_key-NotMade :
      (x y : CryoErrors)
      → new_archive S Z run.created (header_of args run) args.confirm run.typed ≡ err x
      → new_cipher S (header_of args run) args.confirm run.typed ≡ err y
      → NotMade x
  unfolding new_archive
  no_key-NotMade x y failed keyless = no_key (ground arith)

  no_file-NotMade :
      (x : CryoErrors) (c : Cipher)
      → new_archive S Z run.created (header_of args run) args.confirm run.typed ≡ err x
      → new_cipher S (header_of args run) args.confirm run.typed ≡ ok c
      → run.created ≡ none
      → NotMade x
  unfolding new_archive
  no_file-NotMade x c failed keyed missing = no_file missing (ground arith)

  left_over-Ends :
      (x : CryoErrors)
      → new_archive S Z run.created (header_of args run) args.confirm run.typed ≡ err x
      → Ends (err x) (left_over L S Z run (header_of args run) args.confirm)
  left_over-Ends x failed =
      on_cipher (new_cipher S (header_of args run) args.confirm run.typed) run.created refl refl
    where
      on_cipher :
          (c : Result Cipher) (o : Option File)
          → new_cipher S (header_of args run) args.confirm run.typed ≡ c
          → run.created ≡ o
          → Ends (err x) (elim c [
            | err e ↦ untouched
            | ok c' ↦ elim o [ none ↦ untouched | some file ↦ abandoned ]
          ])
      on_cipher (err y) o k e = nothing_made x (no_key-NotMade x y failed k)
      on_cipher (ok c) none k e = nothing_made x (no_file-NotMade x c failed k e)
      on_cipher (ok c) (some file) k e = no_header x file e failed

  pair-Ends :
      {x y : Result (Unit {0}) × Trace} → Ends x.0 x.1 → Option.some x ≡ some y → Ends y.0 y.1
  pair-Ends h e = subst (λ (z : Result (Unit {0}) × Trace). Ends z.0 z.1) (cc e) h

  compress_files-Ends :
      (root : FilePath) (files : List FilePath) (r : Result (Unit {0})) (tr : Trace)
      → choose_files sys args ≡ some (ok (root, files))
      → compress_files L S Z args sys run root files ≡ some (r, tr)
      → Ends r tr
  compress_files-Ends root files r tr chosen e =
      elim (Result-cases
        (new_archive S Z run.created (header_of args run) args.confirm run.typed)) [
          | inr (x, failed) ↦
              pair-Ends (left_over-Ends x failed)
                (sym (compress_files-failed L S Z args sys run root files x failed) ∙ e)
          | inl (a, opening) ↦
              on_read a opening (read_inputs root args.bs (map (input_at sys) files)) refl
        ]
    where
      on_read :
          (a : ArchiveWriter)
          → new_archive S Z run.created (header_of args run) args.confirm run.typed ≡ ok a
          → (o : Option (Result (Unit {0}) × ReadState))
          → read_inputs root args.bs (map (input_at sys) files) ≡ o
          → Ends r tr
      on_read a opening (some (read, t)) reading =
          pair-Ends
            (conclude-Ends (a, opening) (join_threads L S Z run (run.workers t.sent) read t a)
              (λ b joined. joined-IsClosed root files read t a b chosen reading opening joined))
            (sym (compress_files-conclude L S Z args sys run root files read t a reading opening)
              ∙ e)
      on_read a opening none reading =
          absurd
            (cc (sym (compress_files-unread L S Z args sys run root files a reading opening) ∙ e))

  -- Whenever a run returns, it has kept the archive that the writer has closed, behind the blocks sent, with the index of all
  -- that was read if it succeeded. If it failed, it has made no file, since the arguments, the
  -- input, the password or the file's name were refused; or it has removed what it made, but for
  -- two cases: the file cannot be removed, or `ArchiveWriter::new` failed behind the creation of
  -- the file, which then stays.
  pub initialize_compression-Ends :
      (r : Result (Unit {0})) (tr : Trace)
      → initialize_compression L S Z args sys run ≡ some (r, tr)
      → Ends r tr
  initialize_compression-Ends r tr e = on_args (check_args L S Z sys args) refl
    where
      on_files :
          (o : Option (Result (FilePath × List FilePath)))
          → choose_files sys args ≡ o
          → compress_chosen L S Z args sys run o ≡ some (r, tr)
          → Ends r tr
      on_files none k e' = absurd (cc e')
      on_files (some (err x)) k e' = pair-Ends (nothing_made x (not_chosen k)) e'
      on_files (some (ok (root, files))) k e' = compress_files-Ends root files r tr k e'

      on_args : (c : Result (Unit {0})) → check_args L S Z sys args ≡ c → Ends r tr
      on_args (err x) bad =
          pair-Ends (nothing_made x (refused bad))
            (sym (initialize_compression-bad L S Z args sys run x bad) ∙ e)
      on_args (ok u) good =
          on_files (choose_files sys args) refl
            (sym (initialize_compression-good L S Z args sys run _ good refl) ∙ e)
