-- ===== src/Create/Outcome.antt =====
-- What a run that succeeds has done.
use cryo.Base.{
  ℕ, ◌≡◌, refl, sym, ap, ◌∙◌, Bool, Option, none, some, List, [], ◌∷◌, ◌++◌, map, arith, inl, inr,
}
use cryo.Base.Bytes.{Bytes}
use cryo.Codec.{Cipher, Prompts, new_cipher}
use cryo.Compress.Chunks.{ReadState}
use cryo.Compress.Input.{read_inputs}
use cryo.Compress.Queue.{WriterState, accept, close, receive, writer}
use cryo.Format.{FileEntry}
use cryo.Create.{
  CompressArgs, System, input_at, Run, untouched, kept, workers_result, choose_files,
  check_compression_for_arg_err, check_args, join_writer, join_threads, conclude, left_over,
  header_of, compress_files, compress_chosen, initialize_compression,
}
use cryo.Compress.Workers.{Pool}
use cryo.Create.Stored.{fresh}
use cryo.Disk.{File, write_all}
use cryo.Engine.{CompressingEngine, new_compressing}
use cryo.Errors.{
  Result, ok, err, or_err, >>=-eq-ok, or_err-eq-ok, Result-cases, CryoErrors, invalid_path,
  serialization_failed, write_error,
}
use cryo.Externals.{Compressors, Ciphers, Serializers}
use cryo.FilePath.{FilePath}
use cryo.Format.{Header}
use cryo.Writer.{ProcessedBlock, block, finalize, ArchiveWriter, header_part, new_archive}

-- An archive that `new_archive` has begun.
pub record Begun (S : Ciphers) (Z : Serializers) (created : Option File) (h : Header)
    (confirm : Bool) (typed : Prompts) (a : ArchiveWriter) : Type 0 where
  pub cipher : Cipher
  pub file : File
  pub written : File
  pub header_bytes : Bytes
  pub keyed : new_cipher S h confirm typed ≡ ok cipher
  pub creating : created ≡ some file
  pub encodes : Z.header_to_vec h ≡ some header_bytes
  pub writing : write_all (header_part header_bytes) file ≡ some written
  pub begun : a ≡ fresh h cipher header_bytes written

pub new_archive-Begun :
    (S : Ciphers) (Z : Serializers) (created : Option File) (h : Header) (confirm : Bool)
    (typed : Prompts) (a : ArchiveWriter)
    → new_archive S Z created h confirm typed ≡ ok a
    → Begun S Z created h confirm typed a
unfolding new_archive
new_archive-Begun S Z created h confirm typed a e =
    let (c, e0, e1) = >>=-eq-ok (new_cipher S h confirm typed) _ e in
    let (f, e2, e3) = >>=-eq-ok (or_err invalid_path created) _ e1 in
    let (hb, e4, e5) = >>=-eq-ok (or_err serialization_failed (Z.header_to_vec h)) _ e3 in
    let (w, e6, e7) = >>=-eq-ok (or_err write_error (write_all (header_part hb) f)) _ e5 in
    record {
      cipher = c;
      file = f;
      written = w;
      header_bytes = hb;
      keyed = e0;
      creating = or_err-eq-ok invalid_path created e2;
      encodes = or_err-eq-ok serialization_failed (Z.header_to_vec h) e4;
      writing = or_err-eq-ok write_error (write_all (header_part hb) f) e6;
      begun = sym (cc e7);
    }

-- The last message makes the writer close the archive of the blocks before.
pub receive-closes :
    (L : Compressors) (S : Ciphers) (Z : Serializers) (nonce : Bytes) (coming : List ProcessedBlock)
    (files : List FileEntry) (total : ℕ) (s : WriterState) (b : ArchiveWriter)
    → receive L S Z nonce (map block coming ++ (finalize files total ∷ [])) s ≡ ok b
    → (a : ArchiveWriter) × (receive L S Z nonce (map block coming) s ≡ ok a)
      × (close L S Z nonce files total a ≡ ok b)
unfolding receive
receive-closes L S Z nonce [] files total s b h = (s.arch, refl, h)
receive-closes L S Z nonce (x ∷ coming) files total s b h =
    let (s', e, h') = >>=-eq-ok (accept x s) _ h in
    let (a, taken, closed) = receive-closes L S Z nonce coming files total s' b h' in
    (a, rw e taken, closed)

-- No worker has failed where `try_for_each` returns no error.
pub workers_result-ok : (es : List CryoErrors) → workers_result es ≡ ok tt → es ≡ []
workers_result-ok [] e = refl
workers_result-ok (x ∷ es) e = cc

module _ (L : Compressors) (S : Ciphers) (Z : Serializers) where
  -- What a run has done that ends well.
  pub record Completed (args : CompressArgs) (sys : System) (run : Run) (root : FilePath)
      (files : List FilePath) (t : ReadState) (content : Bytes) : Type 0 where
    pub first : ArchiveWriter
    pub last : ArchiveWriter
    pub opening : new_archive S Z run.created (header_of args run) args.confirm run.typed ≡ ok first
    pub no_failure : (run.workers t.sent).failures ≡ []
    pub closing :
        writer L S Z run.index_nonce
          (map block (run.workers t.sent).sent ++ (finalize t.files t.stream_position ∷ []))
          first
        ≡ ok last
    pub left : content ≡ last.writer.content

  join_writer-ok :
      (run : Run) (pool : Pool) (t : ReadState) (a b : ArchiveWriter)
      → join_writer L S Z run pool t a ≡ ok b
      → writer L S Z run.index_nonce
          (map block pool.sent ++ (finalize t.files t.stream_position ∷ []))
          a
        ≡ ok b
  unfolding join_writer
  join_writer-ok run pool t a b e = ground arith

  pub join_threads-ok :
      (run : Run) (pool : Pool) (read : Result (Unit {0})) (t : ReadState) (a b : ArchiveWriter)
      → join_threads L S Z run pool read t a ≡ ok b
      → (pool.failures ≡ [])
        × (read ≡ ok tt)
        × (writer L S Z run.index_nonce
              (map block pool.sent ++ (finalize t.files t.stream_position ∷ []))
              a
            ≡ ok b)
  unfolding join_threads
  join_threads-ok run pool read t a b e =
      let (_, ok_workers, rest) = >>=-eq-ok (workers_result pool.failures) _ e in
      let (_, all_read, closing) = >>=-eq-ok read _ rest in
      (workers_result-ok pool.failures ok_workers, all_read, join_writer-ok run pool t a b closing)

  conclude-kept :
      (run : Run) (r : Result ArchiveWriter) (content : Bytes)
      → conclude run r ≡ (ok tt, kept content)
      → (b : ArchiveWriter) × (r ≡ ok b) × (content ≡ b.writer.content)
  conclude-kept run (ok b) content e = (b, refl, cc)
  conclude-kept run (err x) content e = cc

  pub compress_files-conclude :
      (args : CompressArgs) (sys : System) (run : Run) (root : FilePath) (files : List FilePath)
      (read : Result (Unit {0})) (t : ReadState) (a : ArchiveWriter)
      → read_inputs root args.bs (map (input_at sys) files) ≡ some (read, t)
      → new_archive S Z run.created (header_of args run) args.confirm run.typed ≡ ok a
      → compress_files L S Z args sys run root files
        ≡ some (conclude run (join_threads L S Z run (run.workers t.sent) read t a))
  unfolding compress_files
  compress_files-conclude args sys run root files read t a reading opening =
      rw (opening, compress_files) (rw reading refl)

  pub compress_files-unread :
      (args : CompressArgs) (sys : System) (run : Run) (root : FilePath) (files : List FilePath)
      (a : ArchiveWriter)
      → read_inputs root args.bs (map (input_at sys) files) ≡ none
      → new_archive S Z run.created (header_of args run) args.confirm run.typed ≡ ok a
      → compress_files L S Z args sys run root files ≡ none
  unfolding compress_files
  compress_files-unread args sys run root files a reading opening =
      rw (opening, compress_files) (rw reading refl)

  pub compress_files-failed :
      (args : CompressArgs) (sys : System) (run : Run) (root : FilePath) (files : List FilePath)
      (x : CryoErrors)
      → new_archive S Z run.created (header_of args run) args.confirm run.typed ≡ err x
      → compress_files L S Z args sys run root files
        ≡ some (err x, left_over L S Z run (header_of args run) args.confirm)
  unfolding compress_files
  compress_files-failed args sys run root files x opening = rw (opening, compress_files) refl

  pub initialize_compression-bad :
      (args : CompressArgs) (sys : System) (run : Run) (x : CryoErrors)
      → check_args L S Z sys args ≡ err x
      → initialize_compression L S Z args sys run ≡ some (err x, untouched)
  unfolding initialize_compression
  initialize_compression-bad args sys run x bad = rw (bad, initialize_compression) refl

  pub initialize_compression-good :
      (args : CompressArgs) (sys : System) (run : Run)
      (o : Option (Result (FilePath × List FilePath)))
      → check_args L S Z sys args ≡ ok tt
      → choose_files sys args ≡ o
      → initialize_compression L S Z args sys run ≡ compress_chosen L S Z args sys run o
  unfolding initialize_compression
  initialize_compression-good args sys run o good chosen =
      rw (good, initialize_compression) (ap (compress_chosen L S Z args sys run) chosen)

  initialize_compression-compress_files :
      (args : CompressArgs) (sys : System) (run : Run) (root : FilePath) (files : List FilePath)
      (content : Bytes)
      → choose_files sys args ≡ some (ok (root, files))
      → initialize_compression L S Z args sys run ≡ some (ok tt, kept content)
      → compress_files L S Z args sys run root files ≡ some (ok tt, kept content)
  initialize_compression-compress_files args sys run root files content chosen e =
      elim (Result-cases (check_args L S Z sys args)) [
        | inl (u, good) ↦
            sym (initialize_compression-good args sys run (some (ok (root, files))) good chosen) ∙ e
        | inr (x, bad) ↦ absurd (cc (sym (initialize_compression-bad args sys run x bad) ∙ e))
      ]

  pub check_args-starts :
      (sys : System) (args : CompressArgs)
      → check_args L S Z sys args ≡ ok tt
      → (e : CompressingEngine) × (new_compressing L args.compression args.compression_level ≡ ok e)
  unfolding check_args
  check_args-starts sys args h =
      let (_, _, rest) =
        >>=-eq-ok
          (check_compression_for_arg_err sys args.archive_name args.path_to_compress args.recursive)
          _ h in
      let (e, starts, _) =
        >>=-eq-ok (new_compressing L args.compression args.compression_level) _ rest in
      (e, starts)

  pub initialize_compression-starts :
      (args : CompressArgs) (sys : System) (run : Run) (content : Bytes)
      → initialize_compression L S Z args sys run ≡ some (ok tt, kept content)
      → (e : CompressingEngine) × (new_compressing L args.compression args.compression_level ≡ ok e)
  initialize_compression-starts args sys run content e =
      elim (Result-cases (check_args L S Z sys args)) [
        | inl (u, good) ↦ check_args-starts sys args good
        | inr (x, bad) ↦ absurd (cc (sym (initialize_compression-bad args sys run x bad) ∙ e))
      ]

  -- Where the run succeeds, each of its parts has.
  pub initialize_compression-Completed :
      (args : CompressArgs) (sys : System) (run : Run) (root : FilePath) (files : List FilePath)
      (read : Result (Unit {0})) (t : ReadState) (content : Bytes)
      → choose_files sys args ≡ some (ok (root, files))
      → read_inputs root args.bs (map (input_at sys) files) ≡ some (read, t)
      → initialize_compression L S Z args sys run ≡ some (ok tt, kept content)
      → Completed args sys run root files t content
  initialize_compression-Completed args sys run root files read t content chosen reading e =
      let e1 = initialize_compression-compress_files args sys run root files content chosen e in
      elim (Result-cases
        (new_archive S Z run.created (header_of args run) args.confirm run.typed)) [
          | inl (a, opening) ↦
              let e2 =
                sym (compress_files-conclude args sys run root files read t a reading opening)
                ∙ e1 in
              let (b, joined, left) =
                conclude-kept run (join_threads L S Z run (run.workers t.sent) read t a) content
                  (cc e2) in
              let (no_failure, _, closing) =
                join_threads-ok run (run.workers t.sent) read t a b joined in
              record {
                first = a;
                last = b;
                opening = opening;
                no_failure = no_failure;
                closing = closing;
                left = left;
              }
          | inr (x, failed) ↦
              absurd (cc (e1, sym (compress_files-failed args sys run root files x failed)))
        ]
