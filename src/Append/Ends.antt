-- ===== src/Append/Ends.antt =====
-- src/append.rs: what a run of `append_file` leaves in the place of the archive and of its copy.
use mathlib.Core.Path.{subst}
use cryo.Base.{
  if◌then◌else◌, ◌≡◌, refl, ◌∙◌, Bool, true, false, Bool-cases, inl, inr, Option, none, some, List,
  [], ◌∷◌, ◌++◌, map,
}
use cryo.Base.Bytes.{Bytes}
use cryo.Compress.Chunks.{ReadState, io}
use cryo.Compress.Input.{read_all, send_rest}
use cryo.Compress.Queue.{close, writer}
use cryo.Create.Outcome.{receive-closes}
use cryo.Consts.{default_limits}
use cryo.Create.{System, input_at, workers_result}
use cryo.Disk.{seek_start}
use cryo.Errors.{Result, ok, err, >>=-eq-ok, CryoErrors, write_error}
use cryo.Externals.{Compressors, Ciphers, Serializers}
use cryo.FilePath.{FilePath}
use cryo.Loader.{FileStructs, retrieve}
use cryo.Writer.{ArchiveWriter, block, finalize}
use cryo.Append.{
  AppendArgs, AppendRun, AppendEnd, Files, copy_archive, rename_copy, remove_copy, replace_archive,
  ended_with, clean_up, create_tmp_file, choose_appended, resumed_state, resumed_writer,
  open_archive, join_append, append_files, append_chosen, append_to_copy, end_append, write_copy,
  append_file, append_opened, append_read,
}

-- Removing the copy leaves the archive alone.
remove_copy-archive :
    (run : AppendRun) (files : Files) → (remove_copy run files).archive ≡ files.archive
unfolding remove_copy
remove_copy-archive run files = on_removable run.removable
  where
    on_removable :
        (k : Bool) → (if k then record files { tmp = none } else files).archive ≡ files.archive
    on_removable true = refl
    on_removable false = refl

remove_copy-tmp :
    (run : AppendRun) (files : Files) → run.removable ≡ true → (remove_copy run files).tmp ≡ none
unfolding remove_copy
remove_copy-tmp run files h = rw h refl

module _ (L : Compressors) (S : Ciphers) (Z : Serializers) (args : AppendArgs) (sys : System)
    (run : AppendRun) (content : Bytes) where
  -- Nothing stands under the temporary name, or the reason why something may.
  pub data IsSwept (e : AppendEnd) : Type 0 where
    swept : e.tmp ≡ none → IsSwept e
    no_name : (x : CryoErrors) → create_tmp_file args.archive_path ≡ err x → IsSwept e
    not_copied : run.copied ≡ false → IsSwept e
    not_removed : run.removable ≡ false → IsSwept e

  -- How a run ends: with the archive as it was, or with the one that the writer has closed.
  pub data Ending (e : AppendEnd) : Type 0 where
    stopped : (x : CryoErrors) → e.result ≡ err x → e.archive ≡ content → IsSwept e → Ending e
    closed :
        (tmp : FilePath) (b : ArchiveWriter)
        → append_to_copy L S Z args sys run tmp content ≡ some (ok b)
        → e.result ≡ ok tt
        → e.archive ≡ b.writer.content
        → e.tmp ≡ none
        → Ending e

  same-Ending : {d e : AppendEnd} → Ending d → Option.some d ≡ some e → Ending e
  same-Ending h eq = subst Ending (cc eq) h

  -- What is cleaned up behind an error.
  clean_up-Ending :
      (x : CryoErrors) (files : Files)
      → files.archive ≡ content
      → Ending (clean_up run (err x, files))
  clean_up-Ending x files same =
      stopped x refl (remove_copy-archive run files ∙ same) (elim (Bool-cases run.removable) [
        | inl h ↦ swept (remove_copy-tmp run files h)
        | inr h ↦ not_removed h
      ])

  copied_files : Files
  copied_files = record { archive = content; tmp = some content }

  end_append-Ending :
      (e : AppendEnd) (tmp : FilePath) (r : Option (Result ArchiveWriter))
      → append_to_copy L S Z args sys run tmp content ≡ r
      → end_append run copied_files r ≡ some e
      → Ending e
  unfolding copied_files replace_archive rename_copy
  end_append-Ending e tmp none er eq = cc eq
  end_append-Ending e tmp (some (err x)) er eq =
      same-Ending (clean_up-Ending x (record copied_files { tmp = run.torn }) refl) eq
  end_append-Ending e tmp (some (ok b)) er eq = on_renamed run.renamed eq
    where
      on_renamed :
          (k : Bool)
          → Option.some (
              clean_up run (
                if k
                then (ok tt, record { archive = b.writer.content; tmp = none })
                else (err write_error, record copied_files { tmp = some b.writer.content })))
            ≡ some e
          → Ending e
      on_renamed true h = same-Ending (closed tmp b er refl refl refl) h
      on_renamed false h =
          same-Ending
            (clean_up-Ending write_error (record copied_files { tmp = some b.writer.content }) refl)
            h

  pub append_file-Ending :
      (e : AppendEnd) → append_file L S Z args sys run content ≡ some e → Ending e
  unfolding append_file copy_archive copied_files
  append_file-Ending e h = on_tmp (create_tmp_file args.archive_path) refl h
    where
      files : Files
      files = record { archive = content; tmp = run.stale }

      on_copy :
          (copied : Bool) (tmp : FilePath)
          → run.copied ≡ copied
          → write_copy L S Z args sys run tmp (
              if copied
              then (ok tt, record files { tmp = some content })
              else (err write_error, record files { tmp = run.torn }))
            ≡ some e
          → Ending e
      on_copy false tmp k eq = same-Ending (stopped write_error refl refl (not_copied k)) eq
      on_copy true tmp k eq =
          end_append-Ending e tmp (append_to_copy L S Z args sys run tmp content) refl eq

      on_tmp :
          (r : Result FilePath)
          → create_tmp_file args.archive_path ≡ r
          → elim r [
            | err x ↦ some (ended_with (err x) files)
            | ok tmp ↦ write_copy L S Z args sys run tmp (copy_archive run files)
          ]
            ≡ some e
          → Ending e
      on_tmp (err x) k eq = same-Ending (stopped x refl refl (no_name x k)) eq
      on_tmp (ok tmp) k eq = on_copy run.copied tmp refl eq

  -- When `append_file` returns an error, wherever it comes from, the archive holds what it held
  -- before; and nothing stands under the temporary name, unless none was found, the copy could not
  -- be made, or it cannot be removed.
  pub append_file-keeps :
      (e : AppendEnd) (x : CryoErrors)
      → append_file L S Z args sys run content ≡ some e
      → e.result ≡ err x
      → (e.archive ≡ content) × IsSwept e
  append_file-keeps e x h failed = elim (append_file-Ending e h) [
    | stopped y r same gone ↦ (same, gone)
    | closed tmp b c r same gone ↦ absurd (cc (r, failed))
  ]

  pub join_append-ok :
      (structs : FileStructs) (t : ReadState) (b : ArchiveWriter)
      → join_append L S Z run content structs t ≡ ok b
      → writer L S Z run.index_nonce
          (map block (run.workers t.sent).sent ++ (finalize t.files t.stream_position ∷ []))
          (resumed_writer run.room content structs)
        ≡ ok b
  unfolding join_append
  join_append-ok structs t b h =
      let (_, _, h1) = >>=-eq-ok (workers_result (run.workers t.sent).failures) _ h in h1

  -- The archive is the copy, closed with the index of all that was read, and the copy is gone.
  pub record IsReplaced (e : AppendEnd) : Type 0 where
    pub structs : FileStructs
    pub root : FilePath
    pub paths : List FilePath
    pub t : ReadState
    pub blocks_written : ArchiveWriter
    pub last : ArchiveWriter
    pub opens :
        retrieve L S Z args.archive_path default_limits args.confirm run.typed content ≡ ok structs
    pub chosen :
        choose_appended sys args.file_to_append structs.index.files ≡ some (ok (root, paths))
    pub everything_read :
        read_all root structs.header.block_size (map (input_at sys) paths) (resumed_state structs)
        ≡ some (ok tt, t)
    pub written :
        writer L S Z run.index_nonce
          (map block (run.workers (send_rest (ok tt) t).sent).sent)
          (resumed_writer run.room content structs)
        ≡ ok blocks_written
    pub closing :
        close L S Z run.index_nonce
          (send_rest (ok tt) t).files
          (send_rest (ok tt) t).stream_position
          blocks_written
        ≡ ok last
    pub left : e.archive ≡ last.writer.content
    pub swept : e.tmp ≡ none

  open_archive-opens :
      (tmp : FilePath) (structs : FileStructs)
      → open_archive L S Z args run tmp content ≡ ok structs
      → retrieve L S Z args.archive_path default_limits args.confirm run.typed content ≡ ok structs
  unfolding open_archive
  open_archive-opens tmp structs h =
      let (_, _, h1) = >>=-eq-ok (io tmp run.tmp_opened) _ h in
      let (_, _, h2) = >>=-eq-ok (io args.archive_path run.archive_opened) _ h1 in
      let (s, e, h3) =
        >>=-eq-ok (retrieve L S Z args.archive_path default_limits args.confirm run.typed content) _
          h2 in
      let (_, _, h4) = >>=-eq-ok (seek_start args.archive_path s.footer.index_offset) _ h3 in
      cc (e, h4)

  joined-IsReplaced :
      (e : AppendEnd) (structs : FileStructs) (root : FilePath) (paths : List FilePath)
      (t : ReadState) (b : ArchiveWriter)
      → retrieve L S Z args.archive_path default_limits args.confirm run.typed content ≡ ok structs
      → choose_appended sys args.file_to_append structs.index.files ≡ some (ok (root, paths))
      → read_all root structs.header.block_size (map (input_at sys) paths) (resumed_state structs)
        ≡ some (ok tt, t)
      → join_append L S Z run content structs (send_rest (ok tt) t) ≡ ok b
      → e.archive ≡ b.writer.content
      → e.tmp ≡ none
      → IsReplaced e
  unfolding writer
  joined-IsReplaced e structs root paths t b opens chosen reading joined left gone =
      let sent = send_rest (ok tt) t in
      let (before, written, finished) =
        receive-closes L S Z run.index_nonce (run.workers sent.sent).sent sent.files
          sent.stream_position _ b (join_append-ok structs sent b joined) in
      record {
        structs = structs;
        root = root;
        paths = paths;
        t = t;
        blocks_written = before;
        written = written;
        last = b;
        opens = opens;
        chosen = chosen;
        everything_read = reading;
        closing = finished;
        left = left;
        swept = gone;
      }

  closed-IsReplaced :
      (e : AppendEnd) (tmp : FilePath) (b : ArchiveWriter)
      → append_to_copy L S Z args sys run tmp content ≡ some (ok b)
      → e.archive ≡ b.writer.content
      → e.tmp ≡ none
      → IsReplaced e
  unfolding append_to_copy append_files
  closed-IsReplaced e tmp b h left gone = on_opened (open_archive L S Z args run tmp content) refl h
    where
      on_read :
          (structs : FileStructs) (root : FilePath) (paths : List FilePath)
          (o : Option (Result (Unit {0}) × ReadState))
          → open_archive L S Z args run tmp content ≡ ok structs
          → choose_appended sys args.file_to_append structs.index.files ≡ some (ok (root, paths))
          → read_all root structs.header.block_size
              (map (input_at sys) paths)
              (resumed_state structs)
            ≡ o
          → append_read L S Z run content structs o ≡ some (ok b)
          → IsReplaced e
      on_read structs root paths none er ec k eq = absurd (cc eq)
      on_read structs root paths (some (err x, t)) er ec k eq = absurd (cc eq)
      on_read structs root paths (some (ok u, t)) er ec k eq =
          joined-IsReplaced e structs root paths t b (open_archive-opens tmp structs er) ec k
            (cc eq) left gone

      on_chosen :
          (structs : FileStructs) (o : Option (Result (FilePath × List FilePath)))
          → open_archive L S Z args run tmp content ≡ ok structs
          → choose_appended sys args.file_to_append structs.index.files ≡ o
          → append_chosen L S Z sys run content structs o ≡ some (ok b)
          → IsReplaced e
      on_chosen structs none er k eq = absurd (cc eq)
      on_chosen structs (some (err x)) er k eq = absurd (cc eq)
      on_chosen structs (some (ok (root, paths))) er k eq =
          on_read structs root paths _ er k refl eq

      on_opened :
          (r : Result FileStructs)
          → open_archive L S Z args run tmp content ≡ r
          → append_opened L S Z args sys run content r ≡ some (ok b)
          → IsReplaced e
      on_opened (err x) er eq = absurd (cc eq)
      on_opened (ok structs) er eq = on_chosen structs _ er refl eq

  pub append_file-IsReplaced :
      (e : AppendEnd)
      → append_file L S Z args sys run content ≡ some e
      → e.result ≡ ok tt
      → IsReplaced e
  append_file-IsReplaced e h good = elim (append_file-Ending e h) [
    | stopped x r same gone ↦ absurd (cc (r, good))
    | closed tmp b c r same gone ↦ closed-IsReplaced e tmp b c same gone
  ]
