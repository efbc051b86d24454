-- ===== src/Append/Extends.antt =====
-- What `append_file` leaves: the archive as it was, or the archive with blocks behind its own.
use mathlib.Core.List.{Permᴰ}
use mathlib.Core.Path.{subst}
use cryo.Base.{
  ℕ, ◌+◌, ◌<◌, ◌^◌, ◌≡◌, refl, sym, ap, ◌∙◌, Bool, some, List, ◌++◌, map, arith, length,
  append_assoc,
}
use cryo.Base.Bytes.{Bytes, u64_mod}
use cryo.Codec.{Prompts}
use cryo.Compress.Chunks.{ReadState, io}
use cryo.Compress.Input.{read_all, send_rest}
use cryo.Compress.Queue.Layout.{stored_bytes, entries, AreSmall}
use cryo.Compress.Queue.Order.{Numbered}
use cryo.Consts.{Limits, default_limits}
use cryo.Create.{System, input_at}
use cryo.Create.Stored.{CanOpen, IsArchive, resumed-IsArchive}
use cryo.Disk.{seek_start}
use cryo.Disk.Laws.{IsAt}
use cryo.Errors.{Result, ok, err, >>=-eq-ok}
use cryo.Externals.{Compressors, Ciphers, Serializers}
use cryo.Externals.Laws.{IsLossless, IsSealing, HasShortTag}
use cryo.FilePath.{FilePath}
use cryo.Format.{Index}
use cryo.Loader.{FileStructs, retrieve}
use cryo.Writer.{ProcessedBlock, ArchiveWriter, header_part}
use cryo.Append.{
  AppendArgs, AppendRun, AppendEnd, choose_appended, resumed_state, resumed_writer, open_archive,
  join_append, append_files, append_chosen, append_to_copy, append_file, append_opened, append_read,
}
use cryo.Append.Ends.{stopped, closed, append_file-Ending, join_append-ok}

-- The archive's index with the files that were read and the entries of more blocks.
abbrev pub extended : FileStructs → ReadState → ℕ → List ProcessedBlock → Index
extended structs t offset bs = record {
  files = (send_rest (ok tt) t).files;
  block = structs.index.block ++ entries offset bs;
  total_stream_size = (send_rest (ok tt) t).stream_position;
}

module _ (L : Compressors) (S : Ciphers) (Z : Serializers) (args : AppendArgs) (sys : System)
    (run : AppendRun) (content : Bytes) where
  open_archive-structs :
      (tmp : FilePath) (structs s : FileStructs)
      → retrieve L S Z args.archive_path default_limits args.confirm run.typed content ≡ ok structs
      → open_archive L S Z args run tmp content ≡ ok s
      → s ≡ structs
  unfolding open_archive
  open_archive-structs tmp structs s opens h =
      let (_, _, h1) = >>=-eq-ok (io tmp run.tmp_opened) _ h in
      let (_, _, h2) = >>=-eq-ok (io args.archive_path run.archive_opened) _ h1 in
      let (s', e, h3) =
        >>=-eq-ok (retrieve L S Z args.archive_path default_limits args.confirm run.typed content) _
          h2 in
      let (_, _, h4) = >>=-eq-ok (seek_start args.archive_path s'.footer.index_offset) _ h3 in
      cc (h4, e, opens)

  pub append_opened-join :
      (structs : FileStructs) (root : FilePath) (paths : List FilePath) (t : ReadState)
      → choose_appended sys args.file_to_append structs.index.files ≡ some (ok (root, paths))
      → read_all root structs.header.block_size (map (input_at sys) paths) (resumed_state structs)
        ≡ some (ok tt, t)
      → append_opened L S Z args sys run content (ok structs)
        ≡ some (join_append L S Z run content structs (send_rest (ok tt) t))
  unfolding append_files
  append_opened-join structs root paths t chosen reading =
      ap (append_chosen L S Z sys run content structs) chosen
      ∙ ap (append_read L S Z run content structs) reading

  append_to_copy-join :
      (tmp : FilePath) (b : ArchiveWriter) (structs : FileStructs) (root : FilePath)
      (paths : List FilePath) (t : ReadState)
      → append_to_copy L S Z args sys run tmp content ≡ some (ok b)
      → retrieve L S Z args.archive_path default_limits args.confirm run.typed content ≡ ok structs
      → choose_appended sys args.file_to_append structs.index.files ≡ some (ok (root, paths))
      → read_all root structs.header.block_size (map (input_at sys) paths) (resumed_state structs)
        ≡ some (ok tt, t)
      → join_append L S Z run content structs (send_rest (ok tt) t) ≡ ok b
  unfolding append_to_copy
  append_to_copy-join tmp b structs root paths t h opens chosen reading =
      on_opened (open_archive L S Z args run tmp content) refl h
    where
      on_opened :
          (r : Result FileStructs)
          → open_archive L S Z args run tmp content ≡ r
          → append_opened L S Z args sys run content r ≡ some (ok b)
          → join_append L S Z run content structs (send_rest (ok tt) t) ≡ ok b
      on_opened (err x) er eq = cc eq
      on_opened (ok s) er eq =
          let same = open_archive-structs tmp structs s opens er in
          cc (
            sym (append_opened-join structs root paths t chosen reading)
            ∙ ap (λ (x : FileStructs). append_opened L S Z args sys run content (ok x)) (sym same)
            ∙ eq)

  -- What a run that succeeds has written.
  pub append_file-join :
      (e : AppendEnd) (structs : FileStructs) (root : FilePath) (paths : List FilePath)
      (t : ReadState)
      → append_file L S Z args sys run content ≡ some e
      → e.result ≡ ok tt
      → retrieve L S Z args.archive_path default_limits args.confirm run.typed content ≡ ok structs
      → choose_appended sys args.file_to_append structs.index.files ≡ some (ok (root, paths))
      → read_all root structs.header.block_size (map (input_at sys) paths) (resumed_state structs)
        ≡ some (ok tt, t)
      → (b : ArchiveWriter) × (join_append L S Z run content structs (send_rest (ok tt) t) ≡ ok b)
        × (e.archive ≡ b.writer.content)
  append_file-join e structs root paths t h good opens chosen reading =
      elim (append_file-Ending L S Z args sys run content e h) [
        | stopped x r same gone ↦ absurd (cc (r, good))
        | closed tmp b c r same gone ↦
            (b, append_to_copy-join tmp b structs root paths t c opens chosen reading, same)
      ]

  -- Let `append_file` succeed on an archive whose footer points behind its header and the blocks
  -- `old`, and let reading the new files have ended in `t`. Then the archive afterwards holds the
  -- same header, `old` unchanged, and the new blocks behind it in the order of their numbers; a
  -- reader who opens it under `CanOpen`'s conditions finds the old block entries with those of the
  -- new blocks behind them, and the file list and the stream size of `t`. `bs` are the blocks that
  -- the workers sent, numbered on from the archive's blocks, each below 2^32 and all below 2^62;
  -- the codec is lossless, and the cipher opens what it sealed with a tag of at most 16 bytes.
  pub append_file-IsArchive :
      IsLossless L
      → IsSealing S
      → HasShortTag S
      → (e : AppendEnd) (structs : FileStructs) (root : FilePath) (paths : List FilePath)
        (t : ReadState) (p : FilePath) (limits : Limits) (confirm : Bool) (typed : Prompts)
        (header_bytes old rest : Bytes) (bs : List ProcessedBlock)
      → append_file L S Z args sys run content ≡ some e
      → e.result ≡ ok tt
      → retrieve L S Z args.archive_path default_limits args.confirm run.typed content ≡ ok structs
      → content ≡ header_part header_bytes ++ (old ++ rest)
      → structs.footer.index_offset ≡ length (header_part header_bytes ++ old)
      → choose_appended sys args.file_to_append structs.index.files ≡ some (ok (root, paths))
      → read_all root structs.header.block_size (map (input_at sys) paths) (resumed_state structs)
        ≡ some (ok tt, t)
      → Permᴰ (run.workers (send_rest (ok tt) t).sent).sent bs
      → Numbered (length structs.index.block) bs
      → AreSmall bs
      → length structs.index.block + length bs < u64_mod
      → structs.footer.index_offset + length (stored_bytes bs) < 2 ^ 62
      → CanOpen L S Z p limits confirm typed structs.header structs.cipher header_bytes
          (extended structs t structs.footer.index_offset bs)
          run.index_nonce
      → IsArchive L S Z p limits confirm typed structs.header structs.cipher header_bytes
          (extended structs t structs.footer.index_offset bs)
          (old ++ stored_bytes bs)
          e.archive
  append_file-IsArchive lossless sealing tag e structs root paths t p limits confirm typed
        header_bytes old rest bs h good opens laid_out offset chosen reading perm numbered small few
        room o =
      let (b, joined, left) = append_file-join e structs root paths t h good opens chosen reading in
      let sent = send_rest (ok tt) t in
      let front = header_part header_bytes ++ old in
      let at : IsAt (resumed_writer run.room content structs).writer front = record {
        tail = rest;
        content = laid_out ∙ sym (append_assoc (header_part header_bytes) old rest);
        cursor = offset;
      } in
      subst
        (λ (k : ℕ).
          CanOpen L S Z p limits confirm typed structs.header structs.cipher header_bytes
            (extended structs t k bs) run.index_nonce
          → IsArchive L S Z p limits confirm typed structs.header structs.cipher header_bytes
              (extended structs t k bs) (old ++ stored_bytes bs) e.archive)
        (sym offset)
        (λ o'.
          subst
            (IsArchive L S Z p limits confirm typed structs.header structs.cipher header_bytes
              (extended structs t (length front) bs) (old ++ stored_bytes bs))
            (sym left)
            (resumed-IsArchive L S Z p limits lossless sealing tag confirm typed run.index_nonce
              structs.header structs.cipher header_bytes (resumed_writer run.room content structs)
              front old sent.files sent.stream_position (run.workers sent.sent).sent bs b refl refl
              refl o' at offset small (omega (arith, offset)) few numbered perm
              (join_append-ok L S Z args sys run content structs sent b joined)))
        o
