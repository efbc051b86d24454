-- ===== src/Append/Succeeds.antt =====
-- src/append.rs, `append_file`, where nothing stands in its way.
use mathlib.Core.List.{Permᴰ}
use cryo.Append.{
  AppendArgs, AppendRun, create_tmp_file, choose_appended, resumed_state, resumed_writer,
  copy_archive, rename_copy, replace_archive, end_append, open_archive, join_append, append_opened,
  append_to_copy, append_file,
}
use cryo.Append.Extends.{append_opened-join, extended}
use cryo.Base.{
  ◌+◌, ◌≤◌, ◌<◌, ◌^◌, ◌≡◌, refl, ap, ◌∙◌, true, none, some, List, [], ◌∷◌, ◌++◌, map, length, inr,
}
use cryo.Base.Bytes.{Bytes, u64_mod}
use cryo.Codec.{encrypt_block}
use cryo.Compress.Chunks.{ReadState}
use cryo.Compress.Input.{read_all, send_rest}
use cryo.Compress.Queue.{writer}
use cryo.Compress.Queue.Layout.{AreSmall}
use cryo.Compress.Queue.Order.{Numbered}
use cryo.Consts.{default_limits}
use cryo.Create.{System, input_at}
use cryo.Create.Room.{archive_of, writer-room}
use cryo.Disk.Laws.{seek_start-ok}
use cryo.Errors.{Result, ok}
use cryo.Externals.{Compressors, Ciphers, Serializers}
use cryo.FilePath.{FilePath}
use cryo.Format.{index}
use cryo.Loader.{FileStructs, retrieve}
use cryo.Writer.{ProcessedBlock, block, finalize, ArchiveWriter, PackedIndex, pack_index}

module _ (L : Compressors) (S : Ciphers) (Z : Serializers) (args : AppendArgs) (sys : System)
    (run : AppendRun) (content : Bytes) where
  open_archive-opens :
      (tmp : FilePath) (structs : FileStructs)
      → run.tmp_opened ≡ inr tt
      → run.archive_opened ≡ inr tt
      → retrieve L S Z args.archive_path default_limits args.confirm run.typed content ≡ ok structs
      → structs.footer.index_offset < 2 ^ 63
      → open_archive L S Z args run tmp content ≡ ok structs
  unfolding open_archive
  open_archive-opens tmp structs copy_opens archive_opens opens near = rw copy_opens (
      rw archive_opens
        (rw opens (rw (seek_start-ok args.archive_path structs.footer.index_offset near) refl)))

  join_append-joins :
      (structs : FileStructs) (t : ReadState) (b : ArchiveWriter)
      → (run.workers t.sent).failures ≡ []
      → writer L S Z run.index_nonce
          (map block (run.workers t.sent).sent ++ (finalize t.files t.stream_position ∷ []))
          (resumed_writer run.room content structs)
        ≡ ok b
      → join_append L S Z run content structs t ≡ ok b
  unfolding join_append
  join_append-joins structs t b none_failed closing = rw none_failed closing

  end_append-replaces :
      (b : ArchiveWriter)
      → run.renamed ≡ true
      → end_append run (record { archive = content; tmp = some content }) (some (ok b))
        ≡ some (record { result = ok tt; archive = b.writer.content; tmp = none })
  unfolding replace_archive rename_copy
  end_append-replaces b renamed = rw renamed refl

  append_file-copied :
      (tmp : FilePath)
      → create_tmp_file args.archive_path ≡ ok tmp
      → run.copied ≡ true
      → append_file L S Z args sys run content
        ≡ end_append run
            (record { archive = content; tmp = some content })
            (append_to_copy L S Z args sys run tmp content)
  unfolding append_file copy_archive
  append_file-copied tmp named copied = rw (named, append_file) (rw copied refl)

  append_to_copy-joined :
      (tmp : FilePath) (structs : FileStructs) (root : FilePath) (paths : List FilePath)
      (t : ReadState) (b : ArchiveWriter)
      → open_archive L S Z args run tmp content ≡ ok structs
      → choose_appended sys args.file_to_append structs.index.files ≡ some (ok (root, paths))
      → read_all root structs.header.block_size (map (input_at sys) paths) (resumed_state structs)
        ≡ some (ok tt, t)
      → join_append L S Z run content structs (send_rest (ok tt) t) ≡ ok b
      → append_to_copy L S Z args sys run tmp content ≡ some (ok b)
  unfolding append_to_copy
  append_to_copy-joined tmp structs root paths t b opened chosen reading joined =
      ap (append_opened L S Z args sys run content) opened
      ∙ append_opened-join L S Z args sys run content structs root paths t chosen reading
      ∙ ap (λ (r : Result ArchiveWriter). some r) joined

  -- Let the temporary copy get a name, be made, be opened and take the archive's name at the end,
  -- and let the archive open as `structs` with `front` before its index, below 2^63. Let the new
  -- entries be chosen and read to the state `t`, the workers end without a failure, having sent
  -- the blocks `bs`, numbered on from the archive's and each below 2^32, the longer index be
  -- packed and sealed, and the disk have room for the archive, which is shorter than 2^64. Then
  -- `append_file` succeeds and leaves no temporary file, and the archive is exactly `front`, the
  -- new blocks by their numbers, the sealed index of the old and the new entries and blocks, and
  -- the footer that says where the index begins.
  pub append_file-succeeds :
      (tmp : FilePath) (structs : FileStructs) (root : FilePath) (paths : List FilePath)
      (t : ReadState) (front rest : Bytes) (bs : List ProcessedBlock) (packed : PackedIndex)
      (sealed : Bytes)
      → create_tmp_file args.archive_path ≡ ok tmp
      → run.copied ≡ true
      → run.tmp_opened ≡ inr tt
      → run.archive_opened ≡ inr tt
      → run.renamed ≡ true
      → retrieve L S Z args.archive_path default_limits args.confirm run.typed content ≡ ok structs
      → content ≡ front ++ rest
      → structs.footer.index_offset ≡ length front
      → structs.footer.index_offset < 2 ^ 63
      → choose_appended sys args.file_to_append structs.index.files ≡ some (ok (root, paths))
      → read_all root structs.header.block_size (map (input_at sys) paths) (resumed_state structs)
        ≡ some (ok tt, t)
      → (run.workers (send_rest (ok tt) t).sent).failures ≡ []
      → Permᴰ (run.workers (send_rest (ok tt) t).sent).sent bs
      → Numbered (length structs.index.block) bs
      → AreSmall bs
      → length structs.index.block + length bs < u64_mod
      → pack_index L Z structs.header (extended structs t (length front) bs) ≡ ok packed
      → encrypt_block S 0 packed.bytes
          (index run.index_nonce)
          structs.header.archive_id
          structs.cipher
        ≡ ok sealed
      → length (archive_of run.index_nonce front bs packed sealed) < u64_mod
      → length (archive_of run.index_nonce front bs packed sealed) ≤ run.room
      → append_file L S Z args sys run content
        ≡ some (record {
          result = ok tt;
          archive = archive_of run.index_nonce front bs packed sealed;
          tmp = none;
        })
  append_file-succeeds tmp structs root paths t front rest bs packed sealed named copied copy_opens
        archive_opens renamed opens laid_out offset near chosen reading none_failed perm numbered
        small few packing sealing below room =
      let sent = send_rest (ok tt) t in
      let (b, closing, bytes) =
        writer-room L S Z run.index_nonce (resumed_writer run.room content structs) front sent.files
          sent.stream_position (run.workers sent.sent).sent bs packed sealed
          (record { tail = rest; content = laid_out; cursor = offset }) offset small numbered few
          perm packing sealing below room in
      let copy =
        append_to_copy-joined tmp structs root paths t b
          (open_archive-opens tmp structs copy_opens archive_opens opens near) chosen reading
          (join_append-joins structs sent b none_failed closing) in
      append_file-copied tmp named copied
      ∙ ap (end_append run (record { archive = content; tmp = some content })) copy
      ∙ end_append-replaces b renamed
      ∙ ap (λ (x : Bytes). some (record { result = ok tt; archive = x; tmp = none })) bytes
