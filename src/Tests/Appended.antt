-- ===== src/Tests/Appended.antt =====
-- The files of an archive behind an append.
use mathlib.Core.List.Permᴰ
use cryo.Append.Restores.{append_file-restores}
use cryo.Base.{◌≡◌, refl, true, List, [], ◌∷◌, arith, bytes_eq}
use cryo.Base.Bytes.{Bytes, to_le_bytes}
use cryo.Base.Int.{pos}
use cryo.Codec.{Cipher, encrypt_block}
use cryo.Compress.Input.{send_rest}
use cryo.Compress.Input.Whole.{reads_file, none_read, one_read}
use cryo.Compress.Process.{process_block}
use cryo.Compress.Queue.Layout.{stored_bytes}
use cryo.Compress.Workers.{start_pool, Reach, here, next, take_new, take_pooled, process, send}
use cryo.Consts.{default_limits}
use cryo.Disk.{seek_start, read_exact}
use cryo.Engine.Algo.{Compressor}
use cryo.Engine.{none_compress, none_decompress, new_compressing, new_decompressing, compress}
use cryo.Errors.{ok}
use cryo.FilePath.{normal, strip_prefix, component_eq}
use cryo.Format.{new_header, params}
use cryo.Format.Footer.{serialize}
use cryo.Reader.{ArchiveReader, new_reader, read_block, verify, extract_bytes, build_block_ranges}
use cryo.Reader.Slices.{Stored}
use cryo.Writer.{RawBlock}
use cryo.Tests.Append.{
  append_args, append_run, structs, longer, serializers, blocks, ended, appended, opens, chosen,
  reading, in_root, after_reading, second_file, can_open, new_content,
}
use cryo.Tests.Create.{system, typed, header_bytes, content}
use cryo.Tests.Extraction.{
  blocks as index_blocks, opened, metadata, input_root, processed, raw0, raw1,
}
use cryo.Tests.Toys.{toy_compressors, toy_ciphers, toy-IsLossless, toy-IsSealing, toy-HasShortTag}

abbrev raw2 : RawBlock
raw2 = record raw0 { id = 2 }

abbrev raw3 : RawBlock
raw3 = record raw1 { id = 3 }

made2 :
    process_block toy_compressors toy_ciphers serializers [] raw2 Cipher.none [] none_compress
    ≡ ok (processed raw2)
unfolding process_block compress encrypt_block
made2 = refl

made3 :
    process_block toy_compressors toy_ciphers serializers [] raw3 Cipher.none [] none_compress
    ≡ ok (processed raw3)
unfolding process_block compress encrypt_block
made3 = refl

-- One thread does both blocks, the second with the engine of the first.
one_thread :
    Reach toy_compressors toy_ciphers serializers Compressor.none
      (pos 0)
      Cipher.none
      []
      (start_pool (raw2 ∷ raw3 ∷ []))
      (append_run.workers (raw2 ∷ raw3 ∷ []))
unfolding new_compressing
one_thread =
    next
      (next
        (next
          (next
            (next (next here (take_new raw2 (raw3 ∷ []) none_compress refl refl refl))
              (process [] [] raw2 none_compress (processed raw2) refl [] made2))
            (send [] [] (processed raw2) refl))
          (take_pooled raw3 [] none_compress [] refl refl))
        (process [] [] raw3 none_compress (processed raw3) refl [] made3))
      (send [] [] (processed raw3) refl)

abbrev old_reader : ArchiveReader
old_reader = record {
  root = input_root;
  path = [];
  content = content;
  index = structs.index;
  header = structs.header;
  cipher = Cipher.none;
  limits = default_limits;
}

abbrev old_bytes : List Bytes
old_bytes = raw0.raw_data ∷ raw1.raw_data ∷ []

old-Stored :
    Stored toy_compressors toy_ciphers serializers old_reader none_decompress 0 structs.index.block
      old_bytes
unfolding read_block bytes_eq seek_start read_exact new_header params to_le_bytes serialize
old-Stored = (refl, refl, refl, (refl, refl, refl, tt))

append_file-restores_example :
    (r : ArchiveReader) × (new_reader toy_compressors toy_ciphers serializers [] input_root
        default_limits true typed new_content
      ≡ ok r)
    × (r.index.files ≡ longer.files)
    × (verify toy_compressors toy_ciphers serializers [] r ≡ ok tt)
    × (extract_bytes toy_compressors toy_ciphers serializers r second_file
          (build_block_ranges r.index.block)
        ≡ ok opened.content)
unfolding send_rest to_le_bytes new_header params strip_prefix component_eq
append_file-restores_example =
    append_file-restores toy_compressors toy_ciphers serializers toy-IsLossless toy-IsSealing
      toy-HasShortTag [] input_root default_limits none_decompress none_compress append_args system
      append_run content ended structs in_root (append_args.file_to_append ∷ []) after_reading true
      typed header_bytes (stored_bytes index_blocks) (2 ∷ serialize structs.footer) old_bytes
      (second_file ∷ []) opened.content blocks opened.content opened.content [] second_file appended
      refl opens refl refl (omega arith, (omega arith, tt)) (unfold new_compressing in refl)
      (unfold new_decompressing in refl) old-Stored refl (omega arith) (omega arith) chosen
      (one_read (reads_file (normal "b" ∷ []) metadata opened refl refl refl refl (λ n. refl))
        none_read)
      (omega arith) (omega arith) reading one_thread
      (record { nothing_waits = λ h. refl; nobody_works = refl; nobody_holds = refl })
      (Permᴰ.refl blocks) (refl, (refl, tt)) (omega arith) can_open refl refl refl (omega arith)
