-- ===== src/Tests/Append.antt =====
-- A file appended to the archive of one file.
use mathlib.Core.List.Permᴰ
use cryo.Append.{AppendArgs, AppendRun, AppendEnd, choose_appended, resumed_state, append_file}
use cryo.Append.Ends.{IsSwept, append_file-keeps}
use cryo.Append.Extends.{append_file-IsArchive}
use cryo.Append.Succeeds.{append_file-succeeds}
use cryo.Base.{
  ◌≡◌, refl, Bool, true, some, none, List, [], ◌∷◌, ◌++◌, length, inr, arith, if◌then◌else◌, ◌==◌,
  bytes_eq,
}
use cryo.Base.Bytes.{Bytes, to_le_bytes}
use cryo.Codec.{Cipher}
use cryo.Compress.Chunks.{ReadState, entry}
use cryo.Compress.Input.{read_all}
use cryo.Compress.Queue.Layout.{stored_bytes, entries}
use cryo.Consts.{default_limits}
use cryo.Create.{input_at, header_of}
use cryo.Create.Stored.{CanOpen, IsArchive}
use cryo.Engine.{none_decompress, none_compress, new_decompressing}
use cryo.Errors.{ok, err, write_error}
use cryo.Externals.{Serializers}
use cryo.FilePath.{FilePath, root_dir, normal}
use cryo.Format.{FileEntry, FileType, Index}
use cryo.Format.Footer.{serialize}
use cryo.Loader.{FileStructs, retrieve}
use cryo.Writer.{ProcessedBlock}
use cryo.Tests.Create.{args, system, typed, nonce, run, header_bytes, index, content}
use cryo.Tests.Extraction.{blocks as index_blocks, metadata, processed, raw0, raw1}
use cryo.Tests.Toys.{toy_compressors, toy_ciphers, toy-IsLossless, toy-IsSealing, toy-HasShortTag}

abbrev pub append_args : AppendArgs
append_args = record {
  archive_path = normal "a.cryo" ∷ [];
  file_to_append = root_dir ∷ normal "in" ∷ normal "b" ∷ [];
  confirm = true;
}

abbrev pub second_file : FileEntry
second_file = entry (normal "b" ∷ []) FileType.file metadata 5 5 none

abbrev pub blocks : List ProcessedBlock
blocks = processed (record raw0 { id = 2 }) ∷ processed (record raw1 { id = 3 }) ∷ []

abbrev pub append_run : AppendRun
append_run = record {
  typed = typed;
  index_nonce = nonce;
  copied = true;
  tmp_opened = inr tt;
  archive_opened = inr tt;
  room = 1000;
  workers = λ raws. record {
    waiting = [];
    engine_pool = none_compress ∷ [];
    working = [];
    holding = [];
    sent = blocks;
    failures = [];
  };
  renamed = true;
  removable = true;
  stale = none;
  torn = none;
}

abbrev pub structs : FileStructs
structs = record {
  header = header_of args run;
  index = index;
  cipher = Cipher.none;
  footer = record {
    index_offset = 10;
    index_size_stored = 1;
    index_size_plain = 1;
    index_compressed = Bool.false;
    index_nonce = nonce;
  };
}

abbrev pub longer : Index
longer = record {
  files = index.files ++ (second_file ∷ []);
  block = index.block ++ entries 10 blocks;
  total_stream_size = 10;
}

abbrev pub serializers : Serializers
serializers = record {
  header_to_vec = λ h. some header_bytes;
  header_from_slice = λ bs. some (header_of args run);
  index_to_vec = λ idx. some (length idx.block ∷ []);
  index_from_slice = λ bs. some (if bytes_eq bs (4 ∷ []) then longer else index);
  blake3_hash = λ bs. length bs ∷ bs;
}

abbrev pub new_content : Bytes
new_content =
    to_le_bytes 4 1
    ++ (1
        ∷ (stored_bytes index_blocks
            ++ (stored_bytes blocks
                ++ (4
                    ∷ serialize (record {
                      index_offset = 15;
                      index_size_stored = 1;
                      index_size_plain = 1;
                      index_compressed = Bool.false;
                      index_nonce = nonce;
                    })))))

abbrev pub ended : AppendEnd
ended = record { result = ok tt; archive = new_content; tmp = none }

pub appended :
    append_file toy_compressors toy_ciphers serializers append_args system append_run content
    ≡ some ended
unfolding retrieve cryo.Loader.read_header cryo.Disk.read_exact to_le_bytes serialize
    cryo.Base.Bytes.from_le_bytes cryo.Loader.check_header cryo.Format.new_header bytes_eq
    cryo.Loader.read_footer cryo.Disk.seek_end cryo.Format.Footer.deserialize cryo.Codec.new_cipher
    cryo.Loader.read_index cryo.Disk.seek_start cryo.Loader.verify_metadata cryo.Format.params
    append_file cryo.Append.copy_archive cryo.Append.replace_archive cryo.Append.rename_copy
    cryo.Append.remove_copy cryo.FilePath.file_name read_all cryo.Append.append_files
    cryo.Append.append_to_copy choose_appended cryo.Append.contains cryo.Append.create_tmp_file
    cryo.Append.join_append cryo.Append.open_archive cryo.Compress.Chunks.emit
    cryo.Compress.Chunks.read_entry cryo.Compress.Chunks.read_file_to_bytes
    cryo.Compress.Chunks.read_loop cryo.Compress.Input.send_rest cryo.Compress.Queue.Map.erase
    cryo.Compress.Queue.Map.insert cryo.Compress.Queue.Map.lookup cryo.Compress.Queue.accept
    cryo.Compress.Queue.close cryo.Compress.Queue.drain cryo.Compress.Queue.receive
    cryo.Compress.Queue.write_block cryo.Compress.Queue.writer cryo.Disk.overwrite cryo.Disk.set_len
    cryo.Disk.write_all cryo.Engine.compress cryo.Engine.new_compressing cryo.FilePath.component_eq
    cryo.FilePath.parent cryo.FilePath.path_eq cryo.FilePath.strip_prefix cryo.Writer.encrypt_own
    cryo.Writer.finish cryo.Writer.pack_index cryo.Writer.store cryo.Writer.own_nonce_and_aad
appended = refl

pub opens :
    retrieve toy_compressors toy_ciphers serializers append_args.archive_path default_limits true
      typed content
    ≡ ok structs
unfolding retrieve cryo.Loader.read_header cryo.Disk.read_exact to_le_bytes serialize
    cryo.Base.Bytes.from_le_bytes cryo.Loader.check_header cryo.Format.new_header bytes_eq
    cryo.Loader.read_footer cryo.Disk.seek_end cryo.Format.Footer.deserialize cryo.Codec.new_cipher
    cryo.Loader.read_index cryo.Disk.seek_start cryo.Loader.verify_metadata cryo.Format.params
opens = refl

abbrev pub in_root : FilePath
in_root = root_dir ∷ normal "in" ∷ []

abbrev pub after_reading : ReadState
after_reading = record {
  files = longer.files;
  stream_position = 10;
  block_id = 3;
  pending_buffer = 10 ∷ [];
  sent = record raw0 { id = 2 } ∷ [];
}

pub chosen :
    choose_appended system append_args.file_to_append index.files
    ≡ some (ok (in_root, append_args.file_to_append ∷ []))
unfolding choose_appended cryo.Append.contains cryo.FilePath.component_eq cryo.FilePath.parent
    cryo.FilePath.path_eq cryo.FilePath.strip_prefix
chosen = refl

pub reading :
    read_all in_root 4 (input_at system append_args.file_to_append ∷ []) (resumed_state structs)
    ≡ some (ok tt, after_reading)
unfolding read_all cryo.Compress.Chunks.emit cryo.Compress.Chunks.read_file_to_bytes
    cryo.Compress.Chunks.read_loop cryo.FilePath.component_eq cryo.FilePath.strip_prefix
reading = refl

pub can_open :
    CanOpen toy_compressors toy_ciphers serializers [] default_limits true typed structs.header
      Cipher.none header_bytes longer nonce
unfolding cryo.Codec.new_cipher new_decompressing cryo.Format.new_header cryo.Format.params
can_open = record {
  index_bytes = 4 ∷ [];
  engine = none_decompress;
  header_decodes = refl;
  header_small = omega arith;
  header_fits = omega arith;
  acceptable = record {
    version = refl;
    magic = unfold bytes_eq in refl;
    block_size = omega arith;
    m_cost = omega arith;
  };
  same_key = refl;
  engine_starts = refl;
  index_encodes = refl;
  index_decodes = unfold bytes_eq in refl;
  index_small = omega arith;
  index_fits = omega arith;
  nonce_fits = refl;
}

append_file-IsArchive_example :
    IsArchive toy_compressors toy_ciphers serializers [] default_limits true typed structs.header
      Cipher.none header_bytes longer
      (stored_bytes index_blocks ++ stored_bytes blocks)
      new_content
unfolding cryo.Compress.Input.send_rest to_le_bytes cryo.Format.new_header cryo.Format.params
append_file-IsArchive_example =
    append_file-IsArchive toy_compressors toy_ciphers serializers append_args system append_run
      content toy-IsLossless toy-IsSealing toy-HasShortTag ended structs in_root
      (append_args.file_to_append ∷ []) after_reading [] default_limits true typed header_bytes
      (stored_bytes index_blocks) (2 ∷ serialize structs.footer) blocks appended refl opens refl
      refl chosen reading (Permᴰ.refl blocks) (refl, (refl, tt)) (omega arith, (omega arith, tt))
      (omega arith) (omega arith) can_open

append_file-succeeds_example :
    append_file toy_compressors toy_ciphers serializers append_args system append_run content
    ≡ some ended
unfolding cryo.Compress.Input.send_rest to_le_bytes cryo.Format.new_header cryo.Format.params
    cryo.Writer.pack_index cryo.Engine.compress cryo.Engine.new_compressing cryo.Codec.encrypt_block
    cryo.Append.create_tmp_file cryo.FilePath.file_name cryo.FilePath.parent serialize
append_file-succeeds_example =
    append_file-succeeds toy_compressors toy_ciphers serializers append_args system append_run
      content (normal "a.tmp" ∷ []) structs in_root (append_args.file_to_append ∷ []) after_reading
      (to_le_bytes 4 1 ++ (1 ∷ stored_bytes index_blocks)) (2 ∷ serialize structs.footer) blocks
      (record { bytes = 4 ∷ []; compressed = Bool.false; size_plain = 1 }) (4 ∷ []) refl refl refl
      refl refl opens refl refl (omega arith) chosen reading refl (Permᴰ.refl blocks)
      (refl, (refl, tt)) (omega arith, (omega arith, tt)) (omega arith) refl refl (omega arith)
      (omega arith)

-- The new name cannot be given.
abbrev unlucky : AppendRun
unlucky = record append_run { renamed = Bool.false }

abbrev unchanged : AppendEnd
unchanged = record { result = err write_error; archive = content; tmp = none }

not_renamed :
    append_file toy_compressors toy_ciphers serializers append_args system unlucky content
    ≡ some unchanged
unfolding retrieve cryo.Loader.read_header cryo.Disk.read_exact to_le_bytes serialize
    cryo.Base.Bytes.from_le_bytes cryo.Loader.check_header cryo.Format.new_header bytes_eq
    cryo.Loader.read_footer cryo.Disk.seek_end cryo.Format.Footer.deserialize cryo.Codec.new_cipher
    cryo.Loader.read_index cryo.Disk.seek_start cryo.Loader.verify_metadata cryo.Format.params
    append_file cryo.Append.copy_archive cryo.Append.replace_archive cryo.Append.rename_copy
    cryo.Append.remove_copy cryo.FilePath.file_name read_all cryo.Append.append_files
    cryo.Append.append_to_copy choose_appended cryo.Append.contains cryo.Append.create_tmp_file
    cryo.Append.join_append cryo.Append.open_archive cryo.Compress.Chunks.emit
    cryo.Compress.Chunks.read_entry cryo.Compress.Chunks.read_file_to_bytes
    cryo.Compress.Chunks.read_loop cryo.Compress.Input.send_rest cryo.Compress.Queue.Map.erase
    cryo.Compress.Queue.Map.insert cryo.Compress.Queue.Map.lookup cryo.Compress.Queue.accept
    cryo.Compress.Queue.close cryo.Compress.Queue.drain cryo.Compress.Queue.receive
    cryo.Compress.Queue.write_block cryo.Compress.Queue.writer cryo.Disk.overwrite cryo.Disk.set_len
    cryo.Disk.write_all cryo.Engine.compress cryo.Engine.new_compressing cryo.FilePath.component_eq
    cryo.FilePath.parent cryo.FilePath.path_eq cryo.FilePath.strip_prefix cryo.Writer.encrypt_own
    cryo.Writer.finish cryo.Writer.pack_index cryo.Writer.store cryo.Writer.own_nonce_and_aad
not_renamed = refl

append_file-keeps_example :
    (unchanged.archive ≡ content)
    × IsSwept toy_compressors toy_ciphers serializers append_args system unlucky content unchanged
append_file-keeps_example =
    append_file-keeps toy_compressors toy_ciphers serializers append_args system unlucky content
      unchanged write_error not_renamed refl
