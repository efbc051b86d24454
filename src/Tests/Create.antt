-- ===== src/Tests/Create.antt =====
-- An archive made of one file, from the arguments to what a reader gets out of it.
use mathlib.Core.List.{Permᴰ}
use cryo.Base.{◌≡◌, refl, Bool, true, some, none, List, [], ◌∷◌, ◌++◌, length, inr, arith, bytes_eq}
use cryo.Base.Bytes.{Bytes, to_le_bytes}
use cryo.Base.Int.{pos}
use cryo.Codec.{Cipher, Prompts, new_cipher, encrypt_block}
use cryo.Compress.Chunks.{read_file_to_bytes, read_entry, read_loop, emit}
use cryo.Compress.Input.{read_inputs, read_all, send_rest}
use cryo.Compress.Input.Whole.{reads_file, none_read, one_read}
use cryo.Compress.Process.{process_block}
use cryo.Compress.Queue.{writer, receive, accept, drain, write_block, close}
use cryo.Compress.Queue.Map.{lookup, insert, erase}
use cryo.Compress.Workers.{Pool, start_pool, Reach, here, next, take_new, process, send}
use cryo.Compress.Workers.Runs.{Reach-AreMade}
use cryo.Reader.Restore.{AreMade}
use cryo.Consts.{default_limits}
use cryo.Create.{
  CompressArgs, System, input_at, Run, kept, choose_files, header_of, check_args,
  check_compression_for_arg_err, compress_files, join_threads, join_writer, initialize_compression,
}
use cryo.Create.Ends.{Ends, initialize_compression-Ends}
use cryo.Create.Restores.{initialize_compression-restores}
use cryo.Create.Succeeds.{initialize_compression-succeeds}
use cryo.Create.Stored.{index_of, CanOpen}
use cryo.Disk.{write_all, overwrite, set_len}
use cryo.Engine.Algo.{Compressor}
use cryo.Engine.{none_compress, new_compressing, compress, none_decompress, new_decompressing}
use cryo.Errors.{ok}
use cryo.Externals.{Serializers}
use cryo.FilePath.{FilePath, root_dir, normal, strip_prefix, component_eq, parent}
use cryo.Format.{Index, EncryptionType, fast, new_header, params}
use cryo.Format.Footer.{serialize}
use cryo.Reader.{verify, ArchiveReader, new_reader, build_block_ranges, extract_bytes}
use cryo.Writer.{
  ProcessedBlock, new_archive, finish, pack_index, encrypt_own, own_nonce_and_aad, store,
}
use cryo.Tests.Extraction.{
  opened, metadata, input_file, input_root, raw0, raw1, processed, blocks, read_state,
}
use cryo.Tests.Toys.{toy_compressors, toy_ciphers, toy-IsLossless, toy-IsSealing, toy-HasShortTag}

abbrev pub in_path : FilePath
in_path = root_dir ∷ normal "in" ∷ normal "a" ∷ []

abbrev pub args : CompressArgs
args = record {
  archive_name = "a.cryo";
  path_to_compress = in_path;
  recursive = Bool.false;
  compression = Compressor.none;
  compression_level = pos 0;
  encryption_type = EncryptionType.none;
  encryption_params = fast;
  bs = 4;
  confirm = true;
}

abbrev pub system : System
system = record {
  exists = λ p. true;
  is_dir = λ p. Bool.false;
  dirs = record { read_dir = λ p. inr []; name_le = λ a b. true };
  rounds = 0;
  symlink_metadata = λ p. inr metadata;
  read_link = λ p. inr [];
  opened = λ p. inr opened;
}

-- The second block is ready first.
abbrev received : List ProcessedBlock
received = processed raw1 ∷ processed raw0 ∷ []

abbrev pool : Pool
pool = record {
  waiting = [];
  engine_pool = none_compress ∷ none_compress ∷ [];
  working = [];
  holding = [];
  sent = received;
  failures = [];
}

abbrev pub typed : Prompts
typed = record { first = none; second = none }

abbrev pub nonce : Bytes
nonce = 0 ∷ 1 ∷ 2 ∷ 3 ∷ 4 ∷ 5 ∷ 6 ∷ 7 ∷ 8 ∷ 9 ∷ 10 ∷ 11 ∷ []

abbrev pub run : Run
run = record {
  argon_salt = [];
  archive_id = [];
  index_nonce = nonce;
  typed = typed;
  created = some (record { content = []; cursor = 0; room = 1000 });
  workers = λ raws. pool;
  writer_gone = Bool.false;
  removable = true;
}

abbrev pub header_bytes : Bytes
header_bytes = 1 ∷ []

abbrev pub index : Index
index = index_of header_bytes (input_file ∷ []) 5 blocks

abbrev pub serializers : Serializers
serializers = record {
  header_to_vec = λ h. some header_bytes;
  header_from_slice = λ bs. some (header_of args run);
  index_to_vec = λ idx. some (2 ∷ []);
  index_from_slice = λ bs. some index;
  blake3_hash = λ bs. length bs ∷ bs;
}

abbrev pub content : Bytes
content =
    to_le_bytes 4 1
    ++ (1
        ∷ 6
        ∷ 7
        ∷ 8
        ∷ 9
        ∷ 10
        ∷ 2
        ∷ (serialize (record {
          index_offset = 10;
          index_size_stored = 1;
          index_size_plain = 1;
          index_compressed = Bool.false;
          index_nonce = nonce;
        })))

pub created :
    initialize_compression toy_compressors toy_ciphers serializers args system run
    ≡ some (ok tt, kept content)
unfolding initialize_compression check_compression_for_arg_err choose_files compress_files
    join_threads join_writer new_compressing compress new_archive new_cipher new_header params
    write_all overwrite set_len to_le_bytes read_inputs read_all send_rest read_file_to_bytes
    read_entry strip_prefix parent component_eq read_loop emit writer receive accept drain
    write_block insert lookup erase close finish pack_index encrypt_own store serialize
    own_nonce_and_aad
created = refl

chosen : choose_files system args ≡ some (ok (input_root, in_path ∷ []))
unfolding choose_files parent
chosen = refl

inputs_read : read_inputs input_root 4 (input_at system in_path ∷ []) ≡ some (ok tt, read_state)
unfolding read_inputs read_all read_file_to_bytes strip_prefix component_eq read_loop emit
inputs_read = refl

made0 :
    process_block toy_compressors toy_ciphers serializers [] raw0 Cipher.none [] none_compress
    ≡ ok (processed raw0)
unfolding process_block compress encrypt_block
made0 = refl

made1 :
    process_block toy_compressors toy_ciphers serializers [] raw1 Cipher.none [] none_compress
    ≡ ok (processed raw1)
unfolding process_block compress encrypt_block
made1 = refl

-- Two threads take a block each, and the second one is ready first.
both_run :
    Reach toy_compressors toy_ciphers serializers Compressor.none
      (pos 0)
      Cipher.none
      []
      (start_pool (raw0 ∷ raw1 ∷ []))
      pool
unfolding new_compressing
both_run =
    next
      (next
        (next
          (next
            (next (next here (take_new raw0 (raw1 ∷ []) none_compress refl refl refl))
              (take_new raw1 [] none_compress refl refl refl))
            (process [] ((raw0, none_compress) ∷ []) raw1 none_compress (processed raw1) refl []
              made1))
          (send [] [] (processed raw1) refl))
        (process [] [] raw0 none_compress (processed raw0) refl [] made0))
      (send [] [] (processed raw0) refl)

opens :
    CanOpen toy_compressors toy_ciphers serializers [] default_limits true typed
      (header_of args run)
      Cipher.none
      header_bytes
      index
      nonce
unfolding new_cipher new_decompressing new_header params
opens = record {
  index_bytes = 2 ∷ [];
  engine = none_decompress;
  header_decodes = refl;
  header_small = omega arith;
  header_fits = omega arith;
  acceptable = record {
    version = refl;
    magic = unfold bytes_eq in refl;
    block_size = omega arith;
    m_cost = omega arith;
  };
  same_key = refl;
  engine_starts = refl;
  index_encodes = refl;
  index_decodes = refl;
  index_small = omega arith;
  index_fits = omega arith;
  nonce_fits = refl;
}

initialize_compression-Ends_example :
    Ends toy_compressors toy_ciphers serializers args run system (ok tt) (kept content)
initialize_compression-Ends_example =
    initialize_compression-Ends toy_compressors toy_ciphers serializers args run system (ok tt)
      (kept content) created

initialize_compression-restores_example :
    (r : ArchiveReader) × (new_reader toy_compressors toy_ciphers serializers [] input_root
        default_limits true typed content
      ≡ ok r)
    × (r.index.files ≡ input_file ∷ [])
    × (verify toy_compressors toy_ciphers serializers [] r ≡ ok tt)
    × (extract_bytes toy_compressors toy_ciphers serializers r input_file
          (build_block_ranges r.index.block)
        ≡ ok opened.content)
unfolding new_cipher new_header strip_prefix component_eq to_le_bytes
initialize_compression-restores_example =
    initialize_compression-restores toy_compressors toy_ciphers serializers toy-IsLossless
      toy-IsSealing toy-HasShortTag args system run input_root (in_path ∷ []) [] input_root
      default_limits true typed Cipher.none header_bytes (input_file ∷ []) read_state blocks content
      [] opened.content [] input_file chosen (omega arith) (omega arith)
      (one_read (reads_file (normal "a" ∷ []) metadata opened refl refl refl refl (λ n. refl))
        none_read)
      (omega arith) inputs_read (λ file e. record { tail = []; content = cc; cursor = cc }) refl
      both_run (record { nothing_waits = λ h. refl; nobody_works = refl; nobody_holds = refl })
      (Permᴰ.swap refl refl) (refl, (refl, tt)) (omega arith) refl opens created refl refl
      (omega arith)

initialize_compression-succeeds_example :
    initialize_compression toy_compressors toy_ciphers serializers args system run
    ≡ some (ok tt, kept content)
unfolding check_args check_compression_for_arg_err new_compressing new_cipher new_header params
    strip_prefix component_eq to_le_bytes pack_index compress encrypt_block serialize
initialize_compression-succeeds_example =
    initialize_compression-succeeds toy_compressors toy_ciphers serializers toy-HasShortTag args
      system run input_root (in_path ∷ []) Cipher.none header_bytes (input_file ∷ []) opened.content
      read_state blocks (record { content = []; cursor = 0; room = 1000 })
      (record { bytes = 2 ∷ []; compressed = Bool.false; size_plain = 1 }) (2 ∷ []) refl chosen
      (omega arith) (omega arith)
      (one_read (reads_file (normal "a" ∷ []) metadata opened refl refl refl refl (λ n. refl))
        none_read)
      (omega arith) inputs_read refl refl (record { tail = []; content = refl; cursor = refl }) refl
      both_run (record { nothing_waits = λ h. refl; nobody_works = refl; nobody_holds = refl }) refl
      (Permᴰ.swap refl refl) (refl, (refl, tt)) refl refl (omega arith) (omega arith)

Reach-AreMade_example :
    (bs : List ProcessedBlock) × AreMade toy_compressors toy_ciphers serializers Cipher.none []
      none_compress
      (raw0 ∷ raw1 ∷ [])
      bs
    × Permᴰ received bs
Reach-AreMade_example =
    Reach-AreMade toy_compressors toy_ciphers serializers Compressor.none (pos 0) Cipher.none []
      none_compress (unfold new_compressing in refl) (raw0 ∷ raw1 ∷ []) both_run
      (record { nothing_waits = λ h. refl; nobody_works = refl; nobody_holds = refl }) refl
