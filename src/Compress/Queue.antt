-- ===== src/Compress/Queue.antt =====
-- src/compress.rs, `writer`: the thread that puts the blocks in order and on the disk.
pub mod Map
pub mod Drain
pub mod Order
pub mod Unique
pub mod Layout
use cryo.Base.{ℕ, zero, suc, ◌+◌, ◌%◌, Option, none, some, List, [], ◌∷◌, ◌++◌, length}
use cryo.Base.Bytes.{Bytes, u32_mod, u64_mod}
use cryo.Compress.Queue.Map.{BTreeMap, lookup, erase, insert}
use cryo.Disk.{write_all}
use cryo.Errors.{Result, ok, or_err, ◌>>=◌, write_error}
use cryo.Externals.{Compressors, Ciphers, Serializers}
use cryo.Format.{BlockEntry, FileEntry}
use cryo.Writer.{ProcessedBlock, WriterMessage, block, finalize, ArchiveWriter, finish}

-- The variables of the loop, and the archive that it writes.
pub record WriterState : Type 0 where
  pub block_queue : BTreeMap
  pub expected_id : ℕ
  pub arch : ArchiveWriter

abbrev pub entry_of : ℕ → ProcessedBlock → BlockEntry
entry_of offset b = record {
  offset = offset;
  size_stored = length b.processed_data % u32_mod;
  size_plain = b.size_plain;
  is_compressed = b.is_compressed;
  nonce = b.nonce;
  checksum = b.checksum;
}

-- One block goes to the disk and into the index.
unfoldable pub write_block : ProcessedBlock → ArchiveWriter → Result ArchiveWriter
write_block b arch = do
  w ← or_err write_error (write_all b.processed_data arch.writer)
  ok (record arch {
    writer = w;
    index = record arch.index { block = arch.index.block ++ (entry_of arch.file_position b ∷ []) };
    file_position = (arch.file_position + length b.processed_data % u32_mod) % u64_mod;
  })

-- `while let Some(block) = block_queue.remove(&expected_id)`. Each round takes a block out of the
-- queue, so one round more than the queue has blocks is enough.
unfoldable pub drain : ℕ → WriterState → Result WriterState
drain zero s = ok s
drain (suc rounds) s = elim (lookup s.expected_id s.block_queue) [
  | none ↦ ok s
  | some b ↦ write_block b s.arch >>= λ arch. drain rounds (record {
    block_queue = erase s.expected_id s.block_queue;
    expected_id = (s.expected_id + 1) % u64_mod;
    arch = arch;
  })
]

unfoldable pub accept : ProcessedBlock → WriterState → Result WriterState
accept b s =
    let queue = insert b.id b s.block_queue in
    drain (suc (length queue)) (record s { block_queue = queue })

module _ (L : Compressors) (S : Ciphers) (Z : Serializers) (nonce : Bytes) where
  unfoldable pub close : List FileEntry → ℕ → ArchiveWriter → Result ArchiveWriter
  close files total arch =
      finish L S Z nonce
        (record arch { index = record arch.index { files = files }; stream_position = total })

  -- `while let Ok(data) = rx.recv()`: the loop ends with the channel, or at the first `Finalize`.
  unfoldable pub receive : List WriterMessage → WriterState → Result ArchiveWriter
  receive [] s = ok s.arch
  receive (block b ∷ rest) s = accept b s >>= receive rest
  receive (finalize files total ∷ rest) s = close files total s.arch

  unfoldable pub writer : List WriterMessage → ArchiveWriter → Result ArchiveWriter
  writer rx arch =
      receive rx (record { block_queue = []; expected_id = length arch.index.block; arch = arch })
