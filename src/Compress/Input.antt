-- ===== src/Compress/Input.antt =====
-- src/compress.rs, `initialize_compression`: the loop over the input files, and the last block.
pub mod Whole
use cryo.Base.{ℕ, Bool, true, false, Option, none, some, List, [], ◌∷◌, ◌++◌}
use cryo.Base.Bytes.{Bytes}
use cryo.Compress.Chunks.{ReadState, InputEntry, read_file_to_bytes}
use cryo.Errors.{Result, ok, err}
use cryo.FilePath.{FilePath}

abbrev pub first_state : ReadState
first_state = record {
  files = [];
  stream_position = 0;
  block_id = 0;
  pending_buffer = [];
  sent = [];
}

-- The loop is left at the first entry that cannot be read.
unfoldable pub read_all :
    FilePath → ℕ → List InputEntry → ReadState → Option (Result (Unit {0}) × ReadState)
read_all root block_size [] s = some (ok tt, s)
read_all root block_size (i ∷ inputs) s = elim (read_file_to_bytes root block_size i s) [
  | none ↦ none
  | some (err e, t) ↦ some (err e, t)
  | some (ok _, t) ↦ read_all root block_size inputs t
]

-- What is still pending goes down the channel as the last block, if everything could be read.
unfoldable pub send_rest : Result (Unit {0}) → ReadState → ReadState
send_rest (err e) s = s
send_rest (ok _) s = elim s.pending_buffer [
  | [] ↦ s
  | x ∷ bytes ↦ record s {
    pending_buffer = [];
    sent = s.sent ++ (record { id = s.block_id; raw_data = x ∷ bytes } ∷ []);
  }
]

unfoldable pub read_inputs : FilePath → ℕ → List InputEntry → Option (Result (Unit {0}) × ReadState)
unfolding send_rest
read_inputs root block_size inputs = elim (read_all root block_size inputs first_state) [
  | none ↦ none
  | some (r, s) ↦ some (r, send_rest r s)
]
