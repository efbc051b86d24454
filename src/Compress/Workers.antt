-- ===== src/Compress/Workers.antt =====
-- src/compress.rs, `spawn_workers`: the threads that take raw blocks from one channel and hand
-- processed blocks to another. Their interleaving is a sequence of steps, and each locked access is
-- one step.
pub mod Runs
use cryo.Base.{ℕ, ◌+◌, ◌*◌, ◌≡◌, List, [], ◌∷◌, ◌++◌, length}
use cryo.Base.Bytes.{Bytes}
use cryo.Base.Int.{ℤ}
use cryo.Codec.{Cipher}
use cryo.Compress.Process.{process_block}
use cryo.Engine.Algo.{Compressor}
use cryo.Engine.{CompressingEngine, new_compressing}
use cryo.Errors.{CryoErrors, ok, err, thread_error}
use cryo.Externals.{Compressors, Ciphers, Serializers}
use cryo.Writer.{RawBlock, ProcessedBlock}

-- `working` is what the threads have taken, each with its engine; `holding` is what they have made
-- and not sent.
pub record Pool : Type 0 where
  pub waiting : List RawBlock
  pub engine_pool : List CompressingEngine
  pub working : List (RawBlock × CompressingEngine)
  pub holding : List ProcessedBlock
  pub sent : List ProcessedBlock
  pub failures : List CryoErrors

abbrev pub start_pool : List RawBlock → Pool
start_pool raws = record {
  waiting = raws;
  engine_pool = [];
  working = [];
  holding = [];
  sent = [];
  failures = [];
}

module _ (L : Compressors) (S : Ciphers) (Z : Serializers) (algo : Compressor) (level : ℤ)
    (c : Cipher) (id : Bytes) where
  -- A block may also be taken behind an error, by a thread that has not seen it yet; that no block
  -- need be taken then is for `IsDone` to say. The nonce of a block is any that the random source may draw. A message is not sent where the
  -- writer has gone.
  pub data Step (t : Pool) : Pool → Type 0 where
    take_pooled :
        (raw : RawBlock) (rest : List RawBlock) (e : CompressingEngine)
        (engines : List CompressingEngine)
        → t.waiting ≡ raw ∷ rest
        → t.engine_pool ≡ e ∷ engines
        → Step t
            (record t { waiting = rest; engine_pool = engines; working = (raw, e) ∷ t.working })
    take_new :
        (raw : RawBlock) (rest : List RawBlock) (e : CompressingEngine)
        → t.waiting ≡ raw ∷ rest
        → t.engine_pool ≡ []
        → new_compressing L algo level ≡ ok e
        → Step t (record t { waiting = rest; working = (raw, e) ∷ t.working })
    not_started :
        (raw : RawBlock) (rest : List RawBlock) (x : CryoErrors)
        → t.waiting ≡ raw ∷ rest
        → t.engine_pool ≡ []
        → new_compressing L algo level ≡ err x
        → Step t (record t { waiting = rest; failures = x ∷ t.failures })
    process :
        (front back : List (RawBlock × CompressingEngine)) (raw : RawBlock) (e : CompressingEngine)
        (b : ProcessedBlock)
        → t.working ≡ front ++ ((raw, e) ∷ back)
        → (nonce : Bytes) → process_block L S Z nonce raw c id e ≡ ok b
        → Step t (record t {
          working = front ++ back;
          engine_pool = e ∷ t.engine_pool;
          holding = b ∷ t.holding;
        })
    not_processed :
        (front back : List (RawBlock × CompressingEngine)) (raw : RawBlock) (e : CompressingEngine)
        (x : CryoErrors)
        → t.working ≡ front ++ ((raw, e) ∷ back)
        → (nonce : Bytes) → process_block L S Z nonce raw c id e ≡ err x
        → Step t (record t {
          working = front ++ back;
          engine_pool = e ∷ t.engine_pool;
          failures = x ∷ t.failures;
        })
    send :
        (front back : List ProcessedBlock) (b : ProcessedBlock)
        → t.holding ≡ front ++ (b ∷ back)
        → Step t (record t { holding = front ++ back; sent = t.sent ++ (b ∷ []) })
    not_sent :
        (front back : List ProcessedBlock) (b : ProcessedBlock)
        → t.holding ≡ front ++ (b ∷ back)
        → Step t (record t { holding = front ++ back; failures = thread_error ∷ t.failures })

  pub data Reach (s : Pool) : Pool → Type 0 where
    here : Reach s s
    next : {t u : Pool} → Reach s t → Step t u → Reach s u

-- All threads have returned. `try_for_each` leaves blocks in the channel behind an error: a thread
-- that has seen one takes no more, and one that has not seen it may still take a block.
pub record IsDone (t : Pool) : Type 0 where
  pub nothing_waits : t.failures ≡ [] → t.waiting ≡ []
  pub nobody_works : t.working ≡ []
  pub nobody_holds : t.holding ≡ []
