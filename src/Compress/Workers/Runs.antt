-- ===== src/Compress/Workers/Runs.antt =====
-- What has been sent when the threads have returned.
use mathlib.Core.List.{Permᴰ}
use mathlib.Core.List.Permᴰ
use mathlib.Core.Path.{subst}
use cryo.Base.{◌≡◌, refl, sym, ap, ◌∙◌, List, [], ◌∷◌, ◌++◌, map, All, append-nil}
use cryo.Base.Perms.{map-append, All-middle, perm_out, perm_last, sort_pairs, All-Permᴰ}
use cryo.Base.Bytes.{Bytes}
use cryo.Base.Int.{ℤ}
use cryo.Codec.{Cipher}
use cryo.Compress.Process.{process_block}
use cryo.Compress.Workers.{
  Pool, start_pool, Step, take_pooled, take_new, not_started, process, not_processed, send,
  not_sent, Reach, here, next, IsDone,
}
use cryo.Engine.Algo.{Compressor}
use cryo.Engine.{CompressingEngine, new_compressing}
use cryo.Errors.{ok}
use cryo.Externals.{Compressors, Ciphers, Serializers}
use cryo.Reader.Restore.{AreMade, none_made, one_made}
use cryo.Writer.{RawBlock, ProcessedBlock}

module _ (L : Compressors) (S : Ciphers) (Z : Serializers) (algo : Compressor) (level : ℤ)
    (c : Cipher) (id : Bytes) (e : CompressingEngine)
    (starts : new_compressing L algo level ≡ ok e) where
  abbrev IsMade : RawBlock × ProcessedBlock → Type 0
  IsMade p = (nonce : Bytes) × (process_block L S Z nonce p.0 c id e ≡ ok p.1)

  -- Where the raw blocks are, and what has been made of them.
  record Account (raws : List RawBlock) (t : Pool) : Type 0 where
    pairs : List (RawBlock × ProcessedBlock)
    made : All IsMade pairs
    inputs :
        Permᴰ
          (map (λ (p : RawBlock × ProcessedBlock). p.0) pairs
            ++ (map (λ (j : RawBlock × CompressingEngine). j.0) t.working ++ t.waiting))
          raws
    outputs : Permᴰ (map (λ (p : RawBlock × ProcessedBlock). p.1) pairs) (t.holding ++ t.sent)
    same_engines : All (λ x. x ≡ e) t.engine_pool
    same_workers : All (λ (j : RawBlock × CompressingEngine). j.1 ≡ e) t.working

  abbrev raw_of : RawBlock × CompressingEngine → RawBlock
  raw_of j = j.0

  -- A raw block that is taken goes from the channel to a thread.
  taken :
      (raws : List RawBlock) {t : Pool} (a : Account raws t) (raw : RawBlock) (rest : List RawBlock)
      → t.waiting ≡ raw ∷ rest
      → Permᴰ
          (map (λ (p : RawBlock × ProcessedBlock). p.0) a.pairs
            ++ (raw ∷ (map raw_of t.working ++ rest)))
          raws
  taken raws {t} a raw rest w =
      let ms = map (λ (p : RawBlock × ProcessedBlock). p.0) a.pairs in
      Permᴰ.trans (Permᴰ.append_left ms (Permᴰ.symm (Permᴰ.middle raw (map raw_of t.working) rest)))
        (subst (λ (l : List RawBlock). Permᴰ (ms ++ (map raw_of t.working ++ l)) raws) w a.inputs)

  -- One that is processed goes from its thread to what is made.
  worked :
      (raws : List RawBlock) {t : Pool} (a : Account raws t)
      (front back : List (RawBlock × CompressingEngine)) (raw : RawBlock) (e' : CompressingEngine)
      → t.working ≡ front ++ ((raw, e') ∷ back)
      → Permᴰ
          (raw
            ∷ (map (λ (p : RawBlock × ProcessedBlock). p.0) a.pairs
                ++ (map raw_of (front ++ back) ++ t.waiting)))
          raws
  worked raws {t} a front back raw e' w =
      let ms = map (λ (p : RawBlock × ProcessedBlock). p.0) a.pairs in
      let before = ap (map raw_of) w ∙ map-append raw_of front ((raw, e') ∷ back) in
      subst (λ (l : List RawBlock). Permᴰ (raw ∷ (ms ++ (l ++ t.waiting))) raws)
        (sym (map-append raw_of front back))
        (Permᴰ.trans (perm_out raw ms (map raw_of front) (map raw_of back) t.waiting)
          (subst (λ (l : List RawBlock). Permᴰ (ms ++ (l ++ t.waiting)) raws) before a.inputs))

  start-Account : (raws : List RawBlock) → Account raws (start_pool raws)
  start-Account raws = record {
    pairs = [];
    made = tt;
    inputs = Permᴰ.refl raws;
    outputs = Permᴰ.nil;
    same_engines = tt;
    same_workers = tt;
  }

  -- A step without a failure keeps the account.
  Step-Account :
      (raws : List RawBlock) {t u : Pool}
      → Step L S Z algo level c id t u
      → u.failures ≡ []
      → Account raws t
      → Account raws u
  Step-Account raws {t} (take_pooled raw rest e' engines w p) f a =
      let engines_are : All (λ x. x ≡ e) (e' ∷ engines) =
        subst (All (λ x. x ≡ e)) p a.same_engines in
      record {
        pairs = a.pairs;
        made = a.made;
        inputs = taken raws a raw rest w;
        outputs = a.outputs;
        same_engines = engines_are.1;
        same_workers = (engines_are.0, a.same_workers);
      }
  Step-Account raws {t} (take_new raw rest e' w p s) f a = record {
    pairs = a.pairs;
    made = a.made;
    inputs = taken raws a raw rest w;
    outputs = a.outputs;
    same_engines = a.same_engines;
    same_workers = (cc, a.same_workers);
  }
  Step-Account raws {t} (not_started raw rest x w p s) f a = absurd (cc f)
  Step-Account raws {t} (process front back raw e' b w nonce s) f a =
      let jobs = subst (All (λ (j : RawBlock × CompressingEngine). j.1 ≡ e)) w a.same_workers in
      let (same, others) =
        All-middle (λ (j : RawBlock × CompressingEngine). j.1 ≡ e) front back (raw, e') jobs in
      record {
        pairs = (raw, b) ∷ a.pairs;
        made = ((nonce, ap (process_block L S Z nonce raw c id) (sym same) ∙ s), a.made);
        inputs = worked raws a front back raw e' w;
        outputs = Permᴰ.cons refl a.outputs;
        same_engines = (same, a.same_engines);
        same_workers = others;
      }
  Step-Account raws {t} (not_processed front back raw e' x w nonce s) f a = absurd (cc f)
  Step-Account raws {t} (send front back b w) f a = record {
    pairs = a.pairs;
    made = a.made;
    inputs = a.inputs;
    outputs =
        Permᴰ.trans
          (subst
            (λ (l : List ProcessedBlock).
              Permᴰ (map (λ (p : RawBlock × ProcessedBlock). p.1) a.pairs) (l ++ t.sent))
            w a.outputs)
          (perm_last b front back t.sent);
    same_engines = a.same_engines;
    same_workers = a.same_workers;
  }
  Step-Account raws {t} (not_sent front back b w) f a = absurd (cc f)

  Step-failures : {t u : Pool} → Step L S Z algo level c id t u → u.failures ≡ [] → t.failures ≡ []
  Step-failures (take_pooled raw rest e' engines w p) f = f
  Step-failures (take_new raw rest e' w p s) f = f
  Step-failures (not_started raw rest x w p s) f = absurd (cc f)
  Step-failures (process front back raw e' b w nonce s) f = f
  Step-failures (not_processed front back raw e' x w nonce s) f = absurd (cc f)
  Step-failures (send front back b w) f = f
  Step-failures (not_sent front back b w) f = absurd (cc f)

  Reach-Account :
      (raws : List RawBlock) {t : Pool}
      → Reach L S Z algo level c id (start_pool raws) t
      → t.failures ≡ []
      → Account raws t
  Reach-Account raws here f = start-Account raws
  Reach-Account raws (next r step) f =
      Step-Account raws step f (Reach-Account raws r (Step-failures step f))

  pairs-AreMade :
      (ps : List (RawBlock × ProcessedBlock))
      → All IsMade ps
      → AreMade L S Z c id e
          (map (λ (p : RawBlock × ProcessedBlock). p.0) ps)
          (map (λ (p : RawBlock × ProcessedBlock). p.1) ps)
  pairs-AreMade [] h = none_made
  pairs-AreMade (p ∷ ps) ((nonce, h), hs) = one_made nonce h (pairs-AreMade ps hs)

  -- Let an engine start, and let the threads have started with the raw blocks `raws`. In every
  -- interleaving that ends with no error, what has been sent is a reordering of one processed
  -- block for each raw block, each made of its raw block by `process_block` with some nonce.
  pub Reach-AreMade :
      (raws : List RawBlock) {t : Pool}
      → Reach L S Z algo level c id (start_pool raws) t
      → IsDone t
      → t.failures ≡ []
      → (bs : List ProcessedBlock) × AreMade L S Z c id e raws bs × Permᴰ t.sent bs
  Reach-AreMade raws {t} r done f =
      let a = Reach-Account raws r f in
      let raw = λ (p : RawBlock × ProcessedBlock). p.0 in
      let out = λ (p : RawBlock × ProcessedBlock). p.1 in
      let all_in : map raw a.pairs ++ (map raw_of t.working ++ t.waiting) ≡ map raw a.pairs =
        ap (λ (l : List RawBlock). map raw a.pairs ++ (map raw_of t.working ++ l))
          (done.nothing_waits f)
        ∙ ap (λ (l : List (RawBlock × CompressingEngine)). map raw a.pairs ++ (map raw_of l ++ []))
            done.nobody_works
        ∙ append-nil (map raw a.pairs) in
      let (qs, perm, same) =
        sort_pairs a.pairs refl (subst (λ (l : List RawBlock). Permᴰ l raws) all_in a.inputs) in
      (
        map out qs,
        subst (λ (l : List RawBlock). AreMade L S Z c id e l (map out qs)) same
            (pairs-AreMade qs (All-Permᴰ IsMade (Permᴰ.symm perm) a.made)),
        Permᴰ.trans
            (Permᴰ.symm (
              subst (λ (l : List ProcessedBlock). Permᴰ (map out a.pairs) (l ++ t.sent))
                done.nobody_holds a.outputs))
            (Permᴰ.map out perm),
      )
