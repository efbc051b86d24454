-- ===== src/Format/Footer/RoundTrip.antt =====
-- The footer's two directions.
use cryo.Base.{
  ℕ, suc, ◌≡◌, refl, sym, ap, ◌∙◌, Bool, true, false, not, [], ◌∷◌, ◌++◌, arith, ◌==◌,
  if◌then◌else◌, length, take, drop, take-all, length-take, length-drop, take-append-drop,
  length-append,
}
use cryo.Base.Bytes.{
  Bytes, to_le_bytes, from_le_bytes, length-to_le_bytes, from_le_bytes-to_le_bytes,
}
use cryo.Errors.{ok}
use cryo.Format.Footer.{Footer, IsFooter, serialize, deserialize}

-- What is read back from three numbers, a flag byte and a nonce laid one behind the other.
parts :
    (a b c n : Bytes) (x : ℕ)
    → length a ≡ 8
    → length b ≡ 4
    → length c ≡ 4
    → length n ≡ 12
    → deserialize (a ++ (b ++ (c ++ (x ∷ n))))
      ≡ ok (record {
        index_offset = from_le_bytes a;
        index_size_stored = from_le_bytes b;
        index_size_plain = from_le_bytes c;
        index_compressed = not (x == 0);
        index_nonce = n;
      })
unfolding deserialize
parts (a0 ∷ a1 ∷ a2 ∷ a3 ∷ a4 ∷ a5 ∷ a6 ∷ a7 ∷ []) (b0 ∷ b1 ∷ b2 ∷ b3 ∷ []) (c0 ∷ c1 ∷ c2 ∷ c3 ∷ [])
      n x ha hb hc hn =
    rw (take-all 12 n (omega arith), hn) refl
parts _ _ _ n x ha hb hc hn = absurd (omega arith)

-- A footer whose fields fit their types is read back as it was written.
pub deserialize-serialize : (f : Footer) → IsFooter f → deserialize (serialize f) ≡ ok f
unfolding serialize
deserialize-serialize f h =
    parts (to_le_bytes 8 f.index_offset) (to_le_bytes 4 f.index_size_stored)
      (to_le_bytes 4 f.index_size_plain) f.index_nonce _ (length-to_le_bytes 8 _)
      (length-to_le_bytes 4 _) (length-to_le_bytes 4 _) h.nonce_fits
    ∙ rw
        (
          from_le_bytes-to_le_bytes 8 f.index_offset h.offset_fits,
          from_le_bytes-to_le_bytes 4 f.index_size_stored h.stored_fits,
          from_le_bytes-to_le_bytes 4 f.index_size_plain h.plain_fits,
        )
        (flag f.index_compressed)
  where
    flag :
        (b : Bool)
        → ok (record {
          index_offset = f.index_offset;
          index_size_stored = f.index_size_stored;
          index_size_plain = f.index_size_plain;
          index_compressed = not ((if b then 1 else 0) == 0);
          index_nonce = f.index_nonce;
        })
          ≡ ok (record f { index_compressed = b })
    flag true = refl
    flag false = refl

pub length-serialize : (f : Footer) → IsFooter f → length (serialize f) ≡ 29
unfolding serialize
length-serialize f h = omega (
  arith,
  h.nonce_fits,
  length-append (to_le_bytes 8 f.index_offset),
  length-append (to_le_bytes 4 f.index_size_stored),
  length-append (to_le_bytes 4 f.index_size_plain),
  length-to_le_bytes 8 f.index_offset,
  length-to_le_bytes 4 f.index_size_stored,
  length-to_le_bytes 4 f.index_size_plain,
)

-- The five parts of 29 bytes.
record Parts (raw : Bytes) : Type 0 where
  a : Bytes
  b : Bytes
  c : Bytes
  x : ℕ
  n : Bytes
  whole : raw ≡ a ++ (b ++ (c ++ (x ∷ n)))
  length_a : length a ≡ 8
  length_b : length b ≡ 4
  length_c : length c ≡ 4
  length_n : length n ≡ 12

cons_of :
    (k : ℕ) (r : Bytes) → length r ≡ suc k → (x : ℕ) × (n : Bytes) × (r ≡ x ∷ n) × (length n ≡ k)
cons_of k [] h = absurd (omega arith)
cons_of k (x ∷ n) h = (x, n, refl, omega arith)

split : (raw : Bytes) → length raw ≡ 29 → Parts raw
split raw h =
    let r8 = drop 8 raw in
    let r12 = drop 4 r8 in
    let r16 = drop 4 r12 in
    let (x, n, e, ln) =
      cons_of 12 (drop 4 (drop 4 (drop 8 raw)))
        (omega (arith, length-drop 4 r12, length-drop 4 r8, length-drop 8 raw)) in
    record {
      a = take 8 raw;
      b = take 4 r8;
      c = take 4 r12;
      x = x;
      n = n;
      whole = sym (
          rw (
            ← e,
            take-append-drop 4 (drop 4 (drop 8 raw)),
            take-append-drop 4 (drop 8 raw),
            take-append-drop 8 raw,
          ));
      length_a = omega (arith, length-take 8 raw);
      length_b = omega (arith, length-take 4 r8, length-drop 8 raw);
      length_c = omega (arith, length-take 4 r12, length-drop 4 r8, length-drop 8 raw);
      length_n = ln;
    }

-- Any 29 bytes deserialize to a footer.
pub deserialize_total : (raw : Bytes) → length raw ≡ 29 → (f : Footer) × (deserialize raw ≡ ok f)
deserialize_total raw h =
    let p = split raw h in
    (
      _,
      ap deserialize p.whole
          ∙ parts p.a p.b p.c p.n p.x p.length_a p.length_b p.length_c p.length_n,
    )
