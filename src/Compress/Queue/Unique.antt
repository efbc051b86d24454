-- ===== src/Compress/Queue/Unique.antt =====
-- The numbers of the blocks fix their order.
use mathlib.Core.List.{Permᴰ}
use mathlib.Core.List.Permᴰ
use mathlib.Core.Path.{subst}
use cryo.Base.{
  ℕ, zero, suc, ◌+◌, ◌≡◌, refl, ap, ◌∙◌, some, List, [], ◌∷◌, arith, length, drop, All, get_elem?,
}
use cryo.Base.Perms.{All-Permᴰ}
use cryo.Compress.Queue.Order.{Numbered, Belongs, All-Belongs}
use cryo.Writer.{ProcessedBlock}

drop-get_elem? :
    (i : ℕ) (xs : List ProcessedBlock) (b : ProcessedBlock)
    → get_elem? xs i ≡ some b
    → drop i xs ≡ b ∷ drop (suc i) xs
drop-get_elem? i [] b h = cc
drop-get_elem? zero (x ∷ xs) b h = cc
drop-get_elem? (suc i) (x ∷ xs) b h = drop-get_elem? i xs b h

drop-length : (xs : List ProcessedBlock) (i : ℕ) → length xs ≡ i → drop i xs ≡ []
drop-length [] zero h = refl
drop-length [] (suc i) h = absurd (omega arith)
drop-length (x ∷ xs) zero h = absurd (omega arith)
drop-length (x ∷ xs) (suc i) h = drop-length xs i (omega arith)

drop-Numbered :
    (k i : ℕ) (xs ys : List ProcessedBlock)
    → All (Belongs k xs) ys
    → Numbered (k + i) ys
    → length xs ≡ i + length ys
    → drop i xs ≡ ys
drop-Numbered k i xs [] h num size = drop-length xs i (omega arith)
drop-Numbered k i xs (y ∷ ys) (b, bs) (e, num) size =
    drop-get_elem? i xs y (ap (get_elem? xs) (omega (arith, b.number)) ∙ b.there)
    ∙ ap (λ (l : List ProcessedBlock). y ∷ l)
        (drop-Numbered k (suc i) xs ys bs (subst (λ (n : ℕ). Numbered n ys) (omega arith) num)
          (omega arith))

length-Permᴰ : {xs ys : List ProcessedBlock} → Permᴰ xs ys → length xs ≡ length ys
length-Permᴰ Permᴰ.nil = refl
length-Permᴰ (Permᴰ.cons e p) = omega (arith, length-Permᴰ p)
length-Permᴰ (Permᴰ.swap e f) = refl
length-Permᴰ (Permᴰ.trans p q) = length-Permᴰ p ∙ length-Permᴰ q

-- Two reorderings of the same blocks, both numbered on from `k`, are the same.
pub Numbered-unique :
    (k : ℕ) {xs ys : List ProcessedBlock} → Permᴰ xs ys → Numbered k xs → Numbered k ys → xs ≡ ys
Numbered-unique k {xs} {ys} p hx hy =
    drop-Numbered k 0 xs ys
      (All-Permᴰ (Belongs k xs) (Permᴰ.symm p)
        (All-Belongs k [] xs (subst (λ (n : ℕ). Numbered n xs) (omega arith) hx)))
      (subst (λ (n : ℕ). Numbered n ys) (omega arith) hy) (omega (arith, length-Permᴰ p))
