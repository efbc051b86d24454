-- ===== src/Reader/Slices/Cuts.antt =====
-- Cuts that run over the seam of two lists of bytes.
use cryo.Base.{
  ℕ, zero, suc, ◌+◌, ◌-◌, ◌≤◌, ◌<◌, ◌≡◌, refl, sym, ap, ◌∙◌, min, [], ◌∷◌, ◌++◌, arith, length,
  take, drop, slice, drop-append_left, length-drop,
}
use cryo.Base.Bytes.{Bytes}
use mathlib.Core.Path.{ap₂}

pub take_eq : {m n : ℕ} (xs : Bytes) → m ≡ n → take m xs ≡ take n xs
take_eq xs e = ap (λ (k : ℕ). take k xs) e

take-append : (n : ℕ) (xs ys : Bytes) → take n (xs ++ ys) ≡ take n xs ++ take (n - length xs) ys
take-append zero [] ys = refl
take-append zero (x ∷ xs) ys = take_eq {m = zero} {n = zero - length (x ∷ xs)} ys (omega arith)
take-append (suc n) [] ys = take_eq {m = suc n} {n = suc n - 0} ys (omega arith)
take-append (suc n) (x ∷ xs) ys =
    ap (λ (t : Bytes). x ∷ t) (take-append n xs ys)
    ∙ ap (λ (t : Bytes). (x ∷ take n xs) ++ t)
        (take_eq {m = n - length xs} {n = suc n - suc (length xs)} ys (omega arith))

-- A cut longer than the list is the list.
take-min : (n : ℕ) (xs : Bytes) → take (min n (length xs)) xs ≡ take n xs
take-min zero [] = refl
take-min zero (x ∷ xs) = take_eq {m = min 0 (suc (length xs))} {n = 0} (x ∷ xs) (omega arith)
take-min (suc n) [] = take_eq {m = min (suc n) 0} {n = 0} [] (omega arith)
take-min (suc n) (x ∷ xs) =
    take_eq {m = min (suc n) (suc (length xs))} {n = suc (min n (length xs))} (x ∷ xs) (omega arith)
    ∙ ap (λ (t : Bytes). x ∷ t) (take-min n xs)

-- A cut that runs over the seam of two lists.
slice-append :
    (a n : ℕ) (p rest : Bytes)
    → a ≤ length p
    → a ≤ n
    → slice a (min n (length p)) p ++ take (n - length p) rest ≡ take (n - a) (drop a (p ++ rest))
slice-append a n p rest h k =
    ap₂ (λ (t u : Bytes). t ++ u)
      (take_eq {m = min n (length p) - a} {n = min (n - a) (length (drop a p))} (drop a p)
          (omega (arith, length-drop a p))
        ∙ take-min (n - a) (drop a p))
      (take_eq {m = n - length p} {n = n - a - length (drop a p)} rest
        (omega (arith, length-drop a p)))
    ∙ sym (take-append (n - a) (drop a p) rest)
    ∙ ap (take (n - a)) (sym (drop-append_left a p rest h))

-- What one block gives to a file, and what the blocks behind it give.
pub cut :
    (pos start end : ℕ) (p rest : Bytes)
    → start ≤ end
    → start ≤ pos + length p
    → pos ≤ end
    → slice (start - pos) (min end (pos + length p) - pos) p ++ take (end - (pos + length p)) rest
      ≡ take (end - pos - (start - pos)) (drop (start - pos) (p ++ rest))
cut pos start end p rest h k l =
    ap₂ (λ (t u : Bytes). t ++ u)
      (take_eq {m = min end (pos + length p) - pos - (start - pos)}
        {n = min (end - pos) (length p) - (start - pos)} (drop (start - pos) p) (omega arith))
      (take_eq {m = end - (pos + length p)} {n = end - pos - length p} rest (omega arith))
    ∙ slice-append (start - pos) (end - pos) p rest (omega arith) (omega arith)

pub cut_inside :
    (pos start end : ℕ) (p rest : Bytes)
    → start < pos
    → pos < end
    → slice (start - pos) (min end (pos + length p) - pos) p ++ take (end - (pos + length p)) rest
      ≡ take (end - pos) (p ++ rest)
cut_inside pos start end p rest h k =
    cut pos start end p rest (omega arith) (omega arith) (omega arith)
    ∙ ap₂ (λ (m n : ℕ). take m (drop n (p ++ rest))) {x = end - pos - (start - pos)} {y = end - pos}
        {u = start - pos} {v = 0} (omega arith) (omega arith)
