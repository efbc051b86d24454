-- ===== src/Base/Perms.antt =====
-- Lists in another order.
use mathlib.Core.List.{Permᴰ, List, [], ◌∷◌, ◌++◌, map, append_assoc}
use mathlib.Core.List.Permᴰ
use mathlib.Core.Path.{subst, ◌≡◌, refl, sym, ap}
use cryo.Base.Lists.{All}

pub map-append {ℓ κ} :
    {A : Type ℓ} {B : Type κ} (f : A → B) (xs ys : List A) → map f (xs ++ ys) ≡ map f xs ++ map f ys
map-append f [] ys = refl
map-append f (x ∷ xs) ys = ap (λ t. f x ∷ t) (map-append f xs ys)

pub All-middle {ℓ κ} :
    {A : Type ℓ} (P : A → Type κ) (front back : List A) (a : A)
    → All P (front ++ (a ∷ back))
    → P a × All P (front ++ back)
All-middle P [] back a h = h
All-middle P (x ∷ front) back a (h, hs) =
    let (ha, rest) = All-middle P front back a hs in (ha, (h, rest))

module _ {ℓ} {A : Type ℓ} where
  -- One that is taken out of the middle of the second part goes to the front.
  pub perm_out :
      (x : A) (ms front back ws : List A)
      → Permᴰ (x ∷ (ms ++ ((front ++ back) ++ ws))) (ms ++ ((front ++ (x ∷ back)) ++ ws))
  perm_out x ms front back ws =
      Permᴰ.trans (Permᴰ.symm (Permᴰ.middle x ms ((front ++ back) ++ ws)))
        (Permᴰ.append_left ms (Permᴰ.append_right ws (Permᴰ.symm (Permᴰ.middle x front back))))

  -- One that is taken out of the first part goes to the end.
  pub perm_last :
      (x : A) (front back ss : List A)
      → Permᴰ ((front ++ (x ∷ back)) ++ ss) ((front ++ back) ++ (ss ++ (x ∷ [])))
  perm_last x front back ss = Permᴰ.trans (Permᴰ.append_right ss (Permᴰ.middle x front back)) (
      Permᴰ.trans (Permᴰ.cons refl (Permᴰ.symm (Permᴰ.append-nil ((front ++ back) ++ ss)))) (
        Permᴰ.trans (Permᴰ.symm (Permᴰ.middle x ((front ++ back) ++ ss) [])) (
          subst (λ (l : List A). Permᴰ (((front ++ back) ++ ss) ++ (x ∷ [])) l)
            (append_assoc (front ++ back) ss (x ∷ [])) (Permᴰ.refl _))))

-- A reordering of the first parts is one of the pairs.
pub sort_pairs {ℓ κ} :
    {A : Type ℓ} {B : Type κ} (ps : List (A × B)) {xs ys : List A}
    → map (λ (p : A × B). p.0) ps ≡ xs
    → Permᴰ xs ys
    → (qs : List (A × B)) × Permᴰ ps qs × (map (λ (p : A × B). p.0) qs ≡ ys)
sort_pairs [] e Permᴰ.nil = ([], Permᴰ.nil, refl)
sort_pairs (q ∷ ps) e Permᴰ.nil = absurd (cc e)
sort_pairs [] e (Permᴰ.cons h d) = absurd (cc e)
sort_pairs (q ∷ ps) e (Permᴰ.cons h d) =
    let (qs, d', e') = sort_pairs ps (cc e) d in (q ∷ qs, Permᴰ.cons refl d', cc)
sort_pairs [] e (Permᴰ.swap h k) = absurd (cc e)
sort_pairs (q ∷ []) e (Permᴰ.swap h k) = absurd (cc e)
sort_pairs (q ∷ r ∷ ps) e (Permᴰ.swap h k) = (r ∷ q ∷ ps, Permᴰ.swap refl refl, cc)
sort_pairs ps e (Permᴰ.trans d d') =
    let (qs, p, f) = sort_pairs ps e d in
    let (rs, p', g) = sort_pairs qs f d' in (rs, Permᴰ.trans p p', g)

-- A reordering keeps what holds of every element.
pub All-Permᴰ {ℓ κ} :
    {A : Type ℓ} (P : A → Type κ) {xs ys : List A} → Permᴰ xs ys → All P ys → All P xs
All-Permᴰ P Permᴰ.nil h = h
All-Permᴰ P (Permᴰ.cons e p) (h, hs) = (subst P (sym e) h, All-Permᴰ P p hs)
All-Permᴰ P (Permᴰ.swap e f) (h, (k, hs)) = (subst P (sym e) k, (subst P (sym f) h, hs))
All-Permᴰ P (Permᴰ.trans p q) h = All-Permᴰ P p (All-Permᴰ P q h)
