-- ===== src/Listing/Dates/Eras.antt =====
-- `days_to_ymd` goes through the calendar day by day, over the eras.
use cryo.Base.{ℕ, zero, suc, ◌+◌, ◌-◌, ◌*◌, ◌/◌, ◌%◌, ◌<◌, ◌≡◌, refl, sym, ap, ◌∙◌, arith, inl, inr}
use cryo.Base.Int.{ℤ, pos, negsuc, ◌+ℤ◌}
use cryo.Listing.Dates.{era_of, doe_of, yoe_of, doy_of, ymd, days_to_ymd}
use cryo.Listing.Dates.Calendar.{
  next_day, after, starts, ends, few_years, one_year, month_length, ymd-at, next_era, either,
  in_year, end_year,
}

abbrev date_at : ℤ → ℕ → ℤ × ℕ × ℕ
date_at era doe = ymd era (yoe_of doe) (doy_of doe (yoe_of doe))

-- The years of an era lie one behind the other.
year_length :
    (k : ℕ)
    → k < 400
    → 365 * k + k / 4 - k / 100 + (337 + month_length k 11)
      ≡ 365 * (k + 1) + (k + 1) / 4 - (k + 1) / 100 + (k + 1) / 400
year_length k few = ground arith

date_at-suc :
    (era : ℤ) (doe : ℕ) → doe < 146096 → date_at era (doe + 1) ≡ next_day (date_at era doe)
date_at-suc era doe h =
    let k = yoe_of doe in
    let doy = doy_of doe k in
    let low = starts doe (omega arith) in
    let few = few_years doe (omega arith) in
    elim (either (337 + month_length k 11) (doy + 1)) [
      | inr inside ↦
          let same : yoe_of (doe + 1) ≡ k =
            one_year (doe + 1) k (omega arith) few (omega (arith, low))
              (omega (arith, year_length k few, low)) in
          ap (λ (x : ℕ). ymd era x (doy_of (doe + 1) x)) same
          ∙ ap (ymd era k) (omega (arith, low))
          ∙ in_year era k doy inside
      | inl last ↦
          let high = ends doe (omega arith) in
          let more : k + 1 < 400 = omega (arith, low, few, year_length k few) in
          let next : yoe_of (doe + 1) ≡ k + 1 =
            one_year (doe + 1) (k + 1) (omega arith) more
              (omega (arith, low, high, year_length k few)) (omega (arith, low, high)) in
          ap (λ (x : ℕ). ymd era x (doy_of (doe + 1) x)) next
          ∙ ap (ymd era (k + 1)) {y = 0} (omega (arith, low, high, few, year_length k few))
          ∙ end_year era k doy (omega (arith, low, high, year_length k few))
    ]

date_at-turn : (era : ℤ) → date_at (era +ℤ pos 1) 0 ≡ next_day (date_at era 146096)
date_at-turn era =
    ymd-at (era +ℤ pos 1) 0 0 0 0 refl (omega arith) (omega arith)
    ∙ ap (λ (y : ℤ). (y, 3, 1)) (sym (next_era era))
    ∙ sym (ymd-at era 400 0 0 0 refl (omega arith) (omega arith))
    ∙ end_year era 399 365 refl

-- Era and day of the era, on either side of 0.
era_of-pos : (n : ℕ) → (era_of (pos n) ≡ pos (n / 146097)) × (doe_of (pos n) ≡ n % 146097)
era_of-pos n = (ground arith, ground arith)

era_of-negsuc :
    (n : ℕ) → (era_of (negsuc n) ≡ negsuc (n / 146097)) × (doe_of (negsuc n) ≡ 146096 - n % 146097)
era_of-negsuc n = (ground arith, ground arith)

date_of : ℤ → ℤ × ℕ × ℕ
date_of z = date_at (era_of z) (doe_of z)

date_of-same :
    (z z' : ℤ)
    → doe_of z < 146096
    → era_of z' ≡ era_of z
    → doe_of z' ≡ doe_of z + 1
    → date_of z' ≡ next_day (date_of z)
unfolding date_of
date_of-same z z' h e d =
    ap (λ (x : ℤ). date_at x (doe_of z')) e
    ∙ ap (date_at (era_of z)) d
    ∙ date_at-suc (era_of z) (doe_of z) h

date_of-turn :
    (z z' : ℤ)
    → doe_of z ≡ 146096
    → era_of z' ≡ era_of z +ℤ pos 1
    → doe_of z' ≡ 0
    → date_of z' ≡ next_day (date_of z)
unfolding date_of
date_of-turn z z' h e d =
    ap (λ (x : ℤ). date_at x (doe_of z')) e
    ∙ ap (date_at (era_of z +ℤ pos 1)) d
    ∙ date_at-turn (era_of z)
    ∙ ap (λ (x : ℕ). next_day (date_at (era_of z) x)) (sym h)

date_of-pos : (n : ℕ) → date_of (pos (n + 1)) ≡ next_day (date_of (pos n))
date_of-pos n =
    let (e, d) = era_of-pos n in
    let (e', d') = era_of-pos (n + 1) in
    elim (either 146096 (n % 146097)) [
      | inr inner ↦
          date_of-same (pos n) (pos (n + 1)) (omega (arith, d)) (e' ∙ ap pos (omega arith) ∙ sym e)
            (omega (arith, d, d'))
      | inl outer ↦
          date_of-turn (pos n) (pos (n + 1)) (omega (arith, d))
            (e' ∙ ground arith ∙ ap (λ (x : ℤ). x +ℤ pos 1) (sym e)) (omega (arith, d'))
    ]

date_of-negsuc : (n : ℕ) → date_of (negsuc n) ≡ next_day (date_of (negsuc (suc n)))
date_of-negsuc n =
    let (e, d) = era_of-negsuc (suc n) in
    let (e', d') = era_of-negsuc n in
    elim (either 146096 (n % 146097)) [
      | inr inner ↦
          date_of-same (negsuc (suc n)) (negsuc n) (omega (arith, d))
            (e' ∙ ap negsuc (omega arith) ∙ sym e) (omega (arith, d, d'))
      | inl outer ↦
          date_of-turn (negsuc (suc n)) (negsuc n) (omega (arith, d))
            (e' ∙ ground arith ∙ ap (λ (x : ℤ). x +ℤ pos 1) (sym e)) (omega (arith, d'))
    ]

date_of-suc : (z : ℤ) → date_of (z +ℤ pos 1) ≡ next_day (date_of z)
date_of-suc (pos n) = ap date_of (ground arith) ∙ date_of-pos n
date_of-suc (negsuc zero) = unfold date_of in date_at-turn (negsuc 0)
date_of-suc (negsuc (suc n)) = ap date_of (ground arith) ∙ date_of-negsuc n

assoc-719468 : (z : ℤ) → z +ℤ pos 1 +ℤ pos 719468 ≡ z +ℤ pos 719468 +ℤ pos 1
assoc-719468 (pos n) = ground arith
assoc-719468 (negsuc n) = ground arith

-- One day more is the next day of the calendar.
pub days_to_ymd-next_day : (days : ℤ) → days_to_ymd (days +ℤ pos 1) ≡ next_day (days_to_ymd days)
unfolding days_to_ymd date_of
days_to_ymd-next_day days = ap date_of (assoc-719468 days) ∙ date_of-suc (days +ℤ pos 719468)

abbrev pub epoch : ℤ × ℕ × ℕ
epoch = (pos 1970, 1, 1)

at_epoch : days_to_ymd (pos 0) ≡ epoch
unfolding days_to_ymd
at_epoch = refl

forward : (n : ℕ) → days_to_ymd (pos n) ≡ after n epoch
forward zero = at_epoch
forward (suc n) =
    ap days_to_ymd (ground arith) ∙ days_to_ymd-next_day (pos n) ∙ ap next_day (forward n)

-- Counting a day more begins a day earlier.
after-next_day : (n : ℕ) (t : ℤ × ℕ × ℕ) → after n (next_day t) ≡ next_day (after n t)
after-next_day zero t = refl
after-next_day (suc n) t = ap next_day (after-next_day n t)

backward : (n : ℕ) → after (suc n) (days_to_ymd (negsuc n)) ≡ epoch
backward zero = sym (days_to_ymd-next_day (negsuc 0)) ∙ at_epoch
backward (suc n) =
    sym (after-next_day (suc n) (days_to_ymd (negsuc (suc n))))
    ∙ ap (after (suc n))
        (sym (days_to_ymd-next_day (negsuc (suc n))) ∙ ap days_to_ymd (ground arith))
    ∙ backward n

-- The date of day n is the nth day after 1970-01-01 in the Gregorian calendar, counted day by day
-- with its leap years, and the nth day before it is the day from which n days lead to 1970-01-01.
-- Day numbers are integers without bounds here.
pub days_to_ymd-after :
    (n : ℕ)
    → (days_to_ymd (pos n) ≡ after n epoch) × (after (suc n) (days_to_ymd (negsuc n)) ≡ epoch)
days_to_ymd-after n = (forward n, backward n)
