-- ===== src/Listing/Dates/Calendar.antt =====
-- The Gregorian calendar, day by day, and the closed formula against it.
use cryo.Base.{
  ℕ, zero, suc, ◌+◌, ◌-◌, ◌*◌, ◌/◌, ◌%◌, ◌≤◌, ◌<◌, ◌≡◌, refl, sym, ap, ◌∙◌, Bool, not, ◌&&◌, ◌||◌,
  ltb, leb, ◌==◌, if◌then◌else◌, arith, ◌⊎◌, ◌≢◌, inl, inr,
}
use cryo.Base.Int.{ℤ, pos, negsuc, pos_part, neg_part, ◌+ℤ◌, times}
use cryo.Listing.Dates.{yoe_of, mp_of, ymd}

abbrev pub leap : ℕ → Bool
leap n = (n % 4 == 0) && (not (n % 100 == 0) || (n % 400 == 0))

-- A year and its negative are divisible alike.
abbrev is_leap : ℤ → Bool
is_leap y = leap (pos_part y + neg_part y)

-- The months alternate between 31 and 30 days, from January to July and from August on, but for
-- February.
abbrev days_in_month : ℤ → ℕ → ℕ
days_in_month y m =
    if m == 2 then (if is_leap y then 29 else 28) else if ltb m 8 then 30 + m % 2 else 31 - m % 2

-- The day after.
abbrev pub next_day : ℤ × ℕ × ℕ → ℤ × ℕ × ℕ
next_day (y, m, d) =
    if ltb d (days_in_month y m)
    then (y, m, d + 1)
    else if ltb m 12
    then (y, m + 1, 1)
    else (y +ℤ pos 1, 1, 1)

abbrev pub after : ℕ → ℤ × ℕ × ℕ → ℤ × ℕ × ℕ
after zero t = t
after (suc n) t = next_day (after n t)

pub starts : (doe : ℕ) → doe < 146097 → 365 * yoe_of doe + yoe_of doe / 4 - yoe_of doe / 100 ≤ doe
starts doe h = omega arith

pub ends :
    (doe : ℕ)
    → doe < 146097
    → doe
      < 365 * (yoe_of doe + 1)
        + (yoe_of doe + 1) / 4
        - (yoe_of doe + 1) / 100
        + (yoe_of doe + 1) / 400
ends doe h = omega arith

pub few_years : (doe : ℕ) → doe < 146097 → yoe_of doe < 400
few_years doe h = omega arith

-- Only one year holds a day.
pub one_year :
    (doe k : ℕ)
    → doe < 146097
    → k < 400
    → 365 * k + k / 4 - k / 100 ≤ doe
    → doe < 365 * (k + 1) + (k + 1) / 4 - (k + 1) / 100 + (k + 1) / 400
    → yoe_of doe ≡ k
one_year doe k h small low high = omega arith

abbrev pub year : ℤ → ℕ → ℤ
year era k = pos k +ℤ times 400 era

-- Whole eras do not change which years are leap years.
is_leap-year : (era : ℤ) (k : ℕ) → is_leap (year era k) ≡ leap k
is_leap-year (pos n) k = ground arith
is_leap-year (negsuc n) k = ground arith

year-suc : (era : ℤ) (k : ℕ) → year era k +ℤ pos 1 ≡ year era (k + 1)
year-suc (pos n) k = ground arith
year-suc (negsuc n) k = ground arith

pub next_era : (era : ℤ) → year era 400 ≡ year (era +ℤ pos 1) 0
next_era (pos n) = ground arith
next_era (negsuc n) = ground arith

abbrev pub month_of : ℕ → ℕ
month_of mp = if ltb mp 10 then mp + 3 else mp - 9

-- The months of 30 and 31 days, from March to January.
long_month :
    (y : ℤ) (mp : ℕ)
    → mp < 11
    → days_in_month y (month_of mp) ≡ (153 * (mp + 1) + 2) / 5 - (153 * mp + 2) / 5
long_month y mp h = ground arith

abbrev pub first_of : ℕ → ℕ
first_of mp = (153 * mp + 2) / 5

-- The year of a month: January and February are those of the next year.
abbrev pub year_of : ℤ → ℕ → ℕ → ℤ
year_of era k mp = if leb (month_of mp) 2 then year era k +ℤ pos 1 else year era k

mp_in : (mp n : ℕ) → mp < 12 → first_of mp + n < first_of (mp + 1) → mp_of (first_of mp + n) ≡ mp
mp_in mp n h lt = omega arith

-- The day of a year that is day `n` of a month, counted from 0.
pub ymd-at :
    (era : ℤ) (k mp n doy : ℕ)
    → doy ≡ first_of mp + n
    → mp < 12
    → doy < first_of (mp + 1)
    → ymd era k doy ≡ (year_of era k mp, month_of mp, n + 1)
ymd-at era k mp n doy e lt short =
    let m : mp_of doy ≡ mp = ap mp_of e ∙ mp_in mp n lt (omega arith) in
    ap (λ (x : ℕ). (year_of era k x, month_of x, doy - first_of x + 1)) m
    ∙ ap (λ (x : ℕ). (year_of era k mp, month_of mp, x)) (omega arith)

abbrev pub month_length : ℕ → ℕ → ℕ
month_length k mp =
    if mp == 11 then (if leap (k + 1) then 29 else 28) else first_of (mp + 1) - first_of mp

month_days :
    (era : ℤ) (k mp : ℕ)
    → mp < 12
    → days_in_month (year_of era k mp) (month_of mp) ≡ month_length k mp
month_days era k mp lt = elim (mp_cases mp) [
  | inl february ↦ rw february (
      ap (λ (b : Bool). if b then 29 else 28)
        (ap is_leap (year-suc era k) ∙ is_leap-year era (k + 1)))
  | inr other ↦ long_month (year_of era k mp) mp (omega arith) ∙ ground arith
]
  where
    mp_cases : (m : ℕ) → (m ≡ 11) ⊎ (m ≢ 11)
    mp_cases m = ground arith

next_day-inside : (y : ℤ) (m d : ℕ) → d < days_in_month y m → next_day (y, m, d) ≡ (y, m, d + 1)
next_day-inside y m d h = ground arith

next_day-last :
    (y : ℤ) (m d : ℕ) → m < 12 → d ≡ days_in_month y m → next_day (y, m, d) ≡ (y, m + 1, 1)
next_day-last y m d lt h = ground arith

next_day-december : (y : ℤ) (d : ℕ) → d ≡ 31 → next_day (y, 12, d) ≡ (y +ℤ pos 1, 1, 1)
next_day-december y d h = ground arith

-- A day inside a month.
inside :
    (era : ℤ) (k mp n doy : ℕ)
    → doy ≡ first_of mp + n
    → mp < 12
    → doy + 1 < first_of (mp + 1)
    → n + 1 < month_length k mp
    → ymd era k (doy + 1) ≡ next_day (ymd era k doy)
inside era k mp n doy e lt within short =
    ymd-at era k mp (n + 1) (doy + 1) (omega arith) lt within
    ∙ sym (
        next_day-inside (year_of era k mp) (month_of mp) (n + 1)
          (omega (arith, month_days era k mp lt)))
    ∙ ap next_day (sym (ymd-at era k mp n doy e lt (omega arith)))

-- From the last day of a month to the first of the next one.
turn :
    (era : ℤ) (k mp : ℕ)
    → mp < 11
    → (year_of era k (mp + 1), month_of (mp + 1), 1)
      ≡ next_day (year_of era k mp, month_of mp, month_length k mp)
turn era k mp lt = elim (mp_cases mp) [
  | inl december ↦ rw december (sym (next_day-december (year era k) 31 refl))
  | inr other ↦
      let years : year_of era k (mp + 1) ≡ year_of era k mp = ground arith in
      let months : month_of (mp + 1) ≡ month_of mp + 1 = ground arith in
      ap (λ (y : ℤ). (y, month_of (mp + 1), 1)) years
      ∙ ap (λ (m : ℕ). (year_of era k mp, m, 1)) months
      ∙ sym (
          next_day-last (year_of era k mp) (month_of mp) (month_length k mp) (ground arith)
            (sym (month_days era k mp (omega arith))))
]
  where
    mp_cases : (m : ℕ) → (m ≡ 9) ⊎ (m ≢ 9)
    mp_cases m = ground arith

pub february : (k : ℕ) → (28 ≤ month_length k 11) × (month_length k 11 ≤ 29)
february k = ground arith

pub either : (a b : ℕ) → (a ≤ b) ⊎ (b < a)
either a b = ground arith

short_month : (k mp : ℕ) → mp < 11 → month_length k mp ≡ first_of (mp + 1) - first_of mp
short_month k mp lt = ground arith

-- The day after, inside a year that begins in March.
pub in_year :
    (era : ℤ) (k doy : ℕ)
    → doy + 1 < 337 + month_length k 11
    → ymd era k (doy + 1) ≡ next_day (ymd era k doy)
in_year era k doy h =
    let mp = mp_of doy in
    let n = doy - first_of mp in
    let lt : mp < 12 = omega (arith, february k) in
    let from : first_of mp ≤ doy = omega (arith, february k) in
    let to : doy < first_of (mp + 1) = omega (arith, february k) in
    elim (either 11 mp) [
      | inl last ↦
          let february_is : mp ≡ 11 = omega arith in
          inside era k mp n doy (omega arith) lt
            (omega (arith, ap (month_length k) february_is, february k))
            (omega (arith, ap (month_length k) february_is))
      | inr m ↦ elim (either (month_length k mp) (n + 1)) [
        | inr short ↦
            inside era k mp n doy (omega arith) lt (omega (arith, short_month k mp m)) short
        | inl long ↦
            let end : n + 1 ≡ month_length k mp = omega (arith, short_month k mp m) in
            ymd-at era k (mp + 1) 0 (doy + 1) (omega (arith, short_month k mp m)) (omega arith)
              (omega arith)
            ∙ turn era k mp m
            ∙ ap (λ (d : ℕ). next_day (year_of era k mp, month_of mp, d)) (sym end)
            ∙ ap next_day (sym (ymd-at era k mp n doy (omega arith) lt to))
      ]
    ]

pub end_year :
    (era : ℤ) (k doy : ℕ)
    → doy + 1 ≡ 337 + month_length k 11
    → ymd era (k + 1) 0 ≡ next_day (ymd era k doy)
end_year era k doy h =
    ymd-at era (k + 1) 0 0 0 refl (omega arith) (omega arith)
    ∙ ap (λ (y : ℤ). (y, 3, 1)) (sym (year-suc era k))
    ∙ sym (
        next_day-last (year_of era k 11) 2 (month_length k 11) (omega arith)
          (sym (month_days era k 11 (omega arith))))
    ∙ ap (λ (d : ℕ). next_day (year_of era k 11, 2, d)) (omega (arith, february k))
    ∙ ap next_day (
        sym (
          ymd-at era k 11 (doy - 337) doy (omega (arith, february k)) (omega arith)
            (omega (arith, february k))))
