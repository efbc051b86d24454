-- ===== src/Listing/Timestamp.antt =====
-- src/list.rs, `format_timestamp`: seconds since 1970 as a date and a time of day.
use mathlib.Core.Path.{subst}
use cryo.Base.{
  ℕ, ◌+◌, ◌-◌, ◌*◌, ◌/◌, ◌%◌, ◌^◌, ◌<◌, ◌≡◌, sym, ap, ◌∙◌, ◌∷◌, ◌++◌, ltb, if◌then◌else◌, arith,
}
use cryo.Base.Int.{ℤ, pos, negsuc, pos_part, leb_ℤ, ◌+ℤ◌, ◌-ℤ◌, times, quot}
use cryo.Base.Text.{Text, padded}
use cryo.Listing.Dates.{days_to_ymd}

-- `secs as i64`
abbrev pub as_i64 : ℕ → ℤ
as_i64 secs = if ltb secs (2 ^ 63) then pos secs else negsuc (2 ^ 64 - 1 - secs)

-- `s.rem_euclid(k)`, which is never negative.
abbrev rem_euclid : ℤ → ℕ → ℕ
rem_euclid s k =
    let r = s -ℤ times k (quot s k) in if leb_ℤ (pos 0) r then pos_part r else pos_part (r +ℤ pos k)

-- `s - time` of an i64, which wraps around in a release build.
abbrev sub_i64 : ℤ → ℕ → ℤ
sub_i64 s time =
    let d = s -ℤ pos time in if leb_ℤ (negsuc (2 ^ 63 - 1)) d then d else d +ℤ pos (2 ^ 64)

-- Day, hour, minute and second.
unfoldable pub split_time : ℤ → ℤ × ℕ × ℕ × ℕ
split_time s =
    let time = rem_euclid s 86400 in
    let days = quot (sub_i64 s time) 86400 in (days, time / 3600, time % 3600 / 60, time % 60)

-- `{:04}-{:02}-{:02} {:02}:{:02}:{:02}`
unfoldable pub format_timestamp : ℕ → Text
unfolding split_time
format_timestamp secs =
    let (days, h, m, sec) = split_time (as_i64 secs) in
    let (y, mo, d) = days_to_ymd days in
    padded 4 y
    ++ (b'-'
        ∷ (padded 2 (pos mo)
            ++ (b'-'
                ∷ (padded 2 (pos d)
                    ++ (b' '
                        ∷ (padded 2 (pos h)
                            ++ (b':' ∷ (padded 2 (pos m) ++ (b':' ∷ padded 2 (pos sec))))))))))

-- A time of day, and the second that it is.
abbrev pub second_of : ℤ × ℕ × ℕ × ℕ → ℤ
second_of (days, h, m, sec) = times 86400 days +ℤ pos (h * 3600 + m * 60 + sec)

abbrev pub IsTime : ℤ × ℕ × ℕ × ℕ → Type 0
IsTime (days, h, m, sec) = (h < 24) × (m < 60) × (sec < 60)

time_of-pos : (n : ℕ) → rem_euclid (pos n) 86400 ≡ n % 86400
time_of-pos n = ground arith

time_of-negsuc : (n : ℕ) → rem_euclid (negsuc n) 86400 ≡ 86399 - n % 86400
time_of-negsuc n = ground arith

-- The times for which `s - time` is an i64 again: all from the beginning of a day on.
abbrev pub HasDay : ℤ → Type 0
HasDay (pos n) = n < 2 ^ 63
HasDay (negsuc n) = n < 2 ^ 63 - 2 ^ 63 % 86400

days_of-pos : (n : ℕ) → quot (sub_i64 (pos n) (n % 86400)) 86400 ≡ pos (n / 86400)
days_of-pos n = ground arith

days_of-negsuc :
    (n : ℕ)
    → HasDay (negsuc n)
    → quot (sub_i64 (negsuc n) (86399 - n % 86400)) 86400 ≡ negsuc (n / 86400)
days_of-negsuc n h = ground arith

-- A day and a second of the day, split further.
abbrev clock : ℤ → ℕ → ℤ × ℕ × ℕ × ℕ
clock days time = (days, time / 3600, time % 3600 / 60, time % 60)

split_time-clock :
    (s days : ℤ) (time : ℕ)
    → rem_euclid s 86400 ≡ time
    → quot (sub_i64 s time) 86400 ≡ days
    → split_time s ≡ clock days time
unfolding split_time
split_time-clock s days time e d =
    ap (λ (t : ℕ). clock (quot (sub_i64 s t) 86400) t) e ∙ ap (λ (x : ℤ). clock x time) d

clock-IsTime :
    (s days : ℤ) (time : ℕ)
    → time < 86400
    → times 86400 days +ℤ pos time ≡ s
    → (second_of (clock days time) ≡ s) × IsTime (clock days time)
clock-IsTime s days time lt e =
    (ap (λ (t : ℕ). times 86400 days +ℤ pos t) (omega arith) ∙ e, omega arith)

-- A timestamp that is an i64 and does not lie on the lowest, broken day of these is split into the
-- day and the time of day that are exactly that second, also before 1970, and hours, minutes and
-- seconds are in their ranges.
pub second_of-split_time :
    (s : ℤ) → HasDay s → (second_of (split_time s) ≡ s) × IsTime (split_time s)
second_of-split_time (pos n) h =
    subst (λ (t : ℤ × ℕ × ℕ × ℕ). (second_of t ≡ pos n) × IsTime t)
      (sym (split_time-clock (pos n) (pos (n / 86400)) (n % 86400) (time_of-pos n) (days_of-pos n)))
      (clock-IsTime (pos n) (pos (n / 86400)) (n % 86400) (omega arith) (ground arith))
second_of-split_time (negsuc n) h =
    subst (λ (t : ℤ × ℕ × ℕ × ℕ). (second_of t ≡ negsuc n) × IsTime t)
      (sym (
        split_time-clock (negsuc n) (negsuc (n / 86400)) (86399 - n % 86400) (time_of-negsuc n)
          (days_of-negsuc n h)))
      (clock-IsTime (negsuc n) (negsuc (n / 86400)) (86399 - n % 86400) (omega arith)
        (ground arith))
