-- ===== src/Listing/Dates.antt =====
-- src/list.rs, `days_to_ymd` and `format_timestamp`: the calendar date of a day number.
pub mod Calendar
pub mod Eras
use cryo.Base.{
  ℕ, suc, ◌+◌, ◌-◌, ◌*◌, ◌/◌, ◌%◌, Bool, true, false, not, ◌&&◌, ◌||◌, ltb, leb, ◌==◌,
  if◌then◌else◌,
}
use cryo.Base.Int.{ℤ, pos, negsuc, pos_part, neg_part, leb_ℤ, ◌+ℤ◌, ◌-ℤ◌, times, quot}

-- The eras are 400 years from the first of March; `doe` is the day of the era and never negative.
abbrev pub era_of : ℤ → ℤ
era_of z = quot (if leb_ℤ (pos 0) z then z else z -ℤ pos 146096) 146097

abbrev pub doe_of : ℤ → ℕ
doe_of z = pos_part (z -ℤ times 146097 (era_of z))

abbrev pub yoe_of : ℕ → ℕ
yoe_of doe = (doe - doe / 1460 + doe / 36524 - doe / 146096) / 365

abbrev pub doy_of : ℕ → ℕ → ℕ
doy_of doe yoe = doe - (365 * yoe + yoe / 4 - yoe / 100)

abbrev pub mp_of : ℕ → ℕ
mp_of doy = (5 * doy + 2) / 153

-- Year, month and day from the day of the year, in the year `yoe` of the era.
abbrev pub ymd : ℤ → ℕ → ℕ → ℤ × ℕ × ℕ
ymd era yoe doy =
    let y = pos yoe +ℤ times 400 era in
    let mp = mp_of doy in
    let d = doy - (153 * mp + 2) / 5 + 1 in
    let mo = if ltb mp 10 then mp + 3 else mp - 9 in (if leb mo 2 then y +ℤ pos 1 else y, mo, d)

unfoldable pub days_to_ymd : ℤ → ℤ × ℕ × ℕ
days_to_ymd days =
    let z = days +ℤ pos 719468 in
    let doe = doe_of z in let yoe = yoe_of doe in ymd (era_of z) yoe (doy_of doe yoe)
