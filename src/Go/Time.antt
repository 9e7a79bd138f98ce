-- ===== src/Go/Time.antt =====
-- Instants of package time and their dates. An instant is the number of nanoseconds since the zero
-- time, 0001-01-01 00:00:00 UTC; every instant of the program is in UTC.
use kenshu_elaris_project_pa.Base.{
  ℕ, suc, ◌+◌, ◌-◌, ◌*◌, ◌/◌, ◌%◌, Bool, true, false, ◌&&◌, ◌||◌, not, List, [], ◌∷◌, ◌++◌, ltb,
  leb, ◌==◌, if◌then◌else◌,
}
use kenshu_elaris_project_pa.Base.Int.{ℤ, pos, negsuc, ltb_ℤ, leb_ℤ}
use kenshu_elaris_project_pa.Go.Text.{GoString, show_nat}

abbrev pub Time : Type 0
Time = ℤ

-- Time.After
unfoldable pub after : Time → Time → Bool
after a b = ltb_ℤ b a

-- Time.Equal
unfoldable pub equal : Time → Time → Bool
equal a b = leb_ℤ a b && leb_ℤ b a

abbrev day_nanos : ℕ
day_nanos = 86400 * 1000000000

-- The days in 400 years of the Gregorian calendar.
abbrev era_days : ℕ
era_days = 146097

is_leap : ℕ → Bool
is_leap y = y % 4 == 0 && (not (y % 100 == 0) || y % 400 == 0)

-- The month and the day of the month, both from 1, of a day of the year, from 0.
month_from : List ℕ → ℕ → ℕ → ℕ × ℕ
month_from [] month day = (month, suc day)
month_from (len ∷ lens) month day =
    let later = month_from lens (suc month) (day - len) in
    if ltb day len then (month, suc day) else later

month_lengths : Bool → List ℕ
month_lengths leap =
    31 ∷ (if leap then 29 else 28) ∷ 31 ∷ 30 ∷ 31 ∷ 30 ∷ 31 ∷ 31 ∷ 30 ∷ 31 ∷ 30 ∷ 31 ∷ []

min3 : ℕ → ℕ
min3 n = if ltb n 3 then n else 3

-- The years passed in an era, and the day of the year.
year_in_era : ℕ → ℕ × ℕ
unfolding min3
year_in_era d =
    let c = min3 (d / 36524) in
    let d1 = d - 36524 * c in
    let q = d1 / 1461 in
    let d2 = d1 - 1461 * q in let y = min3 (d2 / 365) in (100 * c + 4 * q + y, d2 - 365 * y)

two_digits : ℕ → GoString
two_digits n = (b'0' + n / 10) ∷ (b'0' + n % 10) ∷ []

four_digits : ℕ → GoString
unfolding two_digits
four_digits n = if ltb n 10000 then two_digits (n / 100) ++ two_digits (n % 100) else show_nat n

-- The year, `eras` full eras from year 1 on, or before it.
year_text : Bool → ℕ → ℕ → GoString
unfolding four_digits
year_text false eras y = four_digits (400 * eras + y + 1)
year_text true eras y =
    if leb (400 * eras) (y + 1)
    then four_digits (y + 1 - 400 * eras)
    else b'-' ∷ four_digits (400 * eras - (y + 1))

date_text : Bool → ℕ → ℕ → GoString
unfolding year_in_era month_from month_lengths is_leap two_digits year_text
date_text before eras d =
    let (y, yday) = year_in_era d in
    let (month, day) = month_from (month_lengths (is_leap (y + 1))) 1 yday in
    year_text before eras y ++ (two_digits month ++ two_digits day)

-- now.UTC().Format("20060102")
unfoldable pub format_date : Time → GoString
unfolding date_text
format_date (pos n) =
    let days = n / day_nanos in date_text false (days / era_days) (days % era_days)
format_date (negsuc n) =
    let back = n / day_nanos in
    date_text true (suc (back / era_days)) (era_days - 1 - back % era_days)
