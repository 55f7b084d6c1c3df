-- ===== src/Parser/Dates.antt =====
-- `timestamp_to_date` of app/src/parser/utils/time.rs: a Unix time as a date and a time of day.
pub mod Table
pub mod Loops
pub mod Months
pub mod Calendar
pub mod Civil
use ledger_avalanche.Prelude.{
  ℕ, zero, suc, ◌+◌, ◌-◌, ◌/◌, ◌%◌, ◌^◌, Bool, true, false, ◌&&◌, ◌||◌, not, Option, List, [], ◌∷◌,
  get_elem?, leb, ◌==◌, if◌then◌else◌,
}
use ledger_avalanche.Prelude.Int.{ℤ, pos, negsuc, u64_to_i64, i64_to_u64}
use ledger_avalanche.Errors.{Result, ok, err, panic, ◌>>=◌, apdu_unwrap}
use ledger_avalanche.Parser.Dates.Table.{year_lookup}

pub data TimeError : Type 0 where
  invalid_timestamp buffer_too_small : TimeError

pub record Date : Type 0 where
  pub day : ℕ
  pub month : ℕ
  pub year : ℕ
  pub hour : ℕ
  pub min : ℕ
  pub sec : ℕ

abbrev pub month_days : List ℕ
month_days = 31 ∷ 28 ∷ 31 ∷ 30 ∷ 31 ∷ 30 ∷ 31 ∷ 31 ∷ 30 ∷ 31 ∷ 30 ∷ 31 ∷ []

abbrev opposite : ℕ → ℤ
opposite zero = pos 0
opposite (suc n) = negsuc n

-- `t % k` and `t / k` round towards zero.
unfoldable pub trunc_rem : ℤ → ℕ → ℤ
trunc_rem (pos n) k = pos (n % k)
trunc_rem (negsuc n) k = opposite (suc n % k)

unfoldable pub trunc_div : ℤ → ℕ → ℤ
trunc_div (pos n) k = pos (n / k)
trunc_div (negsuc n) k = opposite (suc n / k)

-- `t as u8` and `t as u32`, with the number of values of the type.
unfoldable pub as_unsigned : ℕ → ℤ → ℕ
as_unsigned values (pos n) = n % values
as_unsigned values (negsuc n) = values - 1 - n % values

-- `t -= r as i64`, which wraps around.
unfoldable pub wrapping_sub : ℤ → ℕ → ℤ
wrapping_sub t r = u64_to_i64 ((i64_to_u64 t + 2 ^ 64 - r) % 2 ^ 64)

-- The remainder as a `u8`, and what is left of the time.
unfoldable pub split_unit : ℕ → ℤ → ℕ × ℤ
split_unit k t = let r = as_unsigned 256 (trunc_rem t k) in (r, trunc_div (wrapping_sub t r) k)

-- `while tm_year < year_lookup.len() && year_lookup[tm_year] <= t as _`, on the rest of the table.
unfoldable pub find_year : List ℕ → ℕ → ℕ → ℕ
find_year [] tm_year days = tm_year
find_year (start ∷ starts) tm_year days =
    let later = find_year starts (tm_year + 1) days in if leb start days then later else tm_year

unfoldable pub leap_day : ℕ → ℕ
leap_day year = if (year % 4 == 0) && (not (year % 100 == 0) || (year % 400 == 0)) then 1 else 0

-- `for i in 0..12`, on the rest of `month_days`: the last `tm_mon` and `tm_day`.
unfoldable pub find_month : ℕ → List ℕ → ℕ → ℕ → ℕ → ℕ × ℕ
find_month leap [] i tm_mon tm_day = (tm_mon, tm_day)
find_month leap (days ∷ rest) i tm_mon tm_day =
    let tmp = (days + (if i == 1 then leap else 0)) % 256 in
    let later = find_month leap rest (i + 1) i ((tm_day + 2 ^ 16 - tmp) % 2 ^ 16) in
    if leb tm_day tmp then (i, tm_day) else later

-- The day `days`, in the year at `tm_year` in the table, which starts at day `start`.
unfoldable pub date_in_year : ℕ → ℕ → ℕ → ℕ → ℕ → ℕ → Date
date_in_year tm_year start days hour min sec =
    let tm_day = (days + 2 ^ 32 - start + 1) % 2 ^ 32 % 2 ^ 16 in
    let (tm_mon, tm_mday) = find_month (leap_day (tm_year + 1970)) month_days 0 0 tm_day in
    record {
      day = tm_mday % 256;
      month = (tm_mon + 1) % 256;
      year = (tm_year + 1970) % 2 ^ 32;
      hour = hour;
      min = min;
      sec = sec;
    }

-- From the days since 1970, as a `u32`, and the time of day.
unfoldable pub date_of_days : ℕ → ℕ → ℕ → ℕ → Result TimeError Date
date_of_days days hour min sec =
    let tm_year = find_year year_lookup 0 days in
    if (tm_year == 0) || (tm_year == 400)
    then err invalid_timestamp
    else (apdu_unwrap (get_elem? year_lookup (tm_year - 1)) >>= λ start.
        ok (date_in_year (tm_year - 1) start days hour min sec))

unfoldable pub timestamp_to_date : ℤ → Result TimeError Date
timestamp_to_date timestamp =
    let (sec, minutes) = split_unit 60 timestamp in
    let (min, hours) = split_unit 60 minutes in
    let (hour, days) = split_unit 24 hours in date_of_days (as_unsigned (2 ^ 32) days) hour min sec
