-- ===== src/Tests/Texts.antt =====
-- The theorems on numbers and dates as text, applied.
use ledger_avalanche.Prelude.{
  ◌<◌, ◌+◌, ◌*◌, ◌^◌, ◌≤◌, ◌≡◌, ◌⊎◌, refl, ◌∷◌, ◌++◌, Bytes, length, drop, arith,
}
use ledger_avalanche.Prelude.Int.{pos}
use ledger_avalanche.Errors.{ok, err}
use ledger_avalanche.Parser.Decimal.{
  num_to_str, digits_of, write_digits, write_at, reverse_digits, swap,
}
use ledger_avalanche.Parser.Decimal.Digits.{IsNumeral, num_to_str-IsNumeral}
use ledger_avalanche.Parser.Dates.{
  Date, TimeError, timestamp_to_date, date_of_days, date_in_year, find_year, find_month, leap_day,
  split_unit, wrapping_sub, trunc_div, trunc_rem, as_unsigned,
}
use ledger_avalanche.Parser.Dates.Table.{year_lookup}
use ledger_avalanche.Parser.Dates.Calendar.{IsCivil, seconds, days_before}
use ledger_avalanche.Parser.Dates.Civil.{timestamp_to_date-IsCivil, timestamp_to_date_wraps}
use ledger_avalanche.Prelude.Int.{u64_to_i64, i64_to_u64}
use ledger_avalanche.Tests.Data.{repeat}

-- 1024, in a buffer of 22 zeros.
num_to_str_runs : num_to_str 20 1024 (repeat 22 0) ≡ ok (49 ∷ 48 ∷ 50 ∷ 52 ∷ repeat 18 0, 4)
unfolding num_to_str digits_of write_digits write_at reverse_digits swap
num_to_str_runs = refl

num_to_str-IsNumeral_example :
    (text : Bytes) × IsNumeral 1024 text
    × (num_to_str 20 1024 (repeat 22 0)
        ≡ ok (text ++ drop (length text) (repeat 22 0), length text))
num_to_str-IsNumeral_example =
    num_to_str-IsNumeral 20 1024 (repeat 22 0) (omega arith) (omega arith) (omega arith)

-- 2022-07-06 06:45:45 UTC
timestamp_to_date_runs :
    timestamp_to_date (pos 1657089945)
    ≡ ok (record { day = 6; month = 7; year = 2022; hour = 6; min = 45; sec = 45 })
unfolding timestamp_to_date date_of_days date_in_year find_year find_month leap_day split_unit
    wrapping_sub trunc_div trunc_rem as_unsigned year_lookup u64_to_i64 i64_to_u64
timestamp_to_date_runs = refl

timestamp_to_date-IsCivil_example :
    ((1657089945 < days_before 399 * 86400)
      × ((date : Date) × (timestamp_to_date (pos 1657089945) ≡ ok date)
          × (civil : IsCivil date) × (seconds civil ≡ 1657089945)))
    ⊎ ((days_before 399 * 86400 ≤ 1657089945)
        × (timestamp_to_date (pos 1657089945) ≡ err TimeError.invalid_timestamp))
timestamp_to_date-IsCivil_example = timestamp_to_date-IsCivil 1657089945 (omega arith)

timestamp_to_date_wraps_example :
    timestamp_to_date (pos (86399 + 2 ^ 32 * 86400)) ≡ timestamp_to_date (pos 86399)
timestamp_to_date_wraps_example = timestamp_to_date_wraps 86399 (omega arith)
