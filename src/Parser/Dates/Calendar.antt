-- ===== src/Parser/Dates/Calendar.antt =====
-- The Gregorian calendar from 1970 on, by counting: what app/src/parser/utils/time.rs is held against.
use ledger_avalanche.Prelude.{
  ℕ, zero, suc, ◌+◌, ◌-◌, ◌*◌, ◌%◌, ◌≤◌, ◌<◌, ◌≡◌, Bool, true, false, List, [], ◌∷◌, some,
  get_elem?, take, ◌==◌, if◌then◌else◌,
}
use ledger_avalanche.Parser.Dates.{Date}

unfoldable pub is_leap : ℕ → Bool
is_leap y = if y % 400 == 0 then true else if y % 100 == 0 then false else y % 4 == 0

unfoldable pub days_in_year : ℕ → ℕ
unfolding is_leap
days_in_year y = if is_leap y then 366 else 365

abbrev pub february : ℕ → ℕ
february y = if is_leap y then 29 else 28

abbrev pub month_lengths : ℕ → List ℕ
month_lengths y = 31 ∷ february y ∷ 31 ∷ 30 ∷ 31 ∷ 30 ∷ 31 ∷ 31 ∷ 30 ∷ 31 ∷ 30 ∷ 31 ∷ []

abbrev pub sum : List ℕ → ℕ
sum [] = 0
sum (x ∷ xs) = x + sum xs

-- The days from 1970 to the start of the year that is `k` years later.
unfoldable pub days_before : ℕ → ℕ
days_before zero = 0
days_before (suc k) = days_before k + days_in_year (1970 + k)

-- The date is in the calendar, with its time of day.
pub record IsCivil (date : Date) : Type 0 where
  -- Counted from 1970 and from January.
  pub years : ℕ
  pub months : ℕ
  pub month_length : ℕ
  pub year_is : date.year ≡ 1970 + years
  pub month_is : date.month ≡ months + 1
  pub month_found : get_elem? (month_lengths date.year) months ≡ some month_length
  pub day_pos : 0 < date.day
  pub day_fits : date.day ≤ month_length
  pub hour_fits : date.hour < 24
  pub min_fits : date.min < 60
  pub sec_fits : date.sec < 60

-- The seconds from 1970 to a date of the calendar: whole years, whole months, whole days, and the time.
unfoldable pub seconds : {date : Date} → IsCivil date → ℕ
seconds {date} civil =
    (days_before civil.years + sum (take civil.months (month_lengths date.year)) + (date.day - 1))
      * 86400
    + date.hour * 3600
    + date.min * 60
    + date.sec
