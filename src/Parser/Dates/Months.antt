-- ===== src/Parser/Dates/Months.antt =====
-- The search for the month in `timestamp_to_date` of app/src/parser/utils/time.rs.
use ledger_avalanche.Prelude.{
  ℕ, suc, ◌+◌, ◌-◌, ◌%◌, ◌^◌, ◌≤◌, ◌<◌, ◌≡◌, inl, inr, refl, sym, ap, subst, true, false,
  Bool-cases, List, [], ◌∷◌, some, get_elem?, take, All, leb, ◌==◌, if◌then◌else◌, arith,
}
use ledger_avalanche.Parser.Dates.{find_month, leap_day, month_days}
use ledger_avalanche.Parser.Dates.Calendar.{is_leap, days_in_year, february, month_lengths, sum}

extra : ℕ → ℕ → ℕ
extra leap i = if i == 1 then leap else 0

-- The lengths of the months from month `i` on.
adjusted : ℕ → ℕ → List ℕ → List ℕ
unfolding extra
adjusted leap i [] = []
adjusted leap i (days ∷ rest) = (days + extra leap i) ∷ adjusted leap (i + 1) rest

-- The month and the day of the month, for the `day`-th day of the months with these lengths.
pub record MonthFound (lengths : List ℕ) (i day : ℕ) (r : ℕ × ℕ) : Type 0 where
  pub months : ℕ
  pub month_length : ℕ
  pub month_is : r.0 ≡ i + months
  pub found : get_elem? lengths months ≡ some month_length
  pub day_pos : 0 < r.1
  pub day_fits : r.1 ≤ month_length
  pub counted : sum (take months lengths) + r.1 ≡ day

find_month_stop :
    (leap days : ℕ) (rest : List ℕ) (i mon day : ℕ)
    → days + extra leap i < 256
    → day ≤ days + extra leap i
    → find_month leap (days ∷ rest) i mon day ≡ (i, day)
unfolding find_month extra
find_month_stop leap days rest i mon day small h = rw (here (days + extra leap i) day small h)
  where
    here : (x day : ℕ) → x < 256 → day ≤ x → leb day (x % 256) ≡ true
    here x day small h = ground arith

find_month_step :
    (leap days : ℕ) (rest : List ℕ) (i mon day : ℕ)
    → days + extra leap i < 256
    → days + extra leap i < day
    → day < 2 ^ 16
    → find_month leap (days ∷ rest) i mon day
      ≡ find_month leap rest (i + 1) i (day - (days + extra leap i))
unfolding find_month extra
find_month_step leap days rest i mon day small h wide =
    rw (past (days + extra leap i) day small h)
      (ap (find_month leap rest (i + 1) i) (less (days + extra leap i) day small h wide))
  where
    past : (x day : ℕ) → x < 256 → x < day → leb day (x % 256) ≡ false
    past x day small h = ground arith

    less :
        (x day : ℕ) → x < 256 → x < day → day < 2 ^ 16 → (day + 2 ^ 16 - x % 256) % 2 ^ 16 ≡ day - x
    less x day small h wide = omega arith

find_month-MonthFound :
    (leap : ℕ) (lengths : List ℕ) (i mon day : ℕ)
    → leap ≤ 1
    → All (λ d. d < 200) lengths
    → 0 < day
    → day < 2 ^ 16
    → day ≤ sum (adjusted leap i lengths)
    → MonthFound (adjusted leap i lengths) i day (find_month leap lengths i mon day)
unfolding adjusted
find_month-MonthFound leap [] i mon day one short pos wide h = absurd (omega (arith, pos, h))
find_month-MonthFound leap (days ∷ rest) i mon day one short pos wide h =
    elim (Bool-cases (leb day x)) [
      | inl here ↦
          subst (MonthFound (x ∷ adjusted leap (i + 1) rest) i day)
            (sym (find_month_stop leap days rest i mon day small (ground arith)))
            (record {
              months = 0;
              month_length = x;
              month_is = omega arith;
              found = refl;
              day_pos = pos;
              day_fits = ground arith;
              counted = omega arith;
            })
      | inr past ↦
          subst (MonthFound (x ∷ adjusted leap (i + 1) rest) i day)
            (sym (find_month_step leap days rest i mon day small (ground arith) wide))
            (later (ground arith) (
              find_month-MonthFound leap rest (i + 1) i (day - x) one short.1 (ground arith)
                (omega (arith, wide)) (omega (arith, h))))
    ]
  where
    x : ℕ
    x = days + extra leap i

    small_extra : extra leap i ≤ 1
    small_extra = ground arith

    small : x < 256
    small = omega (arith, small_extra, short.0)

    later :
        {r : ℕ × ℕ}
        → x < day
        → MonthFound (adjusted leap (i + 1) rest) (i + 1) (day - x) r
        → MonthFound (x ∷ adjusted leap (i + 1) rest) i day r
    later past m = record {
      months = suc m.months;
      month_length = m.month_length;
      month_is = omega (arith, m.month_is);
      found = m.found;
      day_pos = m.day_pos;
      day_fits = m.day_fits;
      counted = omega (arith, m.counted, past);
    }

leap_day-is_leap :
    (y : ℕ)
    → (leap_day y ≤ 1) × (february y ≡ 28 + leap_day y) × (days_in_year y ≡ 365 + leap_day y)
unfolding leap_day is_leap days_in_year
leap_day-is_leap y = (ground arith, ground arith, ground arith)

lengths-eq : (y : ℕ) → adjusted (leap_day y) 0 month_days ≡ month_lengths y
unfolding adjusted extra
lengths-eq y =
    ap (λ f. 31 ∷ f ∷ 31 ∷ 30 ∷ 31 ∷ 30 ∷ 31 ∷ 31 ∷ 30 ∷ 31 ∷ 30 ∷ 31 ∷ [])
      (sym (leap_day-is_leap y).1)

sum-month_lengths : (y : ℕ) → sum (month_lengths y) ≡ days_in_year y
sum-month_lengths y = omega (arith, leap_day-is_leap y)

-- Every day of a year is found in its month.
pub month_found :
    (y day : ℕ)
    → 0 < day
    → day ≤ days_in_year y
    → MonthFound (month_lengths y) 0 day (find_month (leap_day y) month_days 0 0 day)
month_found y day pos h =
    let (one, _, length) = leap_day-is_leap y in
    subst (λ ls. MonthFound ls 0 day (find_month (leap_day y) month_days 0 0 day)) (lengths-eq y)
      (find_month-MonthFound (leap_day y) month_days 0 0 day one short pos
        (omega (arith, h, length, one))
        (omega (arith, h, ap sum (lengths-eq y), sum-month_lengths y)))
  where
    short : All (λ d. d < 200) month_days
    short = omega arith
