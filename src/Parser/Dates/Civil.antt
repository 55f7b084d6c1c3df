-- ===== src/Parser/Dates/Civil.antt =====
-- `timestamp_to_date` of app/src/parser/utils/time.rs against the calendar.
use ledger_avalanche.Prelude.{
  ℕ, zero, suc, ◌+◌, ◌-◌, ◌*◌, ◌/◌, ◌%◌, ◌^◌, ◌≤◌, ◌<◌, ◌≡◌, ◌⊎◌, inl, inr, refl, sym, ap, ap₂,
  subst, ◌∙◌, true, false, Bool-cases, ◌||◌, List, [], ◌∷◌, some, get_elem?, ltb, ◌==◌, All, length,
  arith,
}
use ledger_avalanche.Prelude.Int.{pos, u64_to_i64, i64_to_u64}
use ledger_avalanche.Errors.{ok, err}
use ledger_avalanche.Parser.Dates.{
  Date, invalid_timestamp, trunc_rem, trunc_div, as_unsigned, wrapping_sub, split_unit, find_year,
  find_month, leap_day, month_days, date_in_year, date_of_days, timestamp_to_date,
}
use ledger_avalanche.Parser.Dates.Table.{year_lookup}
use ledger_avalanche.Parser.Dates.Calendar.{
  february, month_lengths, days_in_year, days_before, IsCivil, seconds,
}
use ledger_avalanche.Parser.Dates.Loops.{YearFound, year_found, get_elem?-year_lookup}
use ledger_avalanche.Parser.Dates.Months.{MonthFound, month_found}
use native.Mathlib.Nat.{mod-eq_of_lt}

wrapping_sub_pos : (n r : ℕ) → n < 2 ^ 63 → r ≤ n → wrapping_sub (pos n) r ≡ pos (n - r)
unfolding wrapping_sub u64_to_i64 i64_to_u64
wrapping_sub_pos n r small h = ground arith

split_lem :
    (k n : ℕ)
    → n < 2 ^ 63
    → n % k < 256
    → n % k ≤ n
    → split_unit k (pos n) ≡ (n % k, pos ((n - n % k) / k))
unfolding split_unit trunc_rem trunc_div as_unsigned
split_lem k n small byte h =
    ap (λ r. (r, trunc_div (wrapping_sub (pos n) r) k)) (mod-eq_of_lt byte)
    ∙ ap (λ t. (n % k, trunc_div t k)) (wrapping_sub_pos n (n % k) small h)

split_60 : (n : ℕ) → n < 2 ^ 63 → split_unit 60 (pos n) ≡ (n % 60, pos (n / 60))
split_60 n small =
    split_lem 60 n small (omega arith) (omega arith) ∙ ap (λ m. (n % 60, pos m)) (omega arith)

split_24 : (n : ℕ) → n < 2 ^ 63 → split_unit 24 (pos n) ≡ (n % 24, pos (n / 24))
split_24 n small =
    split_lem 24 n small (omega arith) (omega arith) ∙ ap (λ m. (n % 24, pos m)) (omega arith)

same_units :
    {d d' h h' m m' s s' : ℕ}
    → d ≡ d'
    → h ≡ h'
    → m ≡ m'
    → s ≡ s'
    → date_of_days d h m s ≡ date_of_days d' h' m' s'
same_units p q r t = cc

-- The units of a time that is not negative.
timestamp_lem :
    (n : ℕ)
    → n < 2 ^ 63
    → timestamp_to_date (pos n)
      ≡ date_of_days (n / 86400 % 2 ^ 32) (n / 3600 % 24) (n / 60 % 60) (n % 60)
unfolding timestamp_to_date as_unsigned
timestamp_lem n small =
    rw
      (
        timestamp_to_date,
        split_60 n small,
        split_60 (n / 60) (omega (arith, small)),
        split_24 (n / 60 / 60) (omega (arith, small)),
      )
      (same_units (omega arith) (omega arith) (omega arith) (omega arith))

-- For times that are not negative, the code takes the number of days modulo 2^32: a time 2^32 days later
-- gives the same result.
pub timestamp_to_date_wraps :
    (n : ℕ)
    → n + 2 ^ 32 * 86400 < 2 ^ 63
    → timestamp_to_date (pos (n + 2 ^ 32 * 86400)) ≡ timestamp_to_date (pos n)
timestamp_to_date_wraps n small =
    timestamp_lem (n + 2 ^ 32 * 86400) small
    ∙ same_units (omega arith) (omega arith) (omega arith) (omega arith)
    ∙ sym (timestamp_lem n (omega (arith, small)))

module _ (k days hour min sec : ℕ) where
  -- A day of the year that starts `k` years after 1970.
  in_year :
      find_year year_lookup 0 days ≡ k + 1
      → k < 399
      → date_of_days days hour min sec ≡ ok (date_in_year k (days_before k) days hour min sec)
  unfolding date_of_days
  in_year e h = rw (date_of_days, e, found h, index, get_elem?-year_lookup k (omega (arith, h)))
    where
      found : k < 399 → ((k + 1 == 0) || (k + 1 == 400)) ≡ false
      found h = ground arith

      index : k + 1 - 1 ≡ k
      index = omega arith

  past_table :
      find_year year_lookup 0 days ≡ k + 1
      → k ≡ 399
      → date_of_days days hour min sec ≡ err invalid_timestamp
  unfolding date_of_days
  past_table e h = rw (date_of_days, e, last h)
    where
      last : k ≡ 399 → ((k + 1 == 0) || (k + 1 == 400)) ≡ true
      last h = ground arith

get_elem?-All :
    (P : ℕ → Type 0) {x : ℕ} (xs : List ℕ) (i : ℕ)
    → All P xs
    → get_elem? xs i ≡ some x
    → P x × (i < length xs)
get_elem?-All P [] i h e = cc
get_elem?-All P (y ∷ ys) zero h e = (subst P (some_inj e) h.0, omega arith)
  where
    some_inj : {x y : ℕ} → some y ≡ some x → y ≡ x
    some_inj e = cc
get_elem?-All P (y ∷ ys) (suc i) h e =
    let (p, q) = get_elem?-All P ys i h.1 e in (p, omega (arith, q))

month_lengths-le : (y : ℕ) → All (λ d. d ≤ 31) (month_lengths y)
month_lengths-le y = omega (arith, february_le y)
  where
    february_le : (y : ℕ) → february y ≤ 31
    february_le y = ground arith

year_le : (y : ℕ) → days_in_year y ≤ 366
unfolding days_in_year
year_le y = ground arith

module _ (k hour min sec : ℕ) where
  -- The day of the year's start and the place that `find_month` gives, as a date.
  abbrev placed : ℕ × ℕ → Date
  placed r = record {
    day = r.1;
    month = r.0 + 1;
    year = 1970 + k;
    hour = hour;
    min = min;
    sec = sec;
  }

  abbrev narrowed : ℕ × ℕ → Date
  narrowed r = record {
    day = r.1 % 256;
    month = (r.0 + 1) % 256;
    year = (k + 1970) % 2 ^ 32;
    hour = hour;
    min = min;
    sec = sec;
  }

  fits_bytes : (r : ℕ × ℕ) → k < 400 → r.0 < 12 → r.1 ≤ 31 → narrowed r ≡ placed r
  fits_bytes r h m d = ground arith

  module _ (days : ℕ) (below : k < 400) (started : days_before k ≤ days)
      (ended : days < days_before (suc k)) (wide : days < 2 ^ 32) where
    abbrev tm_day : ℕ
    tm_day = days - days_before k + 1

    place : ℕ × ℕ
    place = find_month (leap_day (1970 + k)) month_days 0 0 tm_day

    month : MonthFound (month_lengths (1970 + k)) 0 tm_day place
    unfolding days_before place
    month = month_found (1970 + k) tm_day (omega arith) (omega (arith, started, ended))

    in_month : (month.month_length ≤ 31) × (month.months < 12)
    in_month =
        get_elem?-All (λ d. d ≤ 31) (month_lengths (1970 + k)) month.months
          (month_lengths-le (1970 + k)) month.found

    date_in_year-placed : date_in_year k (days_before k) days hour min sec ≡ placed place
    unfolding date_in_year place days_before
    date_in_year-placed =
        ap₂ (λ y d. narrowed (find_month (leap_day y) month_days 0 0 d)) (omega arith)
          (omega (arith, year_le (1970 + k), started, ended, wide))
        ∙ fits_bytes place below (omega (arith, month.month_is, in_month.1))
            (omega (arith, month.day_fits, in_month.0))

    placed-IsCivil :
        hour < 24
        → min < 60
        → sec < 60
        → (civil : IsCivil (placed place)) × (seconds civil
            ≡ days * 86400 + hour * 3600 + min * 60 + sec)
    unfolding seconds
    placed-IsCivil h m s = (
      record {
        years = k;
        months = month.months;
        month_length = month.month_length;
        year_is = refl;
        month_is = omega (arith, month.month_is);
        month_found = month.found;
        day_pos = month.day_pos;
        day_fits = month.day_fits;
        hour_fits = h;
        min_fits = m;
        sec_fits = s;
      },
      omega (arith, month.counted, month.day_pos, started),
    )

days_before_mono : (k m : ℕ) → k ≤ m → days_before k ≤ days_before m
unfolding days_before
days_before_mono k zero h = subst (λ x. days_before x ≤ 0) (sym k_zero) (omega arith)
  where
    k_zero : k ≡ 0
    k_zero = omega (arith, h)
days_before_mono k (suc m) h =
    let earlier : k ≤ m → days_before k ≤ days_before m = days_before_mono k m in
    elim (Bool-cases (ltb m k)) [
      | inl last ↦
          subst (λ x. days_before x ≤ days_before m + days_in_year (1970 + m)) (sym (at_end last))
            (omega arith)
      | inr before ↦ omega (arith, earlier (not_yet before))
    ]
  where
    at_end : ltb m k ≡ true → k ≡ suc m
    at_end last = ground (arith, h)

    not_yet : ltb m k ≡ false → k ≤ m
    not_yet before = ground arith

-- A time that is not negative and lies before the day 2^32 is one of two. It lies before the year 2369,
-- and the code gives the date of the Gregorian calendar and the time of day that lie that many seconds
-- after 1970. Or it does not lie before the year 2369, and the code gives an invalid timestamp.
pub timestamp_to_date-IsCivil :
    (n : ℕ)
    → n < 2 ^ 32 * 86400
    → ((n < days_before 399 * 86400)
        × ((date : Date) × (timestamp_to_date (pos n) ≡ ok date)
            × (civil : IsCivil date) × (seconds civil ≡ n)))
      ⊎ ((days_before 399 * 86400 ≤ n) × (timestamp_to_date (pos n) ≡ err invalid_timestamp))
timestamp_to_date-IsCivil n small = elim (Bool-cases (ltb y.years 399)) [
  | inl inside ↦ inl (early (test_true inside), a_date (test_true inside))
  | inr outside ↦ inr (past (omega (arith, y.in_table, test_false outside)))
]
  where
    days : ℕ
    days = n / 86400 % 2 ^ 32

    y : YearFound 400 0 days (find_year year_lookup 0 days)
    y = year_found days

    test_true : {k : ℕ} → ltb k 399 ≡ true → k < 399
    test_true h = ground arith

    test_false : {k : ℕ} → ltb k 399 ≡ false → 399 ≤ k
    test_false h = ground arith

    before_end : y.years < 399 → days < days_before (suc y.years)
    before_end inside = elim y.ended [
      | inl last ↦ absurd (omega (arith, last, inside))
      | inr before ↦ before
    ]

    early : y.years < 399 → n < days_before 399 * 86400
    early inside =
        sooner (before_end inside) (days_before_mono (suc y.years) 399 (omega (arith, inside)))
      where
        sooner : {d e : ℕ} → n / 86400 % 2 ^ 32 < d → d ≤ e → n < e * 86400
        sooner h k = omega (arith, h, k, small)

    a_date :
        y.years < 399
        → (date : Date) × (timestamp_to_date (pos n) ≡ ok date)
          × (civil : IsCivil date) × (seconds civil ≡ n)
    a_date inside =
        let below : y.years < 400 = omega (arith, inside) in
        let wide : days < 2 ^ 32 = omega arith in
        let (civil, counted) =
          placed-IsCivil y.years (n / 3600 % 24) (n / 60 % 60) (n % 60) days below y.started
            (before_end inside) wide (omega arith) (omega arith) (omega arith) in
        (
          placed y.years (n / 3600 % 24) (n / 60 % 60) (n % 60) (
              place y.years (n / 3600 % 24) (n / 60 % 60) (n % 60) days below y.started
                (before_end inside) wide),
          timestamp_lem n (omega (arith, small))
              ∙ in_year y.years days (n / 3600 % 24) (n / 60 % 60) (n % 60) y.found inside
              ∙ ap ok (
                  date_in_year-placed y.years (n / 3600 % 24) (n / 60 % 60) (n % 60) days below
                    y.started (before_end inside) wide),
          civil,
          counted ∙ whole n small,
        )
      where
        whole :
            (n : ℕ)
            → n < 2 ^ 32 * 86400
            → n / 86400 % 2 ^ 32 * 86400 + n / 3600 % 24 * 3600 + n / 60 % 60 * 60 + n % 60 ≡ n
        whole n h = omega arith

    past :
        y.years ≡ 399
        → (days_before 399 * 86400 ≤ n) × (timestamp_to_date (pos n) ≡ err invalid_timestamp)
    past last = (
      late (subst (λ k. days_before k ≤ days) last y.started),
      timestamp_lem n (omega (arith, small))
          ∙ past_table y.years days (n / 3600 % 24) (n / 60 % 60) (n % 60) y.found last,
    )
      where
        late : {d : ℕ} → d ≤ n / 86400 % 2 ^ 32 → d * 86400 ≤ n
        late h = omega (arith, h, small)
