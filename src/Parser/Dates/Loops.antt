-- ===== src/Parser/Dates/Loops.antt =====
-- The table and the two loops of `timestamp_to_date` of app/src/parser/utils/time.rs.
use ledger_avalanche.Prelude.{
  ℕ, zero, suc, ◌+◌, ◌≤◌, ◌<◌, ◌≡◌, ◌⊎◌, inl, inr, refl, sym, ap, subst, ◌∙◌, true, false,
  Bool-cases, List, [], ◌∷◌, some, get_elem?, leb, arith,
}
use ledger_avalanche.Parser.Dates.{find_year}
use ledger_avalanche.Parser.Dates.Table.{year_lookup}
use ledger_avalanche.Parser.Dates.Calendar.{days_in_year, days_before}

-- The starts of `n` years, the first of which is `k` years after 1970 and starts at day `d`.
year_starts : ℕ → ℕ → ℕ → List ℕ
year_starts zero k d = []
year_starts (suc n) k d = d ∷ year_starts n (suc k) (d + days_in_year (1970 + k))

-- The table is right.
year_lookup-eq : year_lookup ≡ year_starts 400 0 0
unfolding year_lookup year_starts days_in_year
year_lookup-eq = refl

get_elem?-year_starts :
    (n k d i : ℕ)
    → d ≡ days_before k
    → i < n
    → get_elem? (year_starts n k d) i ≡ some (days_before (k + i))
unfolding year_starts days_before
get_elem?-year_starts zero k d i e h = absurd (omega (arith, h))
get_elem?-year_starts (suc n) k d zero e h = ap some (e ∙ ap days_before (omega arith))
get_elem?-year_starts (suc n) k d (suc i) e h =
    get_elem?-year_starts n (suc k) (d + days_in_year (1970 + k)) i
      (ap (λ x. x + days_in_year (1970 + k)) e) (omega (arith, h))
    ∙ ap (λ j. some (days_before j)) (omega arith)

-- The year that is found: `years` after 1970, the last one or one that ends behind the day.
pub record YearFound (n k days r : ℕ) : Type 0 where
  pub years : ℕ
  pub found : r ≡ years + 1
  pub in_table : years < k + n
  pub started : days_before years ≤ days
  pub ended : (years + 1 ≡ k + n) ⊎ (days < days_before (suc years))

find_year_step :
    (starts : List ℕ) (tm d days : ℕ)
    → d ≤ days
    → find_year (d ∷ starts) tm days ≡ find_year starts (tm + 1) days
unfolding find_year
find_year_step starts tm d days h = rw (begun h)
  where
    begun : d ≤ days → leb d days ≡ true
    begun h = ground arith

find_year_stop : (starts : List ℕ) (tm d days : ℕ) → days < d → find_year (d ∷ starts) tm days ≡ tm
unfolding find_year
find_year_stop starts tm d days h = rw (not_begun h)
  where
    not_begun : days < d → leb d days ≡ false
    not_begun h = ground arith

-- The loop, at the year `k` years after 1970, with `n` more in the table.
find_year-YearFound :
    (n k d tm days : ℕ)
    → d ≡ days_before k
    → tm ≡ k
    → d ≤ days
    → YearFound (suc n) k days (find_year (year_starts (suc n) k d) tm days)
unfolding find_year year_starts days_before
find_year-YearFound zero k d tm days e i h =
    subst (YearFound 1 k days) (sym (find_year_step [] tm d days h)) (record {
      years = k;
      found = omega (arith, i);
      in_table = omega arith;
      started = omega (arith, e, h);
      ended = inl (omega arith);
    })
find_year-YearFound (suc n) k d tm days e i h =
    subst (YearFound (suc (suc n)) k days)
      (sym (find_year_step (year_starts (suc n) (suc k) d') tm d days h))
      (elim (Bool-cases (leb d' days)) [
        | inl begun ↦ later (
            find_year-YearFound n (suc k) d' (tm + 1) days (ap (λ x. x + days_in_year (1970 + k)) e)
              (omega (arith, i)) (ground arith))
        | inr not_begun ↦
            subst (YearFound (suc (suc n)) k days)
              (sym (
                find_year_stop (year_starts n (suc (suc k)) (d' + days_in_year (1970 + suc k)))
                  (tm + 1) d' days (ground arith)))
              (record {
                years = k;
                found = omega (arith, i);
                in_table = omega arith;
                started = omega (arith, e, h);
                ended = inr (ground (arith, e));
              })
      ])
  where
    d' : ℕ
    d' = d + days_in_year (1970 + k)

    later : {r : ℕ} → YearFound (suc n) (suc k) days r → YearFound (suc (suc n)) k days r
    later y = record {
      years = y.years;
      found = y.found;
      in_table = omega (arith, y.in_table);
      started = y.started;
      ended = elim y.ended [ inl last ↦ inl (omega (arith, last)) | inr before ↦ inr before ];
    }

pub year_found : (days : ℕ) → YearFound 400 0 days (find_year year_lookup 0 days)
unfolding days_before
year_found days =
    subst (λ t. YearFound 400 0 days (find_year t 0 days)) (sym year_lookup-eq)
      (find_year-YearFound 399 0 0 0 days refl refl (omega arith))

pub get_elem?-year_lookup : (k : ℕ) → k < 400 → get_elem? year_lookup k ≡ some (days_before k)
unfolding days_before
get_elem?-year_lookup k h =
    ap (λ t. get_elem? t k) year_lookup-eq
    ∙ get_elem?-year_starts 400 0 0 k refl h
    ∙ ap (λ j. some (days_before j)) (omega arith)
