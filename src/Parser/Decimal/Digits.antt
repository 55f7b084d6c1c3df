-- ===== src/Parser/Decimal/Digits.antt =====
-- What `num_to_str` of app/src/parser/utils.rs writes, against the value of a decimal text.
use ledger_avalanche.Prelude.{
  ℕ, zero, suc, ◌+◌, ◌-◌, ◌*◌, ◌/◌, ◌%◌, ◌^◌, ◌≤◌, ◌<◌, ◌≡◌, ◌⊎◌, refl, sym, ap, ap₂, subst, ◌∙◌,
  true, false, [], ◌∷◌, ◌++◌, append_assoc, reverse, reverse_cons, inl, inr, Bytes, All, All-append,
  length, length-append, length-reverse, drop, set-append_length, ltb, ◌==◌, if◌then◌else◌,
  Bool-cases, arith,
}
use ledger_avalanche.Errors.{ok}
use ledger_avalanche.Parser.Decimal.{digits_of, write_at, write_digits, num_to_str}
use ledger_avalanche.Parser.Decimal.Swaps.{reverse_digits-reverse}
use native.Mathlib.Nat.{pow-suc, pow-le-pow_right}

-- The number that a decimal text stands for, behind a prefix that stands for `acc`.
unfoldable pub decimal_value : ℕ → Bytes → ℕ
decimal_value acc [] = acc
decimal_value acc (d ∷ ds) = decimal_value (acc * 10 + (d - 48)) ds

abbrev pub IsDigit : ℕ → Type 0
IsDigit d = (48 ≤ d) × (d < 58)

-- No leading zero but that of the text "0".
abbrev pub IsCanonical : Bytes → Type 0
IsCanonical text = (text ≡ 48 ∷ []) ⊎ ((d : ℕ) × (ds : Bytes) × (text ≡ d ∷ ds) × (48 < d))

-- The digits of a number from the last one.
low_digits : ℕ → ℕ → Bytes
low_digits zero n = []
low_digits (suc rounds) n =
    let rest = low_digits rounds (n / 10) in if n == 0 then [] else (48 + n % 10) ∷ rest

low_digits_zero : (rounds : ℕ) → low_digits rounds 0 ≡ []
unfolding low_digits
low_digits_zero zero = refl
low_digits_zero (suc rounds) = refl

low_digits_pos :
    (rounds n : ℕ) → 0 < n → low_digits (suc rounds) n ≡ (48 + n % 10) ∷ low_digits rounds (n / 10)
unfolding low_digits
low_digits_pos rounds n h = rw (test h)
  where
    test : 0 < n → (n == 0) ≡ false
    test h = ground arith

decimal_value-append :
    (acc : ℕ) (xs ys : Bytes)
    → decimal_value acc (xs ++ ys) ≡ decimal_value (decimal_value acc xs) ys
unfolding decimal_value
decimal_value-append acc [] ys = refl
decimal_value-append acc (x ∷ xs) ys = decimal_value-append (acc * 10 + (x - 48)) xs ys

top_digit :
    (rounds n : ℕ)
    → 0 < n
    → reverse (low_digits (suc rounds) n)
      ≡ reverse (low_digits rounds (n / 10)) ++ ((48 + n % 10) ∷ [])
top_digit rounds n h =
    ap reverse (low_digits_pos rounds n h) ∙ reverse_cons (48 + n % 10) (low_digits rounds (n / 10))

decimal_value-low_digits :
    (rounds n : ℕ) → n ≤ rounds → decimal_value 0 (reverse (low_digits rounds n)) ≡ n
unfolding decimal_value
decimal_value-low_digits rounds zero h =
    ap (λ ds. decimal_value 0 (reverse ds)) (low_digits_zero rounds)
decimal_value-low_digits zero (suc n) h = absurd (omega (arith, h))
decimal_value-low_digits (suc rounds) (suc n) h =
    ap (λ ds. decimal_value 0 ds) (top_digit rounds (suc n) (omega arith))
    ∙ decimal_value-append 0 (reverse (low_digits rounds (suc n / 10))) ((48 + suc n % 10) ∷ [])
    ∙ omega (arith, decimal_value-low_digits rounds (suc n / 10) (omega (arith, h)))

digits-IsDigit : (rounds n : ℕ) → All IsDigit (reverse (low_digits rounds n))
unfolding low_digits
digits-IsDigit rounds zero =
    subst (λ ds. All IsDigit (reverse ds)) (sym (low_digits_zero rounds)) tt
digits-IsDigit zero (suc n) = tt
digits-IsDigit (suc rounds) (suc n) =
    subst (All IsDigit) (sym (top_digit rounds (suc n) (omega arith))) (
      All-append IsDigit (reverse (low_digits rounds (suc n / 10))) ((48 + suc n % 10) ∷ [])
        (digits-IsDigit rounds (suc n / 10)) ((omega arith, omega arith), tt))

first_digit :
    (rounds n : ℕ)
    → 0 < n
    → n ≤ rounds
    → (d : ℕ) × (ds : Bytes) × (reverse (low_digits rounds n) ≡ d ∷ ds) × (48 < d)
first_digit zero n pos h = absurd (omega (arith, pos, h))
first_digit (suc rounds) n pos h = elim (Bool-cases (ltb n 10)) [
  | inl small ↦ (
    48 + n % 10,
    [],
    top_digit rounds n pos
        ∙ ap (λ m. reverse (low_digits rounds m) ++ ((48 + n % 10) ∷ [])) (no_tens n small)
        ∙ ap (λ ds. reverse ds ++ ((48 + n % 10) ∷ [])) (low_digits_zero rounds),
    one_digit n small pos,
  )
  | inr large ↦
      let (d, ds, e, top) = first_digit rounds (n / 10) (tens n large) (omega (arith, h)) in
      (
        d,
        ds ++ ((48 + n % 10) ∷ []),
        top_digit rounds n pos ∙ ap (λ ds. ds ++ ((48 + n % 10) ∷ [])) e,
        top,
      )
]
  where
    no_tens : (n : ℕ) → ltb n 10 ≡ true → n / 10 ≡ 0
    no_tens n h = ground arith

    tens : (n : ℕ) → ltb n 10 ≡ false → 0 < n / 10
    tens n h = ground arith

    one_digit : (n : ℕ) → ltb n 10 ≡ true → 0 < n → 48 < 48 + n % 10
    one_digit n h pos = ground arith

written :
    (d r : ℕ) (pre rest : Bytes)
    → write_at (length pre) d (pre ++ (r ∷ rest)) ≡ ok ((pre ++ (d ∷ [])) ++ rest)
unfolding write_at
written d r pre rest =
    rw (write_at, inside pre (r ∷ rest) (omega arith))
      (ap ok (set-append_length pre rest r d ∙ sym (append_assoc pre (d ∷ []) rest)))
  where
    inside : (pre rest : Bytes) → 0 < length rest → ltb (length pre) (length (pre ++ rest)) ≡ true
    inside pre rest h = ground (arith, length-append pre rest)

round :
    (rounds n r : ℕ) (pre rest : Bytes)
    → 0 < n
    → write_digits (suc rounds) (length pre) n (pre ++ (r ∷ rest))
      ≡ write_digits rounds
          (length (pre ++ ((48 + n % 10) ∷ [])))
          (n / 10)
          ((pre ++ ((48 + n % 10) ∷ [])) ++ rest)
unfolding write_digits
round rounds n r pre rest h =
    rw (write_digits, more h, written (48 + n % 10) r pre rest)
      (ap (λ i. write_digits rounds i (n / 10) ((pre ++ ((48 + n % 10) ∷ [])) ++ rest))
        (sym (length-append pre ((48 + n % 10) ∷ []))))
  where
    more : {n : ℕ} → 0 < n → (n == 0) ≡ false
    more h = ground arith

-- The first loop writes the digits from the last one, behind what it wrote before.
write_digits-low_digits :
    (rounds n : ℕ) (pre rest : Bytes)
    → n < 10 ^ length rest
    → write_digits rounds (length pre) n (pre ++ rest)
      ≡ ok (
        length pre + length (low_digits rounds n),
        pre ++ (low_digits rounds n ++ drop (length (low_digits rounds n)) rest),
      )
unfolding write_digits low_digits
write_digits-low_digits zero n pre rest h = ap (λ k. ok (k, pre ++ rest)) (omega arith)
write_digits-low_digits (suc rounds) zero pre rest h = ap (λ k. ok (k, pre ++ rest)) (omega arith)
write_digits-low_digits (suc rounds) (suc n) pre [] h = absurd (omega (arith, h))
write_digits-low_digits (suc rounds) (suc n) pre (r ∷ rest) h =
    let d = 48 + suc n % 10 in
    let low = low_digits rounds (suc n / 10) in
    round rounds (suc n) r pre rest (omega arith)
    ∙ write_digits-low_digits rounds (suc n / 10) (pre ++ (d ∷ [])) rest
        (fewer (suc n) (length rest) h)
    ∙ ap ok (
        ap₂ (λ i o. (i, o)) (omega (arith, length-append pre (d ∷ [])))
          (append_assoc pre (d ∷ []) (low ++ drop (length low) rest)))
    ∙ ap (λ ds. ok (length pre + length ds, pre ++ (ds ++ drop (length ds) (r ∷ rest))))
        (sym (low_digits_pos rounds (suc n) (omega arith)))
  where
    fewer : (n k : ℕ) → n < 10 ^ suc k → n / 10 < 10 ^ k
    fewer n k h = let h' : n < 10 ^ k * 10 = rw (← pow-suc 10 k) h in omega (arith, h')

-- The text is the number's: decimal digits of that value, without leading zeros.
pub record IsNumeral (n : ℕ) (text : Bytes) : Type 0 where
  pub value : decimal_value 0 text ≡ n
  pub digits : All IsDigit text
  pub canonical : IsCanonical text

IsNumeral-of_digits : (n : ℕ) → 0 < n → IsNumeral n (reverse (low_digits n n))
IsNumeral-of_digits n pos = record {
  value = decimal_value-low_digits n n (omega arith);
  digits = digits-IsDigit n n;
  canonical = inr (first_digit n n pos (omega arith));
}

roomy : {size have : ℕ} → size ≤ have → ltb have size ≡ false
roomy h = ground arith

-- The two loops leave the digits, from the first one.
loops :
    (n : ℕ) (output : Bytes)
    → n < 10 ^ length output
    → digits_of n output
      ≡ ok (
        reverse (low_digits n n) ++ drop (length (reverse (low_digits n n))) output,
        length (reverse (low_digits n n)),
      )
unfolding digits_of
loops n output fits =
    let low = low_digits n n in
    rw
      (
        digits_of,
        write_digits-low_digits n n [] output fits,
        reverse_digits-reverse (0 + length low) [] low (drop (length low) output) (omega arith),
      )
      (ap₂ (λ j k. ok (reverse low ++ drop j output, k)) (sym (length-reverse low))
        (omega (arith, length-reverse low)))

not_zero : (n : ℕ) → (suc n == 0) ≡ false
not_zero n = ground arith

first_byte : (output : Bytes) → ltb 0 (suc (length output)) ≡ true
first_byte output = ground arith

-- For a type whose numbers have at most `size` digits, and a buffer of at least that many bytes, the
-- code writes the number's decimal text at the front of the buffer, returns its length, and leaves the
-- bytes behind it.
pub num_to_str-IsNumeral :
    (size n : ℕ) (output : Bytes)
    → 0 < size
    → n < 10 ^ size
    → size ≤ length output
    → (text : Bytes) × IsNumeral n text
      × (num_to_str size n output ≡ ok (text ++ drop (length text) output, length text))
unfolding num_to_str write_at decimal_value
num_to_str-IsNumeral size zero [] some_room small room = absurd (omega (arith, some_room, room))
num_to_str-IsNumeral size zero (b ∷ output) some_room small room = (
  48 ∷ [],
  record { value = refl; digits = ((omega arith, omega arith), tt); canonical = inl refl },
  rw (roomy room, write_at, first_byte output) refl,
)
num_to_str-IsNumeral size (suc n) output some_room small room = (
  reverse (low_digits (suc n) (suc n)),
  IsNumeral-of_digits (suc n) (omega arith),
  rw (roomy room, not_zero n)
      (loops (suc n) output (omega (arith, small, pow-le-pow_right {n = 10} (omega arith) room))),
)
