-- ===== src/Parser/Bits.antt =====
-- Single bits of a word: `word & (1 << i) > 0` and `word ^ (1 << i)`, for `i` below the width.
use ledger_avalanche.Prelude.{
  ℕ, zero, suc, ◌+◌, ◌-◌, ◌*◌, ◌/◌, ◌%◌, ◌^◌, ◌<◌, ◌≡◌, Bool, true, false, not, ◌==◌, if◌then◌else◌,
  arith,
}
use native.Mathlib.Nat.{pow-suc}

unfoldable pub bit_at : ℕ → ℕ → Bool
bit_at word zero = word % 2 == 1
bit_at word (suc i) = bit_at (word / 2) i

unfoldable pub flip_bit : ℕ → ℕ → ℕ
flip_bit word zero = if word % 2 == 1 then word - 1 else word + 1
flip_bit word (suc i) = flip_bit (word / 2) i * 2 + word % 2

half_of_flip : (word : ℕ) → (if word % 2 == 1 then word - 1 else word + 1) / 2 ≡ word / 2
half_of_flip word = ground arith

suc_test : (i j : ℕ) → (suc i == suc j) ≡ (i == j)
suc_test i j = ground arith

zero_test : (j : ℕ) → (0 == suc j) ≡ false
zero_test j = ground arith

half_of_double : (n d : ℕ) → d < 2 → (n * 2 + d) / 2 ≡ n
half_of_double n d h = omega arith

-- Flipping bit `i` negates that bit and leaves the others.
pub bit_at-flip_bit :
    (word i j : ℕ)
    → bit_at (flip_bit word i) j ≡ (if i == j then not (bit_at word j) else bit_at word j)
unfolding bit_at flip_bit
bit_at-flip_bit word zero zero = ground arith
bit_at-flip_bit word zero (suc j) = rw (half_of_flip word, zero_test j)
bit_at-flip_bit word (suc i) zero = ground arith
bit_at-flip_bit word (suc i) (suc j) =
    rw (half_of_double (flip_bit (word / 2) i) (word % 2) (omega arith), suc_test i j)
      (bit_at-flip_bit (word / 2) i j)

flip_lowest-lt :
    (word half : ℕ) → word < half * 2 → (if word % 2 == 1 then word - 1 else word + 1) < half * 2
flip_lowest-lt word half h = ground arith

pub flip_bit-lt : (width word i : ℕ) → word < 2 ^ width → i < width → flip_bit word i < 2 ^ width
unfolding flip_bit
flip_bit-lt zero word i h k = absurd (omega arith)
flip_bit-lt (suc width) word zero h k =
    rw (pow-suc 2 width) (flip_lowest-lt word (2 ^ width) (rw (pow-suc 2 width) at h))
flip_bit-lt (suc width) word (suc i) h k =
    let h' : word < 2 ^ width * 2 = rw (pow-suc 2 width) at h in
    let ih = flip_bit-lt width (word / 2) i (omega arith) (omega arith) in
    rw (pow-suc 2 width) (omega arith)

pow-pos : (width : ℕ) → 0 < 2 ^ width
pow-pos zero = omega arith
pow-pos (suc width) = rw (pow-suc 2 width) (omega (arith, pow-pos width))

lowest_of_max : (p : ℕ) → 0 < p → ((p * 2 - 1) % 2 == 1) ≡ true
lowest_of_max p h = ground arith

half_of_max : (p : ℕ) → 0 < p → (p * 2 - 1) / 2 ≡ p - 1
half_of_max p h = omega arith

-- Every bit of `2 ^ width - 1` below the width is set.
pub bit_at_max : (width i : ℕ) → i < width → bit_at (2 ^ width - 1) i ≡ true
unfolding bit_at
bit_at_max zero i h = absurd (omega arith)
bit_at_max (suc width) zero h = rw (pow-suc 2 width, lowest_of_max (2 ^ width) (pow-pos width))
bit_at_max (suc width) (suc i) h =
    rw (pow-suc 2 width, half_of_max (2 ^ width) (pow-pos width)) (bit_at_max width i (omega arith))
