-- ===== src/Parser/Decimal.antt =====
-- The decimal text of integers, the macro `num_to_str` of app/src/parser/utils.rs.
pub mod Swaps
pub mod Digits
use ledger_avalanche.Prelude.{
  ℕ, zero, suc, ◌+◌, ◌-◌, ◌/◌, ◌%◌, Option, none, some, [], ◌∷◌, Bytes, length, get_elem?, take,
  set, ltb, ◌==◌, if◌then◌else◌,
}
use ledger_avalanche.Errors.{
  ParserError, unexpected_buffer_end, Result, ok, err, panic, ◌>>=◌, apdu_unwrap,
}

-- `output[i] = b`, which panics out of range.
unfoldable pub write_at : ℕ → ℕ → Bytes → Result ParserError Bytes
write_at i b output = if ltb i (length output) then ok (set output i b) else panic

-- `output.swap(i, j)`
unfoldable pub swap : ℕ → ℕ → Bytes → Result ParserError Bytes
swap i j output = do
  a ← apdu_unwrap (get_elem? output i)
  b ← apdu_unwrap (get_elem? output j)
  ok (set (set output i b) j a)

-- `while number != 0`, the digits from the last one, with the number of them; a number is 0 after at
-- most that many divisions by 10.
unfoldable pub write_digits : ℕ → ℕ → ℕ → Bytes → Result ParserError (ℕ × Bytes)
write_digits zero offset number output = ok (offset, output)
write_digits (suc rounds) offset number output =
    let rest = write_at offset (48 + number % 10) output >>= λ written.
    write_digits rounds (offset + 1) (number / 10) written in
    if number == 0 then ok (offset, output) else rest

-- `while idx < offset`, which ends after at most `offset` rounds.
unfoldable pub reverse_digits : ℕ → ℕ → ℕ → Bytes → Result ParserError Bytes
reverse_digits zero idx offset output = ok output
reverse_digits (suc rounds) idx offset output =
    let rest = swap idx (offset - 1) output >>= λ swapped.
    reverse_digits rounds (idx + 1) (offset - 1) swapped in
    if ltb idx offset then rest else ok output

-- The two loops.
unfoldable pub digits_of : ℕ → Bytes → Result ParserError (Bytes × ℕ)
digits_of number output = do
  (len, written) ← write_digits number 0 number output
  reversed ← reverse_digits len 0 len written
  ok (reversed, len)

-- The buffer afterwards and the length of the text in it. `size` is `FORMATTED_SIZE_DECIMAL` of the
-- integer's type.
unfoldable pub num_to_str : ℕ → ℕ → Bytes → Result ParserError (Bytes × ℕ)
num_to_str size number output =
    if ltb (length output) size
    then err unexpected_buffer_end
    else if number == 0
    then (write_at 0 48 output >>= λ written. ok (written, 1))
    else digits_of number output
