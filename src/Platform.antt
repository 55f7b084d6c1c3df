-- ===== src/Platform.antt =====
-- What the parser takes from third-party crates (nom, bytemuck, arrayref) and from the build target.
use ledger_avalanche.Prelude.{
  ℕ, ◌%◌, ◌*◌, ◌^◌, ◌≤◌, ◌<◌, ◌≡◌, ◌≢◌, Option, none, some, List, ◌++◌, Bytes, IsBytes, length,
  flatten, All, from_be_bytes,
}
use ledger_avalanche.Prelude.Int.{ℤ, u64_to_i64}
use ledger_avalanche.Errors.{Result, ok, err, Err, error, ErrorKind, from_error_kind}

-- nom's `IResult`: the bytes that are left, and the value.
abbrev pub IResult : Type 0 → Type 0
IResult A = Result Err (Bytes × A)

abbrev pub Parser : Type 0 → Type 0
Parser A = Bytes → IResult A

pub record Platform : Type 0 where
  -- nom::bytes::complete: `take` splits off a number of bytes, `tag` a given prefix.
  pub take : ℕ → Parser Bytes
  pub take_ok : (n : ℕ) (bs rest : Bytes) → length bs ≡ n → take n (bs ++ rest) ≡ ok (rest, bs)
  pub take_eof :
      (n : ℕ) (input : Bytes)
      → length input < n
      → take n input ≡ err (error (from_error_kind ErrorKind.eof))
  pub tag : Bytes → Parser Bytes
  pub tag_ok : (prefix rest : Bytes) → tag prefix (prefix ++ rest) ≡ ok (rest, prefix)
  pub tag_mismatch :
      (prefix input : Bytes)
      → ((rest : Bytes) → input ≢ prefix ++ rest)
      → tag prefix input ≡ err (error (from_error_kind ErrorKind.tag))
  -- nom::number::complete: `be_u8`, `be_u16`, `be_u32`, `be_u64` are `be_uint` at 1, 2, 4, 8 bytes.
  pub be_uint : ℕ → Parser ℕ
  pub be_uint_ok :
      (n : ℕ) (bs rest : Bytes)
      → IsBytes bs
      → length bs ≡ n
      → be_uint n (bs ++ rest) ≡ ok (rest, from_be_bytes 0 bs)
  pub be_uint_eof :
      (n : ℕ) (input : Bytes)
      → length input < n
      → be_uint n input ≡ err (error (from_error_kind ErrorKind.eof))
  pub be_i64 : Parser ℤ
  pub be_i64_ok :
      (bs rest : Bytes)
      → IsBytes bs
      → length bs ≡ 8
      → be_i64 (bs ++ rest) ≡ ok (rest, u64_to_i64 (from_be_bytes 0 bs))
  pub be_i64_eof :
      (input : Bytes)
      → length input < 8
      → be_i64 input ≡ err (error (from_error_kind ErrorKind.eof))
  -- bytemuck::try_cast_slice from bytes to arrays of `n` bytes; its error is never looked at.
  pub try_cast_slice : ℕ → Bytes → Option (List Bytes)
  pub try_cast_slice_ok :
      (n : ℕ) (arrays : List Bytes)
      → 0 < n
      → All (λ a. length a ≡ n) arrays
      → try_cast_slice n (flatten arrays) ≡ some arrays
  pub try_cast_slice_slop :
      (n : ℕ) (bs : Bytes) → 0 < n → length bs % n ≢ 0 → try_cast_slice n bs ≡ none
  -- arrayref::array_ref!(slice, 0, n), which panics where the slice is too short.
  pub array_ref : Bytes → ℕ → Option Bytes
  pub array_ref_whole : (n : ℕ) (bs : Bytes) → length bs ≡ n → array_ref bs n ≡ some bs
  -- The number of values of `usize`: 2 ^ 32 on the device, 2 ^ 64 where the unit tests run.
  pub usize_values : ℕ
  pub u32_fits : 2 ^ 32 ≤ usize_values

-- Enough for a product of an `u32` and a length of at most 32. `usize` has so many values where it has
-- 64 bits, as where the unit tests run, and has not on the device, whose target is thumbv6m-none-eabi
-- (app/Makefile).
abbrev pub IsWide : Platform → Type 0
IsWide p = 2 ^ 37 ≤ p.usize_values

-- `a * b` on `usize`, which wraps around in a release build.
unfoldable pub usize_mul : Platform → ℕ → ℕ → ℕ
usize_mul p a b = a * b % p.usize_values
