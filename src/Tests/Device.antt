-- ===== src/Tests/Device.antt =====
-- A platform for the tests: the crates' functions by clauses, and a `usize` of 64 bits or of 32.
use ledger_avalanche.Prelude.{
  ◌≤◌, ℕ, suc, ◌/◌, ◌%◌, ◌^◌, ◌<◌, ◌≡◌, ◌≢◌, refl, sym, ap, ap₂, ◌∙◌, true, false, Option, some,
  none, List, [], ◌∷◌, ◌++◌, append-nil, Bytes, length, take, drop, length-append,
  take-append_length, drop-append_length, ltb, ◌==◌, if◌then◌else◌, flatten, All, chunks,
  from_be_bytes, arith, subst, Option-cases, inl, inr, length-flatten, Bool-cases,
}
use ledger_avalanche.Prelude.Int.{ℤ, u64_to_i64}
use ledger_avalanche.Errors.{ok, err, error, ErrorKind, from_error_kind, ◌>>=◌}
use ledger_avalanche.Platform.{Parser, Platform, IsWide}
use native.Mathlib.Nat.{mul-mod_left, mul-div_cancel}

abbrev cut : ℕ → Parser Bytes
cut n input =
    if ltb (length input) n
    then err (error (from_error_kind ErrorKind.eof))
    else ok (drop n input, take n input)

not_short : (bs rest : Bytes) → ltb (length (bs ++ rest)) (length bs) ≡ false
not_short bs rest = rw (length-append bs rest) (ground arith)

short : (n m : ℕ) → m < n → ltb m n ≡ true
short n m h = ground arith

cut_ok : (n : ℕ) (bs rest : Bytes) → length bs ≡ n → cut n (bs ++ rest) ≡ ok (rest, bs)
cut_ok n bs rest e =
    subst (λ k. cut k (bs ++ rest) ≡ ok (rest, bs)) e
      (rw (not_short bs rest, drop-append_length bs rest, take-append_length bs rest))

cut_eof :
    (n : ℕ) (input : Bytes)
    → length input < n
    → cut n input ≡ err (error (from_error_kind ErrorKind.eof))
cut_eof n input h = rw (short n (length input) h)

abbrev strip : Bytes → Bytes → Option Bytes
strip [] input = some input
strip (b ∷ prefix) [] = none
strip (b ∷ prefix) (c ∷ input) = elim (b == c) [ true ↦ strip prefix input | false ↦ none ]

same : (n : ℕ) → (n == n) ≡ true
same n = ground arith

strip_ok : (prefix rest : Bytes) → strip prefix (prefix ++ rest) ≡ some rest
strip_ok [] rest = refl
strip_ok (b ∷ prefix) rest = rw (strip, same b) (strip_ok prefix rest)

equal : (b c : ℕ) → (b == c) ≡ true → b ≡ c
equal b c h = ground arith

strip_prefix : (prefix input rest : Bytes) → strip prefix input ≡ some rest → input ≡ prefix ++ rest
strip_prefix [] input rest e = cc e
strip_prefix (b ∷ prefix) [] rest e = cc e
strip_prefix (b ∷ prefix) (c ∷ input) rest e = elim (Bool-cases (b == c)) [
  | inl eq ↦
      ap₂ (λ (x : ℕ) (xs : Bytes). x ∷ xs) (sym (equal b c eq))
        (strip_prefix prefix input rest (rw (eq, strip) at e))
  | inr ne ↦ cc (rw (ne, strip) at e)
]

abbrev prefix_of : Bytes → Parser Bytes
prefix_of prefix input = elim (strip prefix input) [
  | some rest ↦ ok (rest, prefix)
  | none ↦ err (error (from_error_kind ErrorKind.tag))
]

abbrev uint : ℕ → Parser ℕ
uint n input = cut n input >>= λ (rest, bs). ok (rest, from_be_bytes 0 bs)

abbrev i64 : Parser ℤ
i64 input = cut 8 input >>= λ (rest, bs). ok (rest, u64_to_i64 (from_be_bytes 0 bs))

abbrev cast : ℕ → Bytes → Option (List Bytes)
cast n bs = if length bs % n == 0 then some (chunks (length bs / n) n bs) else none

cut_some :
    (n : ℕ) (arrays : List Bytes)
    → All (λ a. length a ≡ n) arrays
    → chunks (length arrays) n (flatten arrays) ≡ arrays
cut_some n [] h = refl
cut_some n (a ∷ arrays) h =
    subst (λ k. chunks (suc (length arrays)) k (a ++ flatten arrays) ≡ a ∷ arrays) h.0
      (rw (take-append_length a (flatten arrays), drop-append_length a (flatten arrays), h.0)
        (ap (λ rest. a ∷ rest) (cut_some n arrays h.1)))

cast_ok :
    (n : ℕ) (arrays : List Bytes)
    → 0 < n
    → All (λ a. length a ≡ n) arrays
    → cast n (flatten arrays) ≡ some arrays
cast_ok n arrays h v =
    rw (length-flatten n arrays v, mul-mod_left (length arrays) n, mul-div_cancel (length arrays) h)
      (ap some (cut_some n arrays v))

not_zero : (n : ℕ) → n ≢ 0 → (n == 0) ≡ false
not_zero n h = ground arith

cast_slop : (n : ℕ) (bs : Bytes) → 0 < n → length bs % n ≢ 0 → cast n bs ≡ none
cast_slop n bs h ne = rw (not_zero (length bs % n) ne)

tag_mismatch :
    (prefix input : Bytes)
    → ((rest : Bytes) → input ≢ prefix ++ rest)
    → prefix_of prefix input ≡ err (error (from_error_kind ErrorKind.tag))
tag_mismatch prefix input ne = elim (Option-cases (strip prefix input)) [
  | inl e ↦ rw (prefix_of, e)
  | inr (rest, e) ↦ absurd (ne rest (strip_prefix prefix input rest e))
]

whole : (n : ℕ) (bs : Bytes) → length bs ≡ n → take n bs ≡ bs
whole n bs e =
    subst (λ k. take k bs ≡ bs) e
      (ap (take (length bs)) (sym (append-nil bs)) ∙ take-append_length bs [])

long_enough : (n m : ℕ) → m ≡ n → ltb m n ≡ false
long_enough n m e = ground arith

with_usize : (values : ℕ) → 2 ^ 32 ≤ values → Platform
with_usize values fits = record {
  take = cut;
  take_ok = cut_ok;
  take_eof = cut_eof;
  tag = prefix_of;
  tag_ok = λ prefix rest. rw (prefix_of, strip_ok prefix rest);
  tag_mismatch = tag_mismatch;
  be_uint = uint;
  be_uint_ok = λ n bs rest _ e. rw (cut_ok n bs rest e);
  be_uint_eof = λ n input h. rw (cut_eof n input h);
  be_i64 = i64;
  be_i64_ok = λ bs rest _ e. rw (cut_ok 8 bs rest e);
  be_i64_eof = λ input h. rw (cut_eof 8 input h);
  try_cast_slice = cast;
  try_cast_slice_ok = cast_ok;
  try_cast_slice_slop = cast_slop;
  array_ref = λ bs n. if ltb (length bs) n then none else some (take n bs);
  array_ref_whole = λ n bs e. rw (long_enough n (length bs) e, whole n bs e);
  usize_values = values;
  u32_fits = fits;
}

pub host : Platform
host = with_usize (2 ^ 64) (omega arith)

pub host-IsWide : IsWide host
unfolding host with_usize
host-IsWide = omega arith

-- The same with the 32 bits of the hardware.
pub device : Platform
device = with_usize (2 ^ 32) (omega arith)

pub device_values : device.usize_values ≡ 2 ^ 32
unfolding device with_usize
device_values = refl
