-- ===== src/Codec/Arrays.antt =====
-- A counted run of arrays of one length, which the source reads by `take(count as usize * LEN)` and
-- casts by `bytemuck::try_cast_slice`.
use ledger_avalanche.Prelude.{
  ℕ, ◌*◌, ◌^◌, ◌≤◌, ◌<◌, ◌≡◌, sym, ap, ◌∙◌, Option, none, some, List, [], ◌∷◌, ◌++◌, Bytes, IsByte,
  IsBytes, length, flatten, All, chunks, length-chunks, flatten-chunks, All-chunks-length,
  All-flatten_chunks, All-append, length-flatten, arith, subst,
}
use ledger_avalanche.Errors.{ok, ◌>>=◌, returns, Ensures-bind}
use ledger_avalanche.Platform.{Parser, Platform, IsWide, usize_mul}
use ledger_avalanche.Codec.Format.{Exact}
use ledger_avalanche.Codec.Primitives.{take-Exact}
use native.Mathlib.Nat.{mod-eq_of_lt, mul-le-mul_left}

unfoldable pub take_arrays : Platform → ℕ → ℕ → Parser (Option (List Bytes))
unfolding usize_mul
take_arrays p count n input = do
  (rem, bs) ← p.take (usize_mul p count n) input
  ok (rem, p.try_cast_slice n bs)

-- Arrays of `n` bytes each.
abbrev pub IsArrays : ℕ → List Bytes → Type 0
IsArrays n = All (λ a. IsBytes a × (length a ≡ n))

abbrev pub flatten_some : Option (List Bytes) → Bytes
flatten_some none = []
flatten_some (some arrays) = flatten arrays

abbrev pub IsSomeArrays : ℕ → ℕ → Option (List Bytes) → Type 0
IsSomeArrays count n o =
    (arrays : List Bytes) × (o ≡ some arrays) × IsArrays n arrays × (length arrays ≡ count)

pub IsArrays-lengths : (n : ℕ) (xs : List Bytes) → IsArrays n xs → All (λ a. length a ≡ n) xs
IsArrays-lengths n [] h = tt
IsArrays-lengths n (x ∷ xs) h = (h.0.1, IsArrays-lengths n xs h.1)

pub IsArrays-bytes : (n : ℕ) (xs : List Bytes) → IsArrays n xs → IsBytes (flatten xs)
IsArrays-bytes n [] h = tt
IsArrays-bytes n (x ∷ xs) h = All-append IsByte x (flatten xs) h.0.0 (IsArrays-bytes n xs h.1)

pub IsArrays_of_parts :
    (n : ℕ) (xs : List Bytes) → All IsBytes xs → All (λ a. length a ≡ n) xs → IsArrays n xs
IsArrays_of_parts n [] h k = tt
IsArrays_of_parts n (x ∷ xs) h k = ((h.0, k.0), IsArrays_of_parts n xs h.1 k.1)

product_room : (count n m : ℕ) → count < 2 ^ 32 → n ≤ 32 → 2 ^ 37 ≤ m → count * n < m
product_room count n m hc hn hm = omega (arith, mul-le-mul_left count hn)

module _ (p : Platform) (wide : IsWide p) (count n : ℕ) (in_u32 : count < 2 ^ 32) (pos : 0 < n)
    (small : n ≤ 32) where
  pub no_wrap : usize_mul p count n ≡ count * n
  unfolding usize_mul
  no_wrap = mod-eq_of_lt (product_room count n p.usize_values in_u32 small wide)

  pub take_arrays-Exact : Exact (take_arrays p count n) flatten_some (IsSomeArrays count n)
  unfolding take_arrays
  take_arrays-Exact = record {
    complete = λ o rest (arrays, e, are, len).
        let total : length (flatten arrays) ≡ usize_mul p count n =
          length-flatten n arrays (IsArrays-lengths n arrays are)
          ∙ ap (λ k. k * n) len
          ∙ sym no_wrap in
        rw e (
          rw (p.take_ok (usize_mul p count n) (flatten arrays) rest total) (
            ap (λ x. ok (rest, x))
              (p.try_cast_slice_ok n arrays pos (IsArrays-lengths n arrays are))));
    sound = λ input h.
        Ensures-bind ((take-Exact p (usize_mul p count n)).sound input h)
          λ (rest, bs) ((bytes, len), e).
            let total : length bs ≡ count * n = len ∙ no_wrap in
            let arrays = chunks count n bs in
            let whole : flatten arrays ≡ bs = flatten-chunks count n bs total in
            let pieces : All (λ a. length a ≡ n) arrays = All-chunks-length count n bs total in
            let cast : p.try_cast_slice n bs ≡ some arrays =
              subst (λ xs. p.try_cast_slice n xs ≡ some arrays) whole
                (p.try_cast_slice_ok n arrays pos pieces) in
            let parts =
              IsArrays_of_parts n arrays
                (All-flatten_chunks IsByte arrays (subst IsBytes (sym whole) bytes)) pieces in
            returns (
              (arrays, cast, parts, length-chunks count n bs),
              rw cast (e ∙ ap (λ xs. xs ++ rest) (sym whole)),
            );
  }
