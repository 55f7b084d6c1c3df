-- ===== src/Codec/Counted.antt =====
-- A counted run of arrays on any width of `usize`: how many there are, where the product of the count
-- and the length may wrap around.
use ledger_avalanche.Prelude.{
  ℕ, ◌*◌, ◌/◌, ◌%◌, ◌^◌, ◌≤◌, ◌<◌, ◌≡◌, ◌≢◌, ◌⊎◌, inl, inr, sym, ap, ◌∙◌, Option, none, some, List,
  ◌++◌, Bytes, IsByte, IsBytes, length, flatten, chunks, length-chunks, flatten-chunks,
  All-chunks-length, All-flatten_chunks, arith, subst,
}
use ledger_avalanche.Errors.{Result, Err, ◌>>=◌, Ensures, returns, Ensures-bind}
use ledger_avalanche.Platform.{Platform, IsWide, usize_mul}
use ledger_avalanche.Codec.Format.{Exact-then}
use ledger_avalanche.Codec.Primitives.{take-Exact}
use ledger_avalanche.Codec.Arrays.{take_arrays, IsArrays, IsArrays_of_parts, no_wrap}
use native.Mathlib.Nat.{
  mod-le, mod-add-div', mul-mod_left, mod-mod_of_dvd, dvd_of_mod-eq-zero, le_of_mul-le-mul_right,
}
use native.Mathlib.Decide.{ℕ_discrete}

-- The arrays take as many bytes as the code computes from the count.
pub record IsCounted (p : Platform) (n count : ℕ) (arrays : List Bytes) : Type 0 where
  pub in_u32 : count < 2 ^ 32
  pub total : length arrays * n ≡ usize_mul p count n
  pub are : IsArrays n arrays

module _ (p : Platform) (count n : ℕ) (in_u32 : count < 2 ^ 32) (pos : 0 < n) where
  whole : (m : ℕ) → m % n ≡ 0 → m ≡ m / n * n
  whole m h = omega (arith, mod-add-div' m n, h)

  -- A run that was read, or a failed cast of bytes that are no whole run.
  take_arrays_sound :
      (input : Bytes)
      → IsBytes input
      → Ensures
          (λ r.
            ((r.1 ≡ none) × (usize_mul p count n % n ≢ 0))
            ⊎ ((arrays : List Bytes) × (r.1 ≡ some arrays)
                × IsCounted p n count arrays
                × IsBytes r.0
                × (input ≡ flatten arrays ++ r.0)))
          (take_arrays p count n input)
  unfolding take_arrays
  take_arrays_sound input h =
      Exact-then (take-Exact p (usize_mul p count n)) input h _ λ bs rest (bytes, len) hr e.
        elim (ℕ_discrete (usize_mul p count n % n) 0) [
          | no ne ↦ returns (inl (p.try_cast_slice_slop n bs pos (rw len ne), ne))
          | yes divides ↦
              let k = usize_mul p count n / n in
              let total : length bs ≡ k * n = len ∙ whole (usize_mul p count n) divides in
              let arrays = chunks k n bs in
              let same : flatten arrays ≡ bs = flatten-chunks k n bs total in
              let pieces = All-chunks-length k n bs total in
              let cast : p.try_cast_slice n bs ≡ some arrays =
                subst (λ xs. p.try_cast_slice n xs ≡ some arrays) same
                  (p.try_cast_slice_ok n arrays pos pieces) in
              let counted : IsCounted p n count arrays = record {
                in_u32 = in_u32;
                total =
                    ap (λ i. i * n) (length-chunks k n bs)
                    ∙ sym (whole (usize_mul p count n) divides);
                are =
                    IsArrays_of_parts n arrays
                      (All-flatten_chunks IsByte arrays (subst IsBytes (sym same) bytes)) pieces;
              } in
              returns (inr (arrays, cast, counted, hr, e ∙ ap (λ xs. xs ++ rest) (sym same)))
        ]

  -- What follows a run, for either outcome.
  pub take_arrays-then {κ} :
      (input : Bytes)
      → IsBytes input
      → {B : Type 0} {Q : B → Type κ} (f : Bytes × Option (List Bytes) → Result Err B)
      → ((rest : Bytes) → usize_mul p count n % n ≢ 0 → Ensures Q (f (rest, none)))
      → ((arrays : List Bytes) (rest : Bytes)
          → IsCounted p n count arrays
          → IsBytes rest
          → input ≡ flatten arrays ++ rest
          → Ensures Q (f (rest, some arrays)))
      → Ensures Q (take_arrays p count n input >>= f)
  take_arrays-then input h f slop run = Ensures-bind (take_arrays_sound input h) λ (rest, cast).
      elim [
        | inl (e, ne) ↦ rw e (slop rest ne)
        | inr (arrays, e, counted, hr, split) ↦ rw e (run arrays rest counted hr split)
      ]

-- There are no more arrays than the count tells.
pub counted-le :
    (p : Platform) (n count : ℕ) (arrays : List Bytes)
    → 0 < n
    → IsCounted p n count arrays
    → length arrays ≤ count
unfolding usize_mul
counted-le p n count arrays pos c =
    le_of_mul-le-mul_right
      (subst (λ m. m ≤ count * n) (sym c.total) (mod-le (count * n) p.usize_values)) pos

-- On a width that is a multiple of the length, the run is whole.
pub usize_mul-whole :
    (p : Platform) (n count : ℕ) → p.usize_values % n ≡ 0 → usize_mul p count n % n ≡ 0
unfolding usize_mul
usize_mul-whole p n count h =
    mod-mod_of_dvd n (count * n) (dvd_of_mod-eq-zero n h) ∙ mul-mod_left count n

-- Where the product cannot wrap around, the count is the number of the arrays.
counted-wide :
    (p : Platform) (n count : ℕ) (arrays : List Bytes)
    → IsWide p
    → 0 < n
    → n ≤ 32
    → IsCounted p n count arrays
    → length arrays ≡ count
counted-wide p n count arrays wide pos small c =
    let same : length arrays * n ≡ count * n =
      c.total ∙ no_wrap p wide count n c.in_u32 pos small in
    omega (
      arith,
      le_of_mul-le-mul_right {m = length arrays} {n = count} {k = n} (omega (arith, same)) pos,
      le_of_mul-le-mul_right {m = count} {n = length arrays} {k = n} (omega (arith, same)) pos,
    )
