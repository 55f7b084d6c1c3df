-- ===== src/Prelude/Chunks.antt =====
-- A list cut into pieces of one length, and put together again.
use Prim.Native.Nat.{ℕ, zero, suc, ◌*◌}
use mathlib.Core.Path.{◌≡◌, refl, sym, ap, ◌∙◌}
use mathlib.Core.List.{List, [], ◌∷◌, ◌++◌, append_assoc}
use native.Mathlib.Omega.{arith}
use ledger_avalanche.Prelude.Lists.{
  length, take, drop, flatten, All, take_append_drop, length-take, length-drop, length-append,
  eq-nil_of_length, All-append_split,
}

module _ {ℓ} {A : Type ℓ} where
  -- `k` pieces of `n` items each, and what they say of the whole.
  abbrev pub chunks : ℕ → ℕ → List A → List (List A)
  chunks zero n xs = []
  chunks (suc k) n xs = take n xs ∷ chunks k n (drop n xs)

module _ {ℓ} {A : Type ℓ} where
  pub length-chunks : (k n : ℕ) (xs : List A) → length (chunks k n xs) ≡ k
  length-chunks zero n xs = refl
  length-chunks (suc k) n xs = omega (arith, length-chunks k n (drop n xs))

  pub flatten-chunks : (k n : ℕ) (xs : List A) → length xs ≡ k * n → flatten (chunks k n xs) ≡ xs
  flatten-chunks zero n xs h = sym (eq-nil_of_length xs (omega arith))
  flatten-chunks (suc k) n xs h =
      ap (λ ys. take n xs ++ ys) (flatten-chunks k n (drop n xs) (grind (arith, length-drop n xs)))
      ∙ take_append_drop n xs

  pub All-chunks-length :
      (k n : ℕ) (xs : List A) → length xs ≡ k * n → All (λ c. length c ≡ n) (chunks k n xs)
  All-chunks-length zero n xs h = tt
  All-chunks-length (suc k) n xs h = (
    length-take n xs (grind arith),
    All-chunks-length k n (drop n xs) (grind (arith, length-drop n xs)),
  )

  pub length-flatten :
      (n : ℕ) (xss : List (List A))
      → All (λ c. length c ≡ n) xss
      → length (flatten xss) ≡ length xss * n
  length-flatten n [] h = omega arith
  length-flatten n (xs ∷ xss) h =
      grind (arith, length-append xs (flatten xss), length-flatten n xss h.1)

  pub flatten-append : (xss yss : List (List A)) → flatten (xss ++ yss) ≡ flatten xss ++ flatten yss
  flatten-append [] yss = refl
  flatten-append (xs ∷ xss) yss =
      ap (λ zs. xs ++ zs) (flatten-append xss yss)
      ∙ sym (append_assoc xs (flatten xss) (flatten yss))

  pub All-flatten_chunks {κ} :
      (P : A → Type κ) (xss : List (List A)) → All P (flatten xss) → All (All P) xss
  All-flatten_chunks P [] h = tt
  All-flatten_chunks P (xs ∷ xss) h =
      let (front, back) = All-append_split P xs (flatten xss) h in
      (front, All-flatten_chunks P xss back)
