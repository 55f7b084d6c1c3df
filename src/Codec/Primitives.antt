-- ===== src/Codec/Primitives.antt =====
-- The parsers of nom against their formats, from what nom documents.
use ledger_avalanche.Prelude.{
  ℕ, ◌^◌, ◌<◌, ◌≡◌, ◌≢◌, refl, sym, ap, ◌∙◌, ◌⊎◌, inl, inr, [], ◌∷◌, ◌++◌, Bytes, IsByte, IsBytes,
  take, drop, length, length-take, take_append_drop, All-append_split, to_be_bytes, from_be_bytes,
  length-to_be_bytes, to_be_bytes-IsBytes, from_be_bytes-to_be_bytes, to_be_bytes-from_be_bytes,
  from_be_bytes-lt, arith, subst,
}
use ledger_avalanche.Prelude.Int.{
  IsI64, u64_to_i64, i64_to_u64, u64_to_i64-i64_to_u64, i64_to_u64-u64_to_i64, i64_to_u64-lt,
}
use ledger_avalanche.Errors.{ok, returns, fails}
use ledger_avalanche.Platform.{Platform}
use ledger_avalanche.Codec.Format.{Exact}
use native.Mathlib.Decide.{dec_lt, ℕ_discrete}

-- Input that is too short, or that has `n` bytes at its front.
enough :
    (n : ℕ) (input : Bytes)
    → IsBytes input
    → (length input < n)
      ⊎ ((bs : Bytes) × (rest : Bytes) × (length bs ≡ n) × IsBytes bs × (input ≡ bs ++ rest))
enough n input h = elim (dec_lt (length input) n) [
  | yes short ↦ inl short
  | no long ↦
      let whole = take_append_drop n input in
      inr (
        take n input,
        drop n input,
        length-take n input (omega arith),
        (All-append_split IsByte (take n input) (drop n input) (subst IsBytes (sym whole) h)).0,
        sym whole,
      )
]

abbrev HasPrefix : Bytes → Bytes → Type 0
HasPrefix prefix input = (rest : Bytes) × (input ≡ prefix ++ rest)

dec_prefix :
    (prefix input : Bytes) → HasPrefix prefix input ⊎ ((rest : Bytes) → input ≢ prefix ++ rest)
dec_prefix [] input = inl (input, refl)
dec_prefix (b ∷ prefix) [] = inr (λ rest e. cc)
dec_prefix (b ∷ prefix) (c ∷ input) = elim (ℕ_discrete b c) [
  | yes e ↦ elim (dec_prefix prefix input) [
    | inl (rest, f) ↦ inl (rest, cc)
    | inr other ↦ inr (λ rest f. other rest (cc))
  ]
  | no ne ↦ inr (λ rest f. ne (cc))
]

module _ (p : Platform) where
  pub take-Exact : (n : ℕ) → Exact (p.take n) (λ bs. bs) (λ bs. IsBytes bs × (length bs ≡ n))
  take-Exact n = record {
    complete = λ bs rest v. p.take_ok n bs rest v.1;
    sound = λ input h. elim (enough n input h) [
      | inl short ↦ rw (p.take_eof n input short) fails
      | inr (bs, rest, len, bytes, e) ↦
          rw (e, p.take_ok n bs rest len) (returns ((bytes, len), refl))
    ];
  }

  pub be_uint-Exact : (n : ℕ) → Exact (p.be_uint n) (to_be_bytes n) (λ v. v < 256 ^ n)
  be_uint-Exact n = record {
    complete = λ v rest h.
        p.be_uint_ok n (to_be_bytes n v) rest (to_be_bytes-IsBytes n v) (length-to_be_bytes n v)
        ∙ ap (λ w. ok (rest, w)) (from_be_bytes-to_be_bytes n v h);
    sound = λ input h. elim (enough n input h) [
      | inl short ↦ rw (p.be_uint_eof n input short) fails
      | inr (bs, rest, len, bytes, e) ↦
          rw (e, p.be_uint_ok n bs rest bytes len)
            (returns (
              rw len at (from_be_bytes-lt bs bytes),
              ap (λ xs. xs ++ rest) (sym (rw len at (to_be_bytes-from_be_bytes bs bytes))),
            ))
    ];
  }

  pub be_i64-Exact : Exact p.be_i64 (λ z. to_be_bytes 8 (i64_to_u64 z)) IsI64
  be_i64-Exact = record {
    complete = λ z rest h.
        let n = i64_to_u64 z in
        p.be_i64_ok (to_be_bytes 8 n) rest (to_be_bytes-IsBytes 8 n) (length-to_be_bytes 8 n)
        ∙ ap (λ w. ok (rest, w))
            (ap u64_to_i64 (from_be_bytes-to_be_bytes 8 n (i64_to_u64-lt z h))
              ∙ u64_to_i64-i64_to_u64 z h);
    sound = λ input h. elim (enough 8 input h) [
      | inl short ↦ rw (p.be_i64_eof input short) fails
      | inr (bs, rest, len, bytes, e) ↦
          let (back, range) =
            i64_to_u64-u64_to_i64 (from_be_bytes 0 bs) (rw len at (from_be_bytes-lt bs bytes)) in
          rw (e, p.be_i64_ok bs rest bytes len)
            (returns (
              range,
              ap (λ xs. xs ++ rest)
                  (sym (ap (to_be_bytes 8) back ∙ rw len at (to_be_bytes-from_be_bytes bs bytes))),
            ))
    ];
  }

  pub tag-Exact : (prefix : Bytes) → Exact (p.tag prefix) (λ bs. bs) (λ bs. bs ≡ prefix)
  tag-Exact prefix = record {
    complete = λ bs rest e. rw e (p.tag_ok prefix rest);
    sound = λ input h. elim (dec_prefix prefix input) [
      | inl (rest, e) ↦ rw (e, p.tag_ok prefix rest) (returns (refl, refl))
      | inr other ↦ rw (p.tag_mismatch prefix input other) fails
    ];
  }
