-- ===== src/Parser/BaseTx/Amounts.antt =====
-- The sums of amounts against sums over ℕ: what `checked_add` and `checked_sub` let through.
use ledger_avalanche.Prelude.{
  ℕ, ◌+◌, ◌^◌, ◌<◌, ◌≡◌, ap, ◌∙◌, true, false, Option, some, none, List, [], ◌∷◌, ltb,
  if◌then◌else◌, arith, Bool-cases, inl, inr, Option-cases,
}
use ledger_avalanche.Errors.{Result, ok, err, ParserError, operation_overflows}
use ledger_avalanche.Platform.{Platform, IsWide}
use ledger_avalanche.Parser.Inputs.{parse_transferable_input-Exact, input_amount}
use ledger_avalanche.Parser.Objects.Walk.{iter-eq-objects}
use ledger_avalanche.Parser.Outputs.Transferable.{
  OutputKind, OutputLaws, parse_transferable_output-Exact, amount,
}
use ledger_avalanche.Parser.BaseTx.{
  BaseTxFields, checked_add, sum_amounts, sum_inputs_amount, sum_outputs_amount,
}
use ledger_avalanche.Parser.BaseTx.Format.{
  IsInputs, IsOutputs, transferable_input_some_bytes, transferable_output_some_bytes,
}

-- The sum over ℕ, if every item has an amount.
abbrev pub total : {A : Type 0} → (A → Option ℕ) → List A → Option ℕ
total value [] = some 0
total value (a ∷ rest) = elim (value a) [
  | none ↦ none
  | some x ↦ elim (total value rest) [ none ↦ none | some t ↦ some (x + t) ]
]

-- A number that fits an `u64`, or the overflow error.
abbrev pub within_u64 : ℕ → Result ParserError ℕ
within_u64 n = if ltb n (2 ^ 64) then ok n else err operation_overflows

total_parts :
    {A : Type 0} (value : A → Option ℕ) (t : ℕ) (a : A) (rest : List A)
    → total value (a ∷ rest) ≡ some t
    → (x : ℕ) × (u : ℕ) × (value a ≡ some x) × (total value rest ≡ some u) × (t ≡ x + u)
total_parts value t a rest e = elim (Option-cases (value a)) [
  | inl missing ↦ cc (rw (missing, total) at e)
  | inr (x, ex) ↦ elim (Option-cases (total value rest)) [
    | inl missing ↦ cc (rw (ex, missing, total) at e)
    | inr (u, eu) ↦ (x, u, ex, eu, ground arith)
  ]
]

too_much : (acc x u : ℕ) → ltb (acc + x) (2 ^ 64) ≡ false → ltb (acc + (x + u)) (2 ^ 64) ≡ false
too_much acc x u h = ground arith

fits : (n : ℕ) → ltb n (2 ^ 64) ≡ true → n < 2 ^ 64
fits n h = ground arith

pub sum_amounts-eq-total :
    {A : Type 0} (value : A → Option ℕ) (acc t : ℕ) (items : List A)
    → acc < 2 ^ 64
    → total value items ≡ some t
    → sum_amounts value acc items ≡ within_u64 (acc + t)
unfolding sum_amounts checked_add
sum_amounts-eq-total value acc t [] h e = ground arith
sum_amounts-eq-total value acc t (a ∷ rest) h e =
    let (x, u, ex, eu, et) = total_parts value t a rest e in
    elim (Bool-cases (ltb (acc + x) (2 ^ 64))) [
      | inl small ↦
          rw (ex, small)
            (sum_amounts-eq-total value (acc + x) u rest (fits (acc + x) small) eu
              ∙ ap within_u64 (omega (arith, et)))
      | inr large ↦ rw (ex, large, et, too_much acc x u large)
    ]

module _ {O : Type 0} {kind : OutputKind O} (laws : OutputLaws O kind) (p : Platform)
    (wide : IsWide p) (tx : BaseTxFields) where
  -- On a platform where an u32 times a small length does not wrap around, and for a list of valid
  -- inputs, `sum_inputs_amount` is the sum of their amounts over ℕ, or `OperationOverflows` where the
  -- sum does not fit an `u64`.
  pub sum_inputs_amount-eq-total :
      (inputs : IsInputs laws tx.inputs) (t : ℕ)
      → total (λ i. input_amount i.input) inputs.objs ≡ some t
      → sum_inputs_amount kind p tx ≡ within_u64 t
  unfolding sum_inputs_amount
  sum_inputs_amount-eq-total inputs t e =
      rw
        (iter-eq-objects (parse_transferable_input-Exact p wide) transferable_input_some_bytes
          tx.inputs inputs.objs inputs.valid inputs.bytes)
        (sum_amounts-eq-total _ 0 t inputs.objs (omega arith) e ∙ ap within_u64 (omega arith))

  -- So is the sum of the outputs, if every output has an amount.
  pub sum_outputs_amount-eq-total :
      (outputs : IsOutputs laws tx.outputs) (t : ℕ)
      → total (amount kind) outputs.objs ≡ some t
      → sum_outputs_amount kind p tx ≡ within_u64 t
  unfolding sum_outputs_amount
  sum_outputs_amount-eq-total outputs t e =
      rw
        (iter-eq-objects (parse_transferable_output-Exact laws p wide)
          (transferable_output_some_bytes laws) tx.outputs outputs.objs outputs.valid outputs.bytes)
        (sum_amounts-eq-total _ 0 t outputs.objs (omega arith) e ∙ ap within_u64 (omega arith))
