-- ===== src/Parser/Import/Fee.antt =====
-- The fee of an import against the sums over ℕ.
use ledger_avalanche.Prelude.{
  ℕ, ◌+◌, ◌-◌, ◌^◌, ◌≡◌, ◌∙◌, ap, ◌&&◌, some, ltb, leb, if◌then◌else◌, arith,
}
use ledger_avalanche.Errors.{Result, ok, err, ParserError, ◌>>=◌, operation_overflows}
use ledger_avalanche.Platform.{Platform, IsWide}
use ledger_avalanche.Parser.BaseTx.{checked_add, checked_sub}
use ledger_avalanche.Parser.BaseTx.Amounts.{
  total, within_u64, sum_amounts-eq-total, sum_inputs_amount-eq-total, sum_outputs_amount-eq-total,
}
use ledger_avalanche.Parser.BaseTx.Format.{IsInputs, IsOutputs, transferable_input_some_bytes}
use ledger_avalanche.Parser.Inputs.{parse_transferable_input-Exact, input_amount}
use ledger_avalanche.Parser.Objects.Walk.{iter-eq-objects}
use ledger_avalanche.Parser.Outputs.Transferable.{OutputKind, OutputLaws, amount}
use ledger_avalanche.Parser.Import.{BaseImport, import_inputs_amount, import_fee}

-- `a - b`, if `a` fits an `u64` and `b` is at most `a`.
abbrev pub exact_fee : ℕ → ℕ → Result ParserError ℕ
exact_fee a b = if ltb a (2 ^ 64) && leb b a then ok (a - b) else err operation_overflows

fee_lem :
    (a b c : ℕ)
    → (within_u64 a >>= λ base. within_u64 b >>= λ imported. checked_add imported base)
        >>= (λ i. within_u64 c >>= λ o. checked_sub i o)
      ≡ exact_fee (a + b) c
unfolding checked_add checked_sub
fee_lem a b c = ground arith

module _ {O : Type 0} {kind : OutputKind O} (laws : OutputLaws O kind) (p : Platform)
    (wide : IsWide p) (tx : BaseImport) where
  -- On a platform where an u32 times a small length does not wrap around, for valid inputs and outputs
  -- that all have amounts, the fee of an import is the base inputs and the imported ones less the
  -- outputs, or `OperationOverflows` where the inputs do not fit an `u64` or the outputs exceed them.
  pub import_fee-eq-exact :
      (base_inputs : IsInputs laws tx.base_tx.inputs) (inputs : IsInputs laws tx.inputs)
      (outputs : IsOutputs laws tx.base_tx.outputs) (a b c : ℕ)
      → total (λ i. input_amount i.input) base_inputs.objs ≡ some a
      → total (λ i. input_amount i.input) inputs.objs ≡ some b
      → total (amount kind) outputs.objs ≡ some c
      → import_fee kind p tx ≡ exact_fee (a + b) c
  unfolding import_fee import_inputs_amount
  import_fee-eq-exact base_inputs inputs outputs a b c ea eb ec =
      rw
        (
          sum_inputs_amount-eq-total laws p wide tx.base_tx base_inputs a ea,
          iter-eq-objects (parse_transferable_input-Exact p wide) transferable_input_some_bytes
              tx.inputs inputs.objs inputs.valid inputs.bytes,
          sum_amounts-eq-total (λ i. input_amount i.input) 0 b inputs.objs (omega arith) eb,
          sum_outputs_amount-eq-total laws p wide tx.base_tx outputs c ec,
        )
        (ap
            (λ n.
              (within_u64 a >>= λ base. within_u64 n >>= λ imported. checked_add imported base)
              >>= (λ i. within_u64 c >>= λ o. checked_sub i o))
            (omega arith)
          ∙ fee_lem a b c)
