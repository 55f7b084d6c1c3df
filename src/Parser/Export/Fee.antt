-- ===== src/Parser/Export/Fee.antt =====
-- The fee of an export against the sums over ℕ.
use ledger_avalanche.Prelude.{ℕ, ◌+◌, ◌≡◌, ◌∙◌, ap, some, arith}
use ledger_avalanche.Errors.{Result, ParserError, ◌>>=◌}
use ledger_avalanche.Platform.{Platform, IsWide}
use ledger_avalanche.Parser.BaseTx.{checked_add, checked_sub}
use ledger_avalanche.Parser.BaseTx.Amounts.{
  total, within_u64, sum_amounts-eq-total, sum_inputs_amount-eq-total, sum_outputs_amount-eq-total,
}
use ledger_avalanche.Parser.BaseTx.Format.{IsInputs, IsOutputs, transferable_output_some_bytes}
use ledger_avalanche.Parser.Inputs.{input_amount}
use ledger_avalanche.Parser.Objects.Walk.{iter-eq-objects}
use ledger_avalanche.Parser.Outputs.Transferable.{
  OutputKind, OutputLaws, parse_transferable_output-Exact, amount,
}
use ledger_avalanche.Parser.Import.Fee.{exact_fee}
use ledger_avalanche.Parser.Export.{BaseExport, sum_export_outputs_amount, export_fee}

abbrev pub fee_of : ℕ → ℕ → ℕ → Result ParserError ℕ
fee_of a b c = within_u64 a >>= λ inputs. within_u64 b >>= λ base.
    within_u64 c >>= λ exported. checked_add base exported >>= λ outputs. checked_sub inputs outputs

pub fee_lem : (a b c : ℕ) → fee_of a b c ≡ exact_fee a (b + c)
unfolding checked_add checked_sub
fee_lem a b c = ground arith

module _ {O : Type 0} {kind : OutputKind O} (laws : OutputLaws O kind) (p : Platform)
    (wide : IsWide p) (tx : BaseExport) where
  -- On a platform where an u32 times a small length does not wrap around, for valid inputs and outputs
  -- that all have amounts, the fee of an export is the inputs less the base outputs and the exported
  -- ones, or `OperationOverflows` where the inputs do not fit an `u64` or the outputs exceed them.
  pub export_fee-eq-exact :
      (inputs : IsInputs laws tx.base_tx.inputs) (base_outputs : IsOutputs laws tx.base_tx.outputs)
      (outputs : IsOutputs laws tx.outputs) (a b c : ℕ)
      → total (λ i. input_amount i.input) inputs.objs ≡ some a
      → total (amount kind) base_outputs.objs ≡ some b
      → total (amount kind) outputs.objs ≡ some c
      → export_fee kind p tx ≡ exact_fee a (b + c)
  unfolding export_fee sum_export_outputs_amount
  export_fee-eq-exact inputs base_outputs outputs a b c ea eb ec =
      rw
        (
          sum_inputs_amount-eq-total laws p wide tx.base_tx inputs a ea,
          sum_outputs_amount-eq-total laws p wide tx.base_tx base_outputs b eb,
          iter-eq-objects (parse_transferable_output-Exact laws p wide)
              (transferable_output_some_bytes laws) tx.outputs outputs.objs outputs.valid
              outputs.bytes,
          sum_amounts-eq-total (amount kind) 0 c outputs.objs (omega arith) ec,
        )
        (ap (fee_of a b) (omega arith) ∙ fee_lem a b c)
