-- ===== src/Parser/Tx/Stake/Fee.antt =====
-- The fee of the staking transactions against the sums over ℕ.
use ledger_avalanche.Prelude.{ℕ, ◌+◌, ◌≡◌, some}
use ledger_avalanche.Platform.{Platform, IsWide}
use ledger_avalanche.Parser.BaseTx.Amounts.{
  total, sum_inputs_amount-eq-total, sum_outputs_amount-eq-total,
}
use ledger_avalanche.Parser.BaseTx.Format.{IsInputs, IsOutputs}
use ledger_avalanche.Parser.Export.Fee.{fee_lem}
use ledger_avalanche.Parser.Import.Fee.{exact_fee}
use ledger_avalanche.Parser.Inputs.{input_amount}
use ledger_avalanche.Parser.Outputs.Chains.{pvm_kind, pvm_laws}
use ledger_avalanche.Parser.Outputs.Transferable.{amount}
use ledger_avalanche.Parser.Tx.Stake.{Staking, staking_fee}
use ledger_avalanche.Parser.Tx.Stake.Sums.{present_total, sum_stake_outputs_amount-eq-total}

-- On a platform where an u32 times a small length does not wrap around, for valid inputs and base
-- outputs that all have amounts and a valid stake, the fee of a staking transaction is the inputs less
-- the base outputs and the amounts that the stake has, or `OperationOverflows` where the inputs do not
-- fit an `u64` or the outputs exceed them.
pub staking_fee-eq-exact :
    (p : Platform) (wide : IsWide p) (tx : Staking)
    (inputs : IsInputs pvm_laws tx.head.base_tx.inputs)
    (base_outputs : IsOutputs pvm_laws tx.head.base_tx.outputs)
    (stake : IsOutputs pvm_laws tx.stake) (a b : ℕ)
    → total (λ i. input_amount i.input) inputs.objs ≡ some a
    → total (amount pvm_kind) base_outputs.objs ≡ some b
    → staking_fee p tx ≡ exact_fee a (b + present_total (amount pvm_kind) stake.objs)
unfolding staking_fee
staking_fee-eq-exact p wide tx inputs base_outputs stake a b ea eb =
    rw
      (
        sum_inputs_amount-eq-total pvm_laws p wide tx.head.base_tx inputs a ea,
        sum_outputs_amount-eq-total pvm_laws p wide tx.head.base_tx base_outputs b eb,
        sum_stake_outputs_amount-eq-total p wide tx.stake stake,
      )
      (fee_lem a b (present_total (amount pvm_kind) stake.objs))
