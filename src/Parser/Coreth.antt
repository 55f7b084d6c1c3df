-- ===== src/Parser/Coreth.antt =====
-- app/src/parser/coreth: export_tx.rs and import_tx.rs, the moves of funds off the C-chain and onto it.
pub mod Objects
pub mod Chains
pub mod Limited
pub mod Format
use ledger_avalanche.Prelude.{ℕ, ◌+◌, some, Bytes, length, leb, if◌then◌else◌}
use ledger_avalanche.Errors.{Result, ok, Err, ParserError, ◌>>=◌, map_err, from_nom_err}
use ledger_avalanche.Platform.{Platform, Parser}
use ledger_avalanche.Parser.Bits.{bit_at, flip_bit}
use ledger_avalanche.Parser.BaseTx.{
  checked_sub, sum_amounts, bytes_eq, disabled_mask, count_step, output_idx_max,
}
use ledger_avalanche.Parser.Inputs.{parse_transferable_input, input_amount}
use ledger_avalanche.Parser.Network.{AliasLookup, Header}
use ledger_avalanche.Parser.Objects.{ObjectList, new_into, iter, iterate_with}
use ledger_avalanche.Parser.Outputs.Transferable.{parse_transferable_output, amount}
use ledger_avalanche.Parser.Coreth.Objects.{
  EvmInput, EvmOutput, parse_evm_input, parse_evm_output, evm_output_num_items, e_kind,
}
use ledger_avalanche.Parser.Coreth.Chains.{parse_chains}
use ledger_avalanche.Parser.Coreth.Limited.{parse_limited}

abbrev pub evm_import_tx : ℕ
evm_import_tx = 0

abbrev pub evm_export_tx : ℕ
evm_export_tx = 1

pub record ExportTx : Type 0 where
  pub tx_header : Header
  pub destination_chain : Bytes
  pub inputs : ObjectList
  pub outputs : ObjectList
  pub renderable_out : ℕ

pub record ImportTx : Type 0 where
  pub tx_header : Header
  pub source_chain : Bytes
  pub inputs : ObjectList
  pub outputs : ObjectList
  pub renderable_out : ℕ

module _ (p : Platform) where
  unfoldable pub parse_evm_export : AliasLookup → Parser ExportTx
  parse_evm_export lookup input = do
    (rem, (tx_header, destination_chain)) ← parse_chains p lookup evm_export_tx input
    (rem, inputs) ← new_into (parse_evm_input p) p rem
    (rem, outputs) ← parse_limited (parse_transferable_output e_kind p) p rem
    ok (
      rem,
      record {
        tx_header = tx_header;
        destination_chain = destination_chain;
        inputs = inputs;
        outputs = outputs;
        renderable_out = output_idx_max;
      },
    )

  unfoldable pub parse_evm_import : AliasLookup → Parser ImportTx
  parse_evm_import lookup input = do
    (rem, (tx_header, source_chain)) ← parse_chains p lookup evm_import_tx input
    (rem, inputs) ← new_into (parse_transferable_input p) p rem
    (rem, outputs) ← parse_limited (parse_evm_output p) p rem
    ok (
      rem,
      record {
        tx_header = tx_header;
        source_chain = source_chain;
        inputs = inputs;
        outputs = outputs;
        renderable_out = output_idx_max;
      },
    )

  -- The sums, and `fee` of the two.
  unfoldable pub evm_inputs_sum : ExportTx → Result ParserError ℕ
  evm_inputs_sum tx = do
    inputs ← map_err from_nom_err (iter (parse_evm_input p) tx.inputs)
    sum_amounts (λ i. some (EvmInput.amount i)) 0 inputs

  unfoldable pub e_outputs_sum : ExportTx → Result ParserError ℕ
  e_outputs_sum tx = do
    outputs ← map_err from_nom_err (iter (parse_transferable_output e_kind p) tx.outputs)
    sum_amounts (amount e_kind) 0 outputs

  unfoldable pub evm_export_fee : ExportTx → Result ParserError ℕ
  evm_export_fee tx = do
    inputs ← evm_inputs_sum tx
    outputs ← e_outputs_sum tx
    checked_sub inputs outputs

  unfoldable pub utxo_inputs_sum : ImportTx → Result ParserError ℕ
  utxo_inputs_sum tx = do
    inputs ← map_err from_nom_err (iter (parse_transferable_input p) tx.inputs)
    sum_amounts (λ i. input_amount i.input) 0 inputs

  unfoldable pub evm_outputs_sum : ImportTx → Result ParserError ℕ
  evm_outputs_sum tx = do
    outputs ← map_err from_nom_err (iter (parse_evm_output p) tx.outputs)
    sum_amounts (λ o. some (EvmOutput.amount o)) 0 outputs

  unfoldable pub evm_import_fee : ImportTx → Result ParserError ℕ
  evm_import_fee tx = do
    inputs ← utxo_inputs_sum tx
    outputs ← evm_outputs_sum tx
    checked_sub inputs outputs

  unfoldable pub evm_export_disable_output_if : Bytes → ExportTx → Result Err ExportTx
  evm_export_disable_output_if address tx = do
    outputs ← iter (parse_transferable_output e_kind p) tx.outputs
    render ←
        if leb (length outputs) 1
        then ok tx.renderable_out
        else disabled_mask e_kind p address tx.outputs tx.renderable_out
    ok (record tx { renderable_out = render })

  -- The closure of `disable_output_if`, with its `render` and `idx`.
  unfoldable pub import_disable_step : Bytes → ℕ × ℕ → EvmOutput → ℕ × ℕ
  import_disable_step address (render, idx) o =
      (if bytes_eq o.address address then flip_bit render idx else render, idx + 1)

  unfoldable pub evm_import_disable_output_if : Bytes → ImportTx → Result Err ImportTx
  evm_import_disable_output_if address tx = do
    outputs ← iter (parse_evm_output p) tx.outputs
    (render, _) ←
        if leb (length outputs) 1
        then ok (tx.renderable_out, 0)
        else iterate_with (parse_evm_output p) (import_disable_step address) (tx.renderable_out, 0)
            tx.outputs
    ok (record tx { renderable_out = render })

  unfoldable pub e_outputs_items : ExportTx → Result Err ℕ
  e_outputs_items tx = do
    (items, _) ←
        iterate_with (parse_transferable_output e_kind p) (count_step e_kind p tx.renderable_out)
          (0, 0) tx.outputs
    ok items

  unfoldable pub evm_export_num_items : ExportTx → Result Err ℕ
  evm_export_num_items tx = do items ← e_outputs_items tx; ok (1 + items + 1)

  -- The closure of `num_output_items`.
  unfoldable pub import_count_step : ℕ → ℕ × ℕ → EvmOutput → ℕ × ℕ
  import_count_step mask (items, idx) o =
      (if bit_at mask idx then items + evm_output_num_items o else items, idx + 1)

  unfoldable pub evm_outputs_items : ImportTx → Result Err ℕ
  evm_outputs_items tx = do
    (items, _) ←
        iterate_with (parse_evm_output p) (import_count_step tx.renderable_out) (0, 0) tx.outputs
    ok items

  unfoldable pub evm_import_num_items : ImportTx → Result Err ℕ
  evm_import_num_items tx = do items ← evm_outputs_items tx; ok (1 + items + 1 + 1)
