-- ===== src/Parser/Export.antt =====
-- app/src/parser/transactions/base_export.rs: the export of funds to another chain.
pub mod Format
pub mod Fee
use ledger_avalanche.Prelude.{ℕ, Bytes, List, length, ltb, leb, if◌then◌else◌}
use ledger_avalanche.Errors.{
  Result, ok, Err, error, ParserError, ◌>>=◌, ◌>>◌, bail_if, map_err, from_nom_err,
  invalid_transaction_type, too_many_outputs,
}
use ledger_avalanche.Platform.{Platform, Parser}
use ledger_avalanche.Codec.{take_array}
use ledger_avalanche.Parser.BaseTx.{
  BaseTxFields, parse_base_tx, checked_add, checked_sub, sum_amounts, sum_inputs_amount,
  sum_outputs_amount, output_idx_bits, output_idx_max, disabled_mask, disable_output_if, count_step,
}
use ledger_avalanche.Handlers.UiMessage.{ViewError}
use ledger_avalanche.Parser.BaseTx.LateLoop.{output_with_item}
use ledger_avalanche.Parser.Network.{
  AliasLookup, Header, parse_header, header_chain_id, chain_id_try_from, chain_id_eq,
  blockchain_id_len,
}
use ledger_avalanche.Parser.Objects.{ObjectList, new_into, iter, iterate_with}
use ledger_avalanche.Parser.Outputs.Transferable.{
  OutputKind, TransferableOutput, parse_transferable_output, amount,
}

pub record BaseExport : Type 0 where
  pub tx_header : Header
  pub base_tx : BaseTxFields
  pub destination_chain : Bytes
  pub outputs : ObjectList
  pub renderable_out : ℕ

module _ {O : Type 0} (kind : OutputKind O) (p : Platform) where
  unfoldable pub parse_base_export : AliasLookup → Parser BaseExport
  parse_base_export lookup input = do
    (rem, tx_header) ← parse_header p input
    (rem, base_tx) ← parse_base_tx kind p rem
    (rem, destination_chain) ← take_array p blockchain_id_len rem
    base_chain_id ← map_err error (header_chain_id lookup tx_header)
    dest_chain_id ← map_err error (chain_id_try_from lookup destination_chain)
    bail_if (chain_id_eq dest_chain_id base_chain_id) (error invalid_transaction_type)
    (_, num_outputs) ← p.be_uint 4 rem
    bail_if (ltb output_idx_bits num_outputs) (error too_many_outputs)
    (rem, outputs) ← new_into (parse_transferable_output kind p) p rem
    ok (
      rem,
      record {
        tx_header = tx_header;
        base_tx = base_tx;
        destination_chain = destination_chain;
        outputs = outputs;
        renderable_out = output_idx_max;
      },
    )

  -- `BaseExport::disable_output_if`: the base outputs, and its own unless there is only one.
  unfoldable pub export_disable_output_if : Bytes → BaseExport → Result Err BaseExport
  export_disable_output_if change tx = do
    base_tx ← disable_output_if kind p change tx.base_tx
    outputs ← iter (parse_transferable_output kind p) tx.outputs
    render ←
        if leb (length outputs) 1
        then ok tx.renderable_out
        else disabled_mask kind p change tx.outputs tx.renderable_out
    ok (record tx { base_tx = base_tx; renderable_out = render })

  unfoldable pub sum_export_outputs_amount : BaseExport → Result ParserError ℕ
  sum_export_outputs_amount tx = do
    outputs ← map_err from_nom_err (iter (parse_transferable_output kind p) tx.outputs)
    sum_amounts (amount kind) 0 outputs

  unfoldable pub export_fee : BaseExport → Result ParserError ℕ
  export_fee tx = do
    inputs ← sum_inputs_amount kind p tx.base_tx
    base_outputs ← sum_outputs_amount kind p tx.base_tx
    export_outputs ← sum_export_outputs_amount tx
    total_outputs ← checked_add base_outputs export_outputs
    checked_sub inputs total_outputs

  unfoldable pub num_outputs_items : BaseExport → Result Err ℕ
  num_outputs_items tx = do
    (items, _) ←
        iterate_with (parse_transferable_output kind p) (count_step kind p tx.renderable_out) (0, 0)
          tx.outputs
    ok items

  -- `BaseExport::get_output_with_item`
  unfoldable pub get_output_with_item : BaseExport → ℕ → Result ViewError (TransferableOutput O × ℕ)
  get_output_with_item tx = output_with_item kind p ViewError.no_data tx.renderable_out tx.outputs
