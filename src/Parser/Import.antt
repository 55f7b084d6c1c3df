-- ===== src/Parser/Import.antt =====
-- app/src/parser/transactions/base_import.rs: the import of funds from another chain.
pub mod Format
pub mod Fee
use ledger_avalanche.Prelude.{ℕ, Bool, Option, List, Bytes}
use ledger_avalanche.Errors.{
  Result, ok, error, ParserError, ◌>>=◌, ◌>>◌, bail_if, map_err, from_nom_err,
  invalid_transaction_type,
}
use ledger_avalanche.Platform.{Platform, Parser}
use ledger_avalanche.Codec.{take_array}
use ledger_avalanche.Parser.BaseTx.{
  BaseTxFields, parse_base_tx, checked_add, checked_sub, sum_amounts, sum_inputs_amount,
  sum_outputs_amount,
}
use ledger_avalanche.Parser.Inputs.{parse_transferable_input, input_amount}
use ledger_avalanche.Parser.Network.{
  AliasLookup, Header, parse_header, header_chain_id, chain_id_try_from, chain_id_eq,
  blockchain_id_len,
}
use ledger_avalanche.Parser.Objects.{ObjectList, new_into, iter}
use ledger_avalanche.Parser.Outputs.Transferable.{OutputKind}

pub record BaseImport : Type 0 where
  pub tx_header : Header
  pub base_tx : BaseTxFields
  pub source_chain : Bytes
  pub inputs : ObjectList

module _ {O : Type 0} (kind : OutputKind O) (p : Platform) where
  unfoldable pub parse_base_import : AliasLookup → Parser BaseImport
  parse_base_import lookup input = do
    (rem, tx_header) ← parse_header p input
    (rem, base_tx) ← parse_base_tx kind p rem
    (rem, source_chain) ← take_array p blockchain_id_len rem
    base_chain_id ← map_err error (header_chain_id lookup tx_header)
    dest_chain_id ← map_err error (chain_id_try_from lookup source_chain)
    bail_if (chain_id_eq dest_chain_id base_chain_id) (error invalid_transaction_type)
    (rem, inputs) ← new_into (parse_transferable_input p) p rem
    ok (
      rem,
      record {
        tx_header = tx_header;
        base_tx = base_tx;
        source_chain = source_chain;
        inputs = inputs;
      },
    )

  -- `BaseImport::sum_inputs_amount`: the inputs of the base fields and those of the import.
  unfoldable pub import_inputs_amount : BaseImport → Result ParserError ℕ
  import_inputs_amount tx = do
    base_inputs ← sum_inputs_amount kind p tx.base_tx
    inputs ← map_err from_nom_err (iter (parse_transferable_input p) tx.inputs)
    import_inputs ← sum_amounts (λ i. input_amount i.input) 0 inputs
    checked_add import_inputs base_inputs

  unfoldable pub import_fee : BaseImport → Result ParserError ℕ
  import_fee tx = do
    inputs ← import_inputs_amount tx
    outputs ← sum_outputs_amount kind p tx.base_tx
    checked_sub inputs outputs
