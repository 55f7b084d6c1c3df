-- ===== src/Parser/Tx/Transaction/Items.antt =====
-- The number of items that a transaction shows, and the fees of the transactions with base outputs only:
-- app/src/parser/transactions.rs and the transactions it chooses from.
use ledger_avalanche.Prelude.{ℕ, ◌+◌, Bool, true, false}
use ledger_avalanche.Errors.{Result, ok, Err, ParserError, ◌>>=◌}
use ledger_avalanche.Platform.{Platform}
use ledger_avalanche.Parser.BaseTx.{
  base_outputs_num_items, sum_inputs_amount, sum_outputs_amount, checked_sub,
}
use ledger_avalanche.Parser.Coreth.{evm_export_num_items, evm_import_num_items}
use ledger_avalanche.Parser.Export.{BaseExport, num_outputs_items}
use ledger_avalanche.Parser.Import.{BaseImport}
use ledger_avalanche.Parser.Outputs.Chains.{avm_kind, pvm_kind}
use ledger_avalanche.Parser.Outputs.Secp.{secp_owners_num_items}
use ledger_avalanche.Parser.Outputs.Transferable.{OutputKind}
use ledger_avalanche.Parser.Tx.Head.{Head}
use ledger_avalanche.Parser.Tx.Assets.{operation_tx_num_items, create_asset_num_items}
use ledger_avalanche.Parser.Tx.Stake.{add_delegator_num_items, add_validator_num_items}
use ledger_avalanche.Parser.Tx.Blockchain.{CreateChain}
use ledger_avalanche.Parser.Tx.Subnets.{CreateSubnet, AddSubnetValidator}
use ledger_avalanche.Parser.Tx.Transaction.{Transaction}
use ledger_avalanche.Parser.Tx.Transfer.{transfer_num_items}

-- A description, the validator's four items, the subnet and the fee.
unfoldable pub subnet_validator_num_items : AddSubnetValidator → ℕ
subnet_validator_num_items tx = 1 + 4 + 1 + 1

unfoldable pub create_chain_num_items : CreateChain → ℕ
create_chain_num_items tx = 1 + 4 + 1

unfoldable pub create_subnet_num_items : CreateSubnet → ℕ
create_subnet_num_items tx = 1 + secp_owners_num_items tx.owners + 1

-- `Transaction::is_eth`
unfoldable pub is_eth : Transaction → Bool
is_eth (Transaction.c_export tx) = true
is_eth (Transaction.c_import tx) = true
is_eth tx = false

module _ (p : Platform) where
  subnet_fee : Head → Result ParserError ℕ
  subnet_fee head = do
    inputs ← sum_inputs_amount pvm_kind p head.base_tx
    outputs ← sum_outputs_amount pvm_kind p head.base_tx
    checked_sub inputs outputs

  unfoldable pub create_subnet_fee : CreateSubnet → Result ParserError ℕ
  unfolding subnet_fee
  create_subnet_fee tx = subnet_fee tx.head

  unfoldable pub create_chain_fee : CreateChain → Result ParserError ℕ
  unfolding subnet_fee
  create_chain_fee tx = subnet_fee tx.head

  unfoldable pub subnet_validator_fee : AddSubnetValidator → Result ParserError ℕ
  unfolding subnet_fee
  subnet_validator_fee tx = subnet_fee tx.head

  -- `num_items` of the imports and exports of the two chains.
  unfoldable pub export_num_items : {O : Type 0} → OutputKind O → BaseExport → Result Err ℕ
  export_num_items kind tx = do items ← num_outputs_items kind p tx; ok (1 + items + 1)

  unfoldable pub import_num_items : {O : Type 0} → OutputKind O → BaseImport → Result Err ℕ
  import_num_items kind tx = do
    items ← base_outputs_num_items kind p tx.base_tx
    ok (1 + items + 1 + 1)

  -- `Transaction::num_items`
  unfoldable pub transaction_num_items : Transaction → Result Err ℕ
  transaction_num_items (Transaction.x_import tx) = import_num_items avm_kind tx
  transaction_num_items (Transaction.x_export tx) = export_num_items avm_kind tx
  transaction_num_items (Transaction.x_operation tx) = operation_tx_num_items p tx
  transaction_num_items (Transaction.p_import tx) = import_num_items pvm_kind tx
  transaction_num_items (Transaction.p_export tx) = export_num_items pvm_kind tx
  transaction_num_items (Transaction.c_import tx) = evm_import_num_items p tx
  transaction_num_items (Transaction.c_export tx) = evm_export_num_items p tx
  transaction_num_items (Transaction.transfer tx) = transfer_num_items p tx
  transaction_num_items (Transaction.x_asset tx) = ok (create_asset_num_items p tx)
  transaction_num_items (Transaction.validator tx) = add_validator_num_items p tx
  transaction_num_items (Transaction.subnet_validator tx) = ok (subnet_validator_num_items tx)
  transaction_num_items (Transaction.delegator tx) = add_delegator_num_items p tx
  transaction_num_items (Transaction.create_chain tx) = ok (create_chain_num_items tx)
  transaction_num_items (Transaction.create_subnet tx) = ok (create_subnet_num_items tx)
