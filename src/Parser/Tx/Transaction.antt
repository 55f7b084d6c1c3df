-- ===== src/Parser/Tx/Transaction.antt =====
-- app/src/parser/transactions.rs: the transaction that a message holds, chosen by its type id and chain,
-- with every feature of the app on.
pub mod Types
pub mod Openings
pub mod Format
pub mod Items
pub mod Message
use ledger_avalanche.Prelude.{ℕ, Bool, not, ◌&&◌, Bytes, ◌==◌, if◌then◌else◌}
use ledger_avalanche.Errors.{
  Result, ok, err, error, Err, ParserError, ◌>>=◌, ◌>>◌, bail_if, map_err, from_nom_err,
  invalid_transaction_type, invalid_codec,
}
use ledger_avalanche.Platform.{Platform, Parser}
use ledger_avalanche.Codec.{take_array}
use ledger_avalanche.Parser.BaseTx.{disable_output_if}
use ledger_avalanche.Parser.Network.{
  AliasLookup, ChainId, x_chain, c_chain, NetworkInfo, chain_id_eq, network_info_try_from,
  blockchain_id_len,
}
use ledger_avalanche.Parser.Coreth.{
  ExportTx, ImportTx, evm_export_tx, evm_import_tx, parse_evm_export, parse_evm_import,
  evm_export_disable_output_if, evm_import_disable_output_if,
}
use ledger_avalanche.Parser.Export.{BaseExport, export_disable_output_if}
use ledger_avalanche.Parser.Import.{BaseImport}
use ledger_avalanche.Parser.Outputs.Chains.{avm_kind, pvm_kind}
use ledger_avalanche.Parser.Outputs.Transferable.{OutputKind}
use ledger_avalanche.Parser.Tx.Assets.{
  OperationTx, CreateAsset, avm_operation_tx, avm_create_asset_tx, parse_operation_tx,
  parse_create_asset, operation_tx_disable_output_if,
}
use ledger_avalanche.Parser.Tx.Moves.{
  avm_import_tx, avm_export_tx, pvm_import_tx, pvm_export_tx, parse_avm_import, parse_avm_export,
  parse_pvm_import, parse_pvm_export,
}
use ledger_avalanche.Parser.Tx.Stake.{
  Staking, AddValidator, pvm_add_validator, pvm_add_delegator, parse_add_validator,
  parse_add_delegator, staking_disable_output_if,
}
use ledger_avalanche.Parser.Tx.Blockchain.{CreateChain, pvm_create_chain, parse_create_chain}
use ledger_avalanche.Parser.Tx.Subnets.{
  CreateSubnet, AddSubnetValidator, pvm_create_subnet, pvm_add_subnet_validator,
  parse_create_subnet, parse_add_subnet_validator,
}
use ledger_avalanche.Parser.Tx.Transfer.{
  Transfer, transfer_tx, parse_transfer, transfer_disable_output_if,
}

-- `Transaction__Type`
pub data TransactionType : Type 0 where
  x_import x_export x_operation p_import p_export c_import c_export transfer x_asset validator
        delegator create_chain create_subnet subnet_validator :
      TransactionType

pub data Transaction : Type 0 where
  x_import : BaseImport → Transaction
  x_export : BaseExport → Transaction
  x_operation : OperationTx → Transaction
  p_import : BaseImport → Transaction
  p_export : BaseExport → Transaction
  c_import : ImportTx → Transaction
  c_export : ExportTx → Transaction
  transfer : Transfer → Transaction
  x_asset : CreateAsset → Transaction
  validator : AddValidator → Transaction
  delegator : Staking → Transaction
  create_chain : CreateChain → Transaction
  create_subnet : CreateSubnet → Transaction
  subnet_validator : AddSubnetValidator → Transaction

-- `Transaction__Type::try_from`, which looks at the type id and the chain.
unfoldable pub transaction_type : ℕ → ChainId → Result ParserError TransactionType
transaction_type n chain =
    if n == pvm_export_tx
    then ok TransactionType.p_export
    else if n == pvm_import_tx
    then ok TransactionType.p_import
    else if n == avm_export_tx
    then ok TransactionType.x_export
    else if n == avm_import_tx
    then ok TransactionType.x_import
    else if n == avm_operation_tx
    then ok TransactionType.x_operation
    else if n == evm_export_tx && chain_id_eq chain c_chain
    then ok TransactionType.c_export
    else if n == evm_import_tx && chain_id_eq chain c_chain
    then ok TransactionType.c_import
    else if n == transfer_tx
    then ok TransactionType.transfer
    else if n == avm_create_asset_tx && chain_id_eq chain x_chain
    then ok TransactionType.x_asset
    else if n == pvm_create_chain
    then ok TransactionType.create_chain
    else if n == pvm_add_delegator
    then ok TransactionType.delegator
    else if n == pvm_create_subnet
    then ok TransactionType.create_subnet
    else if n == pvm_add_validator
    then ok TransactionType.validator
    else if n == pvm_add_subnet_validator
    then ok TransactionType.subnet_validator
    else err invalid_transaction_type

-- A `?` on the parser of a variant, and the variant around its value.
abbrev pub wrapped : {A : Type 0} → Parser A → (A → Transaction) → Parser Transaction
wrapped parse wrap input = parse input >>= λ (rem, a). ok (rem, wrap a)

module _ (p : Platform) (lookup : AliasLookup) where
  -- The type id, the network and the chain, read ahead.
  unfoldable pub peek_transaction_info : Bytes → Result Err (ℕ × NetworkInfo)
  peek_transaction_info input = do
    (rem, raw_tx_id) ← p.be_uint 4 input
    (rem, network_id) ← p.be_uint 4 rem
    (_, blockchain_id) ← take_array p blockchain_id_len rem
    info ← map_err error (network_info_try_from lookup network_id blockchain_id)
    ok (raw_tx_id, info)

  unfoldable pub parse_of_type : TransactionType → Parser Transaction
  parse_of_type TransactionType.x_import = wrapped (parse_avm_import p lookup) Transaction.x_import
  parse_of_type TransactionType.x_export = wrapped (parse_avm_export p lookup) Transaction.x_export
  parse_of_type TransactionType.x_operation =
      wrapped (parse_operation_tx p lookup) Transaction.x_operation
  parse_of_type TransactionType.p_import = wrapped (parse_pvm_import p lookup) Transaction.p_import
  parse_of_type TransactionType.p_export = wrapped (parse_pvm_export p lookup) Transaction.p_export
  parse_of_type TransactionType.c_import = wrapped (parse_evm_import p lookup) Transaction.c_import
  parse_of_type TransactionType.c_export = wrapped (parse_evm_export p lookup) Transaction.c_export
  parse_of_type TransactionType.transfer = wrapped (parse_transfer p) Transaction.transfer
  parse_of_type TransactionType.x_asset = wrapped (parse_create_asset p lookup) Transaction.x_asset
  parse_of_type TransactionType.validator = wrapped (parse_add_validator p) Transaction.validator
  parse_of_type TransactionType.delegator = wrapped (parse_add_delegator p) Transaction.delegator
  parse_of_type TransactionType.create_chain =
      wrapped (parse_create_chain p) Transaction.create_chain
  parse_of_type TransactionType.create_subnet =
      wrapped (parse_create_subnet p) Transaction.create_subnet
  parse_of_type TransactionType.subnet_validator =
      wrapped (parse_add_subnet_validator p) Transaction.subnet_validator

  unfoldable pub parse_transaction : Parser Transaction
  parse_transaction input = do
    (raw_tx_id, info) ← peek_transaction_info input
    t ← map_err error (transaction_type raw_tx_id info.chain_id)
    parse_of_type t input

  -- `Transaction::new_into`. What follows the transaction is not looked at.
  unfoldable pub new_transaction : Bytes → Result ParserError Transaction
  new_transaction input = do
    (rem, codec) ← map_err from_nom_err (p.be_uint 2 input)
    bail_if (not (codec == 0)) invalid_codec
    (_, tx) ← map_err from_nom_err (parse_transaction rem)
    ok tx

module _ (p : Platform) where
  -- `BaseImport::disable_output_if`
  unfoldable pub import_disable_output_if :
      {O : Type 0} → OutputKind O → Bytes → BaseImport → Result Err BaseImport
  import_disable_output_if kind address tx = do
    base_tx ← disable_output_if kind p address tx.base_tx
    ok (record tx { base_tx = base_tx })

  -- `Transaction::disable_output_if`; four types have nothing to hide.
  unfoldable pub transaction_disable_output_if : Bytes → Transaction → Result Err Transaction
  transaction_disable_output_if address (Transaction.x_import tx) = do
    tx' ← import_disable_output_if avm_kind address tx
    ok (Transaction.x_import tx')
  transaction_disable_output_if address (Transaction.x_export tx) = do
    tx' ← export_disable_output_if avm_kind p address tx
    ok (Transaction.x_export tx')
  transaction_disable_output_if address (Transaction.x_operation tx) = do
    tx' ← operation_tx_disable_output_if p address tx
    ok (Transaction.x_operation tx')
  transaction_disable_output_if address (Transaction.p_import tx) = do
    tx' ← import_disable_output_if pvm_kind address tx
    ok (Transaction.p_import tx')
  transaction_disable_output_if address (Transaction.p_export tx) = do
    tx' ← export_disable_output_if pvm_kind p address tx
    ok (Transaction.p_export tx')
  transaction_disable_output_if address (Transaction.transfer tx) = do
    tx' ← transfer_disable_output_if p address tx
    ok (Transaction.transfer tx')
  transaction_disable_output_if address (Transaction.c_import tx) = do
    tx' ← evm_import_disable_output_if p address tx
    ok (Transaction.c_import tx')
  transaction_disable_output_if address (Transaction.c_export tx) = do
    tx' ← evm_export_disable_output_if p address tx
    ok (Transaction.c_export tx')
  transaction_disable_output_if address (Transaction.delegator tx) = do
    tx' ← staking_disable_output_if p address tx
    ok (Transaction.delegator tx')
  transaction_disable_output_if address (Transaction.validator tx) = do
    staking ← staking_disable_output_if p address tx.staking
    ok (Transaction.validator (record tx { staking = staking }))
  transaction_disable_output_if address tx = ok tx
