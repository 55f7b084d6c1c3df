-- ===== src/Parser/Tx/Transaction/Openings.antt =====
-- The encodings of the transactions of app/src/parser/transactions.rs, each of which opens with its type
-- id and its header.
use ledger_avalanche.Prelude.{◌≡◌, refl, Bytes, ◌++◌, append_assoc, to_be_bytes}
use ledger_avalanche.Platform.{Platform, IsWide}
use ledger_avalanche.Parser.Coreth.{evm_import_tx, evm_export_tx}
use ledger_avalanche.Parser.Coreth.Chains.{encode_chains}
use ledger_avalanche.Parser.Coreth.Format.{
  IsExportTx, IsImportTx, encode_evm_export, encode_evm_import,
}
use ledger_avalanche.Parser.Export.Format.{IsExport, encode_export}
use ledger_avalanche.Parser.Import.Format.{IsImport, encode_import}
use ledger_avalanche.Parser.Network.{AliasLookup, Header, IsHeader, encode_header}
use ledger_avalanche.Parser.Outputs.Chains.{avm_laws, pvm_laws}
use ledger_avalanche.Parser.Tx.Head.{encode_head}
use ledger_avalanche.Parser.Tx.Assets.{avm_operation_tx, avm_create_asset_tx}
use ledger_avalanche.Parser.Tx.Assets.Format.{
  IsOperationTx, IsCreateAsset, encode_operation_tx, encode_create_asset,
}
use ledger_avalanche.Parser.Tx.Moves.{
  avm_import_tx, avm_export_tx, pvm_import_tx, pvm_export_tx, IsPvmExport,
}
use ledger_avalanche.Parser.Tx.Stake.{pvm_add_validator, pvm_add_delegator}
use ledger_avalanche.Parser.Tx.Stake.Format.{
  IsStaking, IsAddValidator, encode_staking, encode_add_validator,
}
use ledger_avalanche.Parser.Tx.Blockchain.{pvm_create_chain, IsCreateChain, encode_create_chain}
use ledger_avalanche.Parser.Tx.Subnets.{
  pvm_create_subnet, pvm_add_subnet_validator, IsCreateSubnet, IsAddSubnetValidator,
  encode_create_subnet, encode_add_subnet_validator,
}
use ledger_avalanche.Parser.Tx.Transaction.{TransactionType, Transaction}
use ledger_avalanche.Parser.Tx.Transaction.Types.{type_id}
use ledger_avalanche.Parser.Tx.Transfer.{IsTransfer, encode_transfer}

abbrev pub header_of : Transaction → Header
header_of (Transaction.x_import tx) = tx.tx_header
header_of (Transaction.x_export tx) = tx.tx_header
header_of (Transaction.x_operation tx) = tx.head.tx_header
header_of (Transaction.p_import tx) = tx.tx_header
header_of (Transaction.p_export tx) = tx.tx_header
header_of (Transaction.c_import tx) = tx.tx_header
header_of (Transaction.c_export tx) = tx.tx_header
header_of (Transaction.transfer tx) = tx.head.tx_header
header_of (Transaction.x_asset tx) = tx.head.tx_header
header_of (Transaction.validator tx) = tx.staking.head.tx_header
header_of (Transaction.delegator tx) = tx.head.tx_header
header_of (Transaction.create_chain tx) = tx.head.tx_header
header_of (Transaction.create_subnet tx) = tx.head.tx_header
header_of (Transaction.subnet_validator tx) = tx.head.tx_header

abbrev pub type_of : Transaction → TransactionType
type_of (Transaction.x_import tx) = TransactionType.x_import
type_of (Transaction.x_export tx) = TransactionType.x_export
type_of (Transaction.x_operation tx) = TransactionType.x_operation
type_of (Transaction.p_import tx) = TransactionType.p_import
type_of (Transaction.p_export tx) = TransactionType.p_export
type_of (Transaction.c_import tx) = TransactionType.c_import
type_of (Transaction.c_export tx) = TransactionType.c_export
type_of (Transaction.transfer tx) = TransactionType.transfer
type_of (Transaction.x_asset tx) = TransactionType.x_asset
type_of (Transaction.validator tx) = TransactionType.validator
type_of (Transaction.delegator tx) = TransactionType.delegator
type_of (Transaction.create_chain tx) = TransactionType.create_chain
type_of (Transaction.create_subnet tx) = TransactionType.create_subnet
type_of (Transaction.subnet_validator tx) = TransactionType.subnet_validator

-- The bytes start with others, and more follow.
abbrev pub Opens : Bytes → Bytes → Bytes → Type 0
Opens bytes id header = (more : Bytes) × (bytes ≡ id ++ (header ++ more))

Opens-append : (bytes id header s : Bytes) → Opens bytes id header → Opens (bytes ++ s) id header
Opens-append bytes id header s (more, e) = (more ++ s, simp (e, append_assoc))

module _ (p : Platform) (wide : IsWide p) (lookup : AliasLookup) where
  unfoldable pub encode_transaction : Transaction → Bytes
  encode_transaction (Transaction.x_import tx) =
      to_be_bytes 4 avm_import_tx ++ encode_import avm_laws p wide lookup tx
  encode_transaction (Transaction.x_export tx) =
      to_be_bytes 4 avm_export_tx ++ encode_export avm_laws p wide lookup tx
  encode_transaction (Transaction.x_operation tx) = encode_operation_tx p wide lookup tx
  encode_transaction (Transaction.p_import tx) =
      to_be_bytes 4 pvm_import_tx ++ encode_import pvm_laws p wide lookup tx
  encode_transaction (Transaction.p_export tx) =
      to_be_bytes 4 pvm_export_tx ++ encode_export pvm_laws p wide lookup tx
  encode_transaction (Transaction.c_import tx) = encode_evm_import p wide lookup tx
  encode_transaction (Transaction.c_export tx) = encode_evm_export p wide lookup tx
  encode_transaction (Transaction.transfer tx) = encode_transfer p wide tx
  encode_transaction (Transaction.x_asset tx) = encode_create_asset p wide lookup tx
  encode_transaction (Transaction.validator tx) = encode_add_validator p wide tx
  encode_transaction (Transaction.delegator tx) = encode_staking p wide pvm_add_delegator tx
  encode_transaction (Transaction.create_chain tx) = encode_create_chain p wide tx
  encode_transaction (Transaction.create_subnet tx) = encode_create_subnet p wide tx
  encode_transaction (Transaction.subnet_validator tx) = encode_add_subnet_validator p wide tx

  abbrev pub IsOfType : TransactionType → Transaction → Type 0
  IsOfType TransactionType.x_import (Transaction.x_import tx) = IsImport avm_laws p wide lookup tx
  IsOfType TransactionType.x_export (Transaction.x_export tx) = IsExport avm_laws p wide lookup tx
  IsOfType TransactionType.x_operation (Transaction.x_operation tx) = IsOperationTx p wide lookup tx
  IsOfType TransactionType.p_import (Transaction.p_import tx) = IsImport pvm_laws p wide lookup tx
  IsOfType TransactionType.p_export (Transaction.p_export tx) = IsPvmExport p wide lookup tx
  IsOfType TransactionType.c_import (Transaction.c_import tx) = IsImportTx p wide lookup tx
  IsOfType TransactionType.c_export (Transaction.c_export tx) = IsExportTx p wide lookup tx
  IsOfType TransactionType.transfer (Transaction.transfer tx) = IsTransfer p wide tx
  IsOfType TransactionType.x_asset (Transaction.x_asset tx) = IsCreateAsset p wide lookup tx
  IsOfType TransactionType.validator (Transaction.validator tx) = IsAddValidator p wide tx
  IsOfType TransactionType.delegator (Transaction.delegator tx) = IsStaking p wide tx
  IsOfType TransactionType.create_chain (Transaction.create_chain tx) = IsCreateChain p wide tx
  IsOfType TransactionType.create_subnet (Transaction.create_subnet tx) = IsCreateSubnet p wide tx
  IsOfType TransactionType.subnet_validator (Transaction.subnet_validator tx) =
      IsAddSubnetValidator p wide tx
  IsOfType _ _ = ⊥

  pub header_of-IsHeader :
      (t : TransactionType) (tx : Transaction) → IsOfType t tx → IsHeader (header_of tx)
  header_of-IsHeader TransactionType.x_import (Transaction.x_import tx) v = v.tx_header
  header_of-IsHeader TransactionType.x_export (Transaction.x_export tx) v = v.tx_header
  header_of-IsHeader TransactionType.x_operation (Transaction.x_operation tx) v =
      v.head.head.tx_header
  header_of-IsHeader TransactionType.p_import (Transaction.p_import tx) v = v.tx_header
  header_of-IsHeader TransactionType.p_export (Transaction.p_export tx) v = v.base_export.tx_header
  header_of-IsHeader TransactionType.c_import (Transaction.c_import tx) v = v.chains.tx_header
  header_of-IsHeader TransactionType.c_export (Transaction.c_export tx) v = v.chains.tx_header
  header_of-IsHeader TransactionType.transfer (Transaction.transfer tx) v = v.head.tx_header
  header_of-IsHeader TransactionType.x_asset (Transaction.x_asset tx) v = v.head.head.tx_header
  header_of-IsHeader TransactionType.validator (Transaction.validator tx) v =
      v.staking.head.tx_header
  header_of-IsHeader TransactionType.delegator (Transaction.delegator tx) v = v.head.tx_header
  header_of-IsHeader TransactionType.create_chain (Transaction.create_chain tx) v = v.head.tx_header
  header_of-IsHeader TransactionType.create_subnet (Transaction.create_subnet tx) v =
      v.head.tx_header
  header_of-IsHeader TransactionType.subnet_validator (Transaction.subnet_validator tx) v =
      v.head.tx_header
  header_of-IsHeader _ _ v = absurd v

  pub type_of-IsOfType : (t : TransactionType) (tx : Transaction) → IsOfType t tx → t ≡ type_of tx
  type_of-IsOfType TransactionType.x_import (Transaction.x_import tx) v = refl
  type_of-IsOfType TransactionType.x_export (Transaction.x_export tx) v = refl
  type_of-IsOfType TransactionType.x_operation (Transaction.x_operation tx) v = refl
  type_of-IsOfType TransactionType.p_import (Transaction.p_import tx) v = refl
  type_of-IsOfType TransactionType.p_export (Transaction.p_export tx) v = refl
  type_of-IsOfType TransactionType.c_import (Transaction.c_import tx) v = refl
  type_of-IsOfType TransactionType.c_export (Transaction.c_export tx) v = refl
  type_of-IsOfType TransactionType.transfer (Transaction.transfer tx) v = refl
  type_of-IsOfType TransactionType.x_asset (Transaction.x_asset tx) v = refl
  type_of-IsOfType TransactionType.validator (Transaction.validator tx) v = refl
  type_of-IsOfType TransactionType.delegator (Transaction.delegator tx) v = refl
  type_of-IsOfType TransactionType.create_chain (Transaction.create_chain tx) v = refl
  type_of-IsOfType TransactionType.create_subnet (Transaction.create_subnet tx) v = refl
  type_of-IsOfType TransactionType.subnet_validator (Transaction.subnet_validator tx) v = refl
  type_of-IsOfType _ _ v = absurd v

  pub opening :
      (tx : Transaction)
      → Opens
          (encode_transaction tx)
          (to_be_bytes 4 (type_id (type_of tx)))
          (encode_header (header_of tx))
  unfolding encode_transaction encode_head encode_chains encode_import encode_export
      encode_operation_tx encode_create_asset encode_evm_export encode_evm_import encode_transfer
      encode_staking encode_add_validator encode_create_chain encode_create_subnet
      encode_add_subnet_validator
  opening (Transaction.x_import tx) = (_, refl)
  opening (Transaction.x_export tx) = (_, refl)
  opening (Transaction.x_operation tx) =
      Opens-append (encode_head avm_laws p wide avm_operation_tx tx.head)
        (to_be_bytes 4 avm_operation_tx) (encode_header tx.head.tx_header) _ (_, refl)
  opening (Transaction.p_import tx) = (_, refl)
  opening (Transaction.p_export tx) = (_, refl)
  opening (Transaction.c_import tx) =
      Opens-append (encode_chains evm_import_tx (tx.tx_header, tx.source_chain))
        (to_be_bytes 4 evm_import_tx) (encode_header tx.tx_header) _ (_, refl)
  opening (Transaction.c_export tx) =
      Opens-append (encode_chains evm_export_tx (tx.tx_header, tx.destination_chain))
        (to_be_bytes 4 evm_export_tx) (encode_header tx.tx_header) _ (_, refl)
  opening (Transaction.transfer tx) = (_, refl)
  opening (Transaction.x_asset tx) =
      Opens-append (encode_head avm_laws p wide avm_create_asset_tx tx.head)
        (to_be_bytes 4 avm_create_asset_tx) (encode_header tx.head.tx_header) _ (_, refl)
  opening (Transaction.validator tx) =
      Opens-append (encode_staking p wide pvm_add_validator tx.staking)
        (to_be_bytes 4 pvm_add_validator) (encode_header tx.staking.head.tx_header) _
        (Opens-append (encode_head pvm_laws p wide pvm_add_validator tx.staking.head)
          (to_be_bytes 4 pvm_add_validator) (encode_header tx.staking.head.tx_header) _ (_, refl))
  opening (Transaction.delegator tx) =
      Opens-append (encode_head pvm_laws p wide pvm_add_delegator tx.head)
        (to_be_bytes 4 pvm_add_delegator) (encode_header tx.head.tx_header) _ (_, refl)
  opening (Transaction.create_chain tx) =
      Opens-append (encode_head pvm_laws p wide pvm_create_chain tx.head)
        (to_be_bytes 4 pvm_create_chain) (encode_header tx.head.tx_header) _ (_, refl)
  opening (Transaction.create_subnet tx) =
      Opens-append (encode_head pvm_laws p wide pvm_create_subnet tx.head)
        (to_be_bytes 4 pvm_create_subnet) (encode_header tx.head.tx_header) _ (_, refl)
  opening (Transaction.subnet_validator tx) =
      Opens-append (encode_head pvm_laws p wide pvm_add_subnet_validator tx.head)
        (to_be_bytes 4 pvm_add_subnet_validator) (encode_header tx.head.tx_header) _ (_, refl)
