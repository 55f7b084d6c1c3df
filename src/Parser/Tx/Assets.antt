-- ===== src/Parser/Tx/Assets.antt =====
-- operation_tx.rs and create_asset.rs in app/src/parser/transactions/avm, and
-- app/src/parser/initial_state.rs.
pub mod XHead
pub mod States
pub mod Format
use ledger_avalanche.Prelude.{ℕ, ◌+◌, ◌%◌, Bool, Bytes, ltb, ◌==◌, if◌then◌else◌}
use ledger_avalanche.Errors.{
  map_err, from_nom_err, ok_or, display_idx_out_of_range, Result, ok, err, Err, error, ParserError,
  ◌>>=◌, ◌>>◌, bail_if, unexpected_type, value_out_of_range, invalid_ascii_value,
}
use ledger_avalanche.Platform.{Platform, Parser}
use ledger_avalanche.Parser.BaseTx.{
  Cursor, item_loop, sum_inputs_amount, sum_outputs_amount, checked_sub, force_disable_output,
  base_outputs_num_items,
}
use ledger_avalanche.Parser.Network.{AliasLookup}
use ledger_avalanche.Parser.Objects.{ObjectList, new_into, iterate_with, get_obj_if}
use ledger_avalanche.Parser.Operations.{TransferableOp, parse_transferable_op, operation_num_items}
use ledger_avalanche.Parser.Outputs.Chains.{avm_kind}
use ledger_avalanche.Parser.Outputs.Variants.{parse_avm_output}
use ledger_avalanche.Parser.Tx.Ascii.{any_high}
use ledger_avalanche.Parser.Tx.Head.{Head}
use ledger_avalanche.Parser.Tx.Assets.XHead.{parse_x_head}

abbrev pub avm_create_asset_tx : ℕ
avm_create_asset_tx = 1

abbrev pub avm_operation_tx : ℕ
avm_operation_tx = 2

abbrev pub max_name_len : ℕ
max_name_len = 128

abbrev pub max_symbol_len : ℕ
max_symbol_len = 4

pub data FxId : Type 0 where
  secp256k_asset nft_asset : FxId

pub record InitialState : Type 0 where
  pub id : FxId
  pub outputs : ObjectList

pub record OperationTx : Type 0 where
  pub head : Head
  pub operations : ObjectList

pub record CreateAsset : Type 0 where
  pub head : Head
  pub name : Bytes
  pub sym : Bytes
  pub denomination : ℕ
  pub initial_states : ObjectList

-- `FxId::try_from`
unfoldable pub fx_id_try_from : ℕ → Result Err FxId
fx_id_try_from n =
    if n == 0
    then ok secp256k_asset
    else if n == 1
    then ok nft_asset
    else err (error unexpected_type)

-- The base outputs' sum off that of the inputs, as in `fee` of both.
unfoldable pub base_fee : Platform → Head → Result ParserError ℕ
base_fee p head = do
  inputs ← sum_inputs_amount avm_kind p head.base_tx
  outputs ← sum_outputs_amount avm_kind p head.base_tx
  checked_sub inputs outputs

module _ (p : Platform) where
  unfoldable pub parse_initial_state : Parser InitialState
  parse_initial_state input = do
    (rem, n) ← p.be_uint 4 input
    id ← fx_id_try_from n
    (rem, outputs) ← new_into (parse_avm_output p) p rem
    ok (rem, record { id = id; outputs = outputs })

  unfoldable pub parse_operation_tx : AliasLookup → Parser OperationTx
  parse_operation_tx lookup input = do
    (rem, head) ← parse_x_head p lookup avm_operation_tx input
    (rem, operations) ← new_into (parse_transferable_op p) p rem
    ok (rem, record { head = head; operations = operations })

  -- A length of two bytes, a limit on it, and so many bytes of ASCII.
  unfoldable pub parse_text : ℕ → Parser Bytes
  parse_text limit input = do
    (rem, len) ← p.be_uint 2 input
    bail_if (ltb limit len) (error value_out_of_range)
    (rem, text) ← p.take len rem
    bail_if (any_high text) (error invalid_ascii_value)
    ok (rem, text)

  unfoldable pub parse_create_asset : AliasLookup → Parser CreateAsset
  parse_create_asset lookup input = do
    (rem, head) ← parse_x_head p lookup avm_create_asset_tx input
    (rem, name) ← parse_text max_name_len rem
    (rem, sym) ← parse_text max_symbol_len rem
    (rem, denomination) ← p.be_uint 1 rem
    (rem, states) ← new_into parse_initial_state p rem
    ok (
      rem,
      record {
        head = head;
        name = name;
        sym = sym;
        denomination = denomination;
        initial_states = states;
      },
    )

  unfoldable pub operation_tx_fee : OperationTx → Result ParserError ℕ
  operation_tx_fee tx = base_fee p tx.head

  unfoldable pub create_asset_fee : CreateAsset → Result ParserError ℕ
  create_asset_fee tx = base_fee p tx.head

  unfoldable pub operation_tx_disable_output_if : Bytes → OperationTx → Result Err OperationTx
  operation_tx_disable_output_if address tx = do
    base_tx ← force_disable_output avm_kind p address tx.head.base_tx
    let head : Head = record { tx_header = tx.head.tx_header; base_tx = base_tx }
    ok (record tx { head = head })

  unfoldable pub operation_items : OperationTx → Result Err ℕ
  operation_items tx =
      iterate_with (parse_transferable_op p)
        (λ num_items op. num_items + operation_num_items op.operation) 0 tx.operations

  unfoldable pub operation_tx_num_items : OperationTx → Result Err ℕ
  operation_tx_num_items tx = do
    base ← base_outputs_num_items avm_kind p tx.head.base_tx
    items ← operation_items tx
    ok (1 + base + items + 1)

  unfoldable pub create_asset_num_items : CreateAsset → ℕ
  create_asset_num_items tx = 1 + 1 + 1 + 1 + 1

  -- The closure of `op_with_item`.
  unfoldable pub op_filter : ℕ → Cursor → TransferableOp → Cursor × Bool
  op_filter item_n c op = item_loop item_n (operation_num_items op.operation) 0 c

  -- The operation that holds an item, and the item's number in it, as an `u8`.
  unfoldable pub op_with_item : OperationTx → ℕ → Result ParserError (TransferableOp × ℕ)
  op_with_item tx item_n = do
    (found, c) ← map_err from_nom_err (
        get_obj_if (parse_transferable_op p) (op_filter item_n)
          (record { count = 0; obj_item_n = 0; idx = 0 }) tx.operations)
    op ← ok_or found display_idx_out_of_range
    ok (op, c.obj_item_n % 256)
