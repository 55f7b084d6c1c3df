-- ===== src/Parser/Operations.antt =====
-- app/src/parser/operations.rs and app/src/parser/operations: the operations of the X-chain.
pub mod Format
use ledger_avalanche.Prelude.{ℕ, ◌+◌, List, Bytes, ◌==◌, if◌then◌else◌}
use ledger_avalanche.Errors.{Result, ok, err, Err, error, ◌>>=◌, apdu_unwrap, invalid_type_id}
use ledger_avalanche.Platform.{Platform, Parser}
use ledger_avalanche.Codec.{take_arrays}
use ledger_avalanche.Parser.Ids.{UtxoId, parse_asset_id, parse_utxo_id}
use ledger_avalanche.Parser.Objects.{ObjectList, new_into}
use ledger_avalanche.Parser.Outputs.Nft.{
  NftTransferOutput, into_without_type, nft_transfer_num_items,
}
use ledger_avalanche.Parser.Outputs.Secp.{
  SecpMintOutput, SecpTransferOutput, parse_secp_mint, parse_secp_transfer, secp_transfer_num_items,
}
use ledger_avalanche.Parser.Tx.Head.{parse_tagged}

abbrev pub secp_mint_op_id : ℕ
secp_mint_op_id = 8

abbrev pub nft_mint_op_id : ℕ
nft_mint_op_id = 0x0c

abbrev pub nft_transfer_op_id : ℕ
nft_transfer_op_id = 0x0d

pub record SecpMintOperation : Type 0 where
  pub address_indices : List Bytes
  pub mint_output : SecpMintOutput
  pub transfer_output : SecpTransferOutput

-- `NFTMintOperation` and `NFTTransferOperation` have the same fields.
pub record NftOperation : Type 0 where
  pub address_indices : List Bytes
  pub nft_output : NftTransferOutput

pub data OpType : Type 0 where
  secp_mint_op nft_transfer_op nft_mint_op : OpType

pub data Operation : Type 0 where
  secp_mint : SecpMintOperation → Operation
  nft_transfer nft_mint : NftOperation → Operation

pub record TransferableOp : Type 0 where
  pub asset_id : Bytes
  pub utx_id : ObjectList
  pub operation : Operation

-- `OpType::try_from`
unfoldable pub op_type : ℕ → Result Err OpType
op_type n =
    if n == secp_mint_op_id
    then ok OpType.secp_mint_op
    else if n == nft_mint_op_id
    then ok OpType.nft_mint_op
    else if n == nft_transfer_op_id
    then ok OpType.nft_transfer_op
    else err (error invalid_type_id)

module _ (p : Platform) where
  unfoldable pub parse_indices : Parser (List Bytes)
  parse_indices input = do
    (rem, num_indices) ← p.be_uint 4 input
    (rem, cast) ← take_arrays p num_indices 4 rem
    indices ← apdu_unwrap cast
    ok (rem, indices)

  -- What follows the type id.
  unfoldable pub secp_mint_op_body : Parser SecpMintOperation
  secp_mint_op_body input = do
    (rem, indices) ← parse_indices input
    (rem, mint_output) ← parse_secp_mint p rem
    (rem, transfer_output) ← parse_secp_transfer p rem
    ok (
      rem,
      record {
        address_indices = indices;
        mint_output = mint_output;
        transfer_output = transfer_output;
      },
    )

  unfoldable pub nft_op_body : Parser NftOperation
  nft_op_body input = do
    (rem, indices) ← parse_indices input
    (rem, nft_output) ← into_without_type p rem
    ok (rem, record { address_indices = indices; nft_output = nft_output })

  unfoldable pub parse_secp_mint_op : Parser SecpMintOperation
  parse_secp_mint_op = parse_tagged p secp_mint_op_id secp_mint_op_body

  unfoldable pub parse_nft_mint_op : Parser NftOperation
  parse_nft_mint_op = parse_tagged p nft_mint_op_id nft_op_body

  unfoldable pub parse_nft_transfer_op : Parser NftOperation
  parse_nft_transfer_op = parse_tagged p nft_transfer_op_id nft_op_body

  unfoldable pub parse_op_of_type : OpType → Parser Operation
  parse_op_of_type OpType.secp_mint_op =
      λ input. do (rem, o) ← parse_secp_mint_op input; ok (rem, Operation.secp_mint o)
  parse_op_of_type OpType.nft_mint_op =
      λ input. do (rem, o) ← parse_nft_mint_op input; ok (rem, Operation.nft_mint o)
  parse_op_of_type OpType.nft_transfer_op =
      λ input. do (rem, o) ← parse_nft_transfer_op input; ok (rem, Operation.nft_transfer o)

  -- `Operation::from_bytes_into`, which looks at the type id ahead of the operation.
  unfoldable pub parse_operation : Parser Operation
  parse_operation input = do (_, id) ← p.be_uint 4 input; t ← op_type id; parse_op_of_type t input

  unfoldable pub parse_transferable_op : Parser TransferableOp
  parse_transferable_op input = do
    (rem, asset_id) ← parse_asset_id p input
    (rem, utx_id) ← new_into (parse_utxo_id p) p rem
    (rem, operation) ← parse_operation rem
    ok (rem, record { asset_id = asset_id; utx_id = utx_id; operation = operation })

-- The description of the operation, and its items.
unfoldable pub operation_num_items : Operation → ℕ
operation_num_items (Operation.secp_mint o) = 1 + (1 + secp_transfer_num_items o.transfer_output)
operation_num_items (Operation.nft_transfer o) = 1 + nft_transfer_num_items o.nft_output
operation_num_items (Operation.nft_mint o) = 1 + nft_transfer_num_items o.nft_output
