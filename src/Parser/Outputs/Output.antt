-- ===== src/Parser/Outputs/Output.antt =====
-- The `Output` enum of app/src/parser/outputs.rs, and the subset of it that app/src/parser/avm_output.rs
-- accepts.
use ledger_avalanche.Prelude.{ℕ, refl, Option, some, none, List, Bytes}
use ledger_avalanche.Errors.{ok, ◌>>=◌}
use ledger_avalanche.Platform.{Platform, Parser, IsWide}
use ledger_avalanche.Codec.{Exact, Exact-map}
use ledger_avalanche.Parser.Outputs.Secp.{
  SecpTransferOutput, SecpMintOutput, SecpOutputOwners, parse_secp_transfer, parse_secp_mint,
  parse_secp_owners, encode_secp_transfer, encode_secp_mint, encode_secp_owners, IsSecpTransfer,
  IsSecpMint, IsSecpOwners, parse_secp_transfer-Exact, parse_secp_mint-Exact,
  parse_secp_owners-Exact, secp_transfer_num_items, secp_mint_num_items, secp_owners_num_items,
}
use ledger_avalanche.Parser.Outputs.Nft.{
  NftTransferOutput, NftMintOutput, parse_nft_transfer, parse_nft_mint, encode_nft_transfer,
  encode_nft_mint, IsNftTransfer, IsNftMint, parse_nft_transfer-Exact, parse_nft_mint-Exact,
  nft_transfer_num_items, nft_mint_num_items,
}

pub data OutputType : Type 0 where
  secp_transfer secp_mint nft_transfer nft_mint secp_owners : OutputType

pub data Output : Type 0 where
  secp_transfer : SecpTransferOutput → Output
  secp_mint : SecpMintOutput → Output
  nft_transfer : NftTransferOutput → Output
  nft_mint : NftMintOutput → Output
  secp_owners : SecpOutputOwners → Output

-- `Output::from_bytes`
unfoldable pub parse_output : Platform → OutputType → Parser Output
parse_output p OutputType.secp_transfer =
    λ input. do (rem, o) ← parse_secp_transfer p input; ok (rem, Output.secp_transfer o)
parse_output p OutputType.secp_mint =
    λ input. do (rem, o) ← parse_secp_mint p input; ok (rem, Output.secp_mint o)
parse_output p OutputType.nft_transfer =
    λ input. do (rem, o) ← parse_nft_transfer p input; ok (rem, Output.nft_transfer o)
parse_output p OutputType.nft_mint =
    λ input. do (rem, o) ← parse_nft_mint p input; ok (rem, Output.nft_mint o)
parse_output p OutputType.secp_owners =
    λ input. do (rem, o) ← parse_secp_owners p input; ok (rem, Output.secp_owners o)

-- The addresses of the variant, for `num_addresses` and `get_address`.
unfoldable pub output_addresses : Output → List Bytes
output_addresses (Output.secp_transfer o) = o.addresses
output_addresses (Output.secp_mint o) = o.addresses
output_addresses (Output.nft_transfer o) = o.addresses
output_addresses (Output.nft_mint o) = o.addresses
output_addresses (Output.secp_owners o) = o.addresses

unfoldable pub output_amount : Output → Option ℕ
output_amount (Output.secp_transfer o) = some o.amount
output_amount _ = none

unfoldable pub output_num_items : Output → ℕ
output_num_items (Output.secp_transfer o) = secp_transfer_num_items o
output_num_items (Output.secp_mint o) = secp_mint_num_items o
output_num_items (Output.nft_transfer o) = nft_transfer_num_items o
output_num_items (Output.nft_mint o) = nft_mint_num_items o
output_num_items (Output.secp_owners o) = secp_owners_num_items o

unfoldable pub encode_output : Output → Bytes
encode_output (Output.secp_transfer o) = encode_secp_transfer o
encode_output (Output.secp_mint o) = encode_secp_mint o
encode_output (Output.nft_transfer o) = encode_nft_transfer o
encode_output (Output.nft_mint o) = encode_nft_mint o
encode_output (Output.secp_owners o) = encode_secp_owners o

abbrev pub output_type : Output → OutputType
output_type (Output.secp_transfer o) = OutputType.secp_transfer
output_type (Output.secp_mint o) = OutputType.secp_mint
output_type (Output.nft_transfer o) = OutputType.nft_transfer
output_type (Output.nft_mint o) = OutputType.nft_mint
output_type (Output.secp_owners o) = OutputType.secp_owners

-- An output of the given variant with fields in range.
abbrev pub IsOutput : OutputType → Output → Type 0
IsOutput OutputType.secp_transfer (Output.secp_transfer o) = IsSecpTransfer o
IsOutput OutputType.secp_mint (Output.secp_mint o) = IsSecpMint o
IsOutput OutputType.nft_transfer (Output.nft_transfer o) = IsNftTransfer o
IsOutput OutputType.nft_mint (Output.nft_mint o) = IsNftMint o
IsOutput OutputType.secp_owners (Output.secp_owners o) = IsSecpOwners o
IsOutput _ _ = ⊥

module _ (p : Platform) (wide : IsWide p) where
  pub parse_output-Exact : (t : OutputType) → Exact (parse_output p t) encode_output (IsOutput t)
  unfolding parse_output encode_output
  parse_output-Exact OutputType.secp_transfer =
      Exact-map (parse_secp_transfer-Exact p wide) Output.secp_transfer encode_output
        (IsOutput OutputType.secp_transfer) (λ o. refl) (λ o v. v)
        (elim [ Output.secp_transfer o ↦ λ v. (o, refl, v) | _ ↦ λ v. absurd v ])
  parse_output-Exact OutputType.secp_mint =
      Exact-map (parse_secp_mint-Exact p wide) Output.secp_mint encode_output
        (IsOutput OutputType.secp_mint) (λ o. refl) (λ o v. v)
        (elim [ Output.secp_mint o ↦ λ v. (o, refl, v) | _ ↦ λ v. absurd v ])
  parse_output-Exact OutputType.nft_transfer =
      Exact-map (parse_nft_transfer-Exact p wide) Output.nft_transfer encode_output
        (IsOutput OutputType.nft_transfer) (λ o. refl) (λ o v. v)
        (elim [ Output.nft_transfer o ↦ λ v. (o, refl, v) | _ ↦ λ v. absurd v ])
  parse_output-Exact OutputType.nft_mint =
      Exact-map (parse_nft_mint-Exact p wide) Output.nft_mint encode_output
        (IsOutput OutputType.nft_mint) (λ o. refl) (λ o v. v)
        (elim [ Output.nft_mint o ↦ λ v. (o, refl, v) | _ ↦ λ v. absurd v ])
  parse_output-Exact OutputType.secp_owners =
      Exact-map (parse_secp_owners-Exact p wide) Output.secp_owners encode_output
        (IsOutput OutputType.secp_owners) (λ o. refl) (λ o v. v)
        (elim [ Output.secp_owners o ↦ λ v. (o, refl, v) | _ ↦ λ v. absurd v ])
