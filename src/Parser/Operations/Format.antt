-- ===== src/Parser/Operations/Format.antt =====
-- The formats of the operations.
use ledger_avalanche.Prelude.{
  ℕ, ◌<◌, ◌≡◌, refl, some, List, Bytes, IsU32, length, flatten, ◌++◌, ◌==◌, append_assoc,
  length-append, to_be_bytes, arith,
}
use ledger_avalanche.Errors.{ok, returns, fails, Ensures, Ensures-if, Ensures-bind, Ensures-weaken}
use ledger_avalanche.Platform.{Platform, IsWide}
use ledger_avalanche.Codec.{
  Exact, Exact-then, Exact-map, reads, be_uint-Exact, take_arrays-Exact, IsArrays, IsArray,
}
use ledger_avalanche.Parser.Ids.{
  UtxoId, IsUtxoId, encode_utxo_id, parse_utxo_id, parse_utxo_id-Exact, asset_id_len,
  parse_asset_id-Exact,
}
use ledger_avalanche.Parser.Objects.{new_into}
use ledger_avalanche.Parser.Objects.Format.{IsObjectList, encode_objects, new_into-Exact}
use ledger_avalanche.Parser.Outputs.Nft.{
  IsNftTransfer, encode_without_type, into_without_type-Exact,
}
use ledger_avalanche.Parser.Outputs.Secp.{
  IsSecpMint, IsSecpTransfer, encode_secp_mint, encode_secp_transfer, parse_secp_mint-Exact,
  parse_secp_transfer-Exact,
}
use ledger_avalanche.Parser.Outputs.Variants.{peek_tag}
use ledger_avalanche.Parser.Tx.Head.{parse_tagged-Exact}
use ledger_avalanche.Parser.Operations.{
  SecpMintOperation, NftOperation, OpType, Operation, TransferableOp, op_type, parse_indices,
  secp_mint_op_body, nft_op_body, parse_secp_mint_op, parse_nft_mint_op, parse_nft_transfer_op,
  parse_op_of_type, parse_operation, parse_transferable_op, secp_mint_op_id, nft_mint_op_id,
  nft_transfer_op_id,
}

pub record IsIndices (xs : List Bytes) : Type 0 where
  pub count : IsU32 (length xs)
  pub indices : IsArrays 4 xs

unfoldable pub encode_indices : List Bytes → Bytes
encode_indices indices = to_be_bytes 4 (length indices) ++ flatten indices

pub record IsSecpMintOp (o : SecpMintOperation) : Type 0 where
  pub address_indices : IsIndices o.address_indices
  pub mint_output : IsSecpMint o.mint_output
  pub transfer_output : IsSecpTransfer o.transfer_output

unfoldable pub encode_secp_mint_op : SecpMintOperation → Bytes
encode_secp_mint_op o =
    encode_indices o.address_indices
    ++ (encode_secp_mint o.mint_output ++ encode_secp_transfer o.transfer_output)

pub record IsNftOp (o : NftOperation) : Type 0 where
  pub address_indices : IsIndices o.address_indices
  pub nft_output : IsNftTransfer o.nft_output

unfoldable pub encode_nft_op : NftOperation → Bytes
encode_nft_op o = encode_indices o.address_indices ++ encode_without_type o.nft_output

abbrev pub IsOperation : OpType → Operation → Type 0
IsOperation OpType.secp_mint_op (Operation.secp_mint o) = IsSecpMintOp o
IsOperation OpType.nft_transfer_op (Operation.nft_transfer o) = IsNftOp o
IsOperation OpType.nft_mint_op (Operation.nft_mint o) = IsNftOp o
IsOperation _ _ = ⊥

unfoldable pub encode_operation : Operation → Bytes
encode_operation (Operation.secp_mint o) = to_be_bytes 4 secp_mint_op_id ++ encode_secp_mint_op o
encode_operation (Operation.nft_transfer o) = to_be_bytes 4 nft_transfer_op_id ++ encode_nft_op o
encode_operation (Operation.nft_mint o) = to_be_bytes 4 nft_mint_op_id ++ encode_nft_op o

abbrev op_id : OpType → ℕ
op_id OpType.secp_mint_op = secp_mint_op_id
op_id OpType.nft_transfer_op = nft_transfer_op_id
op_id OpType.nft_mint_op = nft_mint_op_id

op_type_id : (t : OpType) → op_type (op_id t) ≡ ok t
unfolding op_type
op_type_id OpType.secp_mint_op = refl
op_type_id OpType.nft_transfer_op = refl
op_type_id OpType.nft_mint_op = refl

op_type-Ensures : (n : ℕ) → Ensures {0, 0} (λ _. Unit) (op_type n)
unfolding op_type
op_type-Ensures n =
    Ensures-if (n == secp_mint_op_id) (λ _. returns tt)
      λ _.
        Ensures-if (n == nft_mint_op_id) (λ _. returns tt)
          λ _. Ensures-if (n == nft_transfer_op_id) (λ _. returns tt) (λ _. fails)

pub utxo_id_some_bytes : (u : UtxoId) → IsUtxoId u → 0 < length (encode_utxo_id u)
unfolding encode_utxo_id
utxo_id_some_bytes u v = rw length-append (omega (arith, v.tx_id.len))

module _ (p : Platform) where
  op_peek :
      (t : OpType) (o : Operation) (rest : Bytes)
      → IsOperation t o
      → (r : Bytes) × (p.be_uint 4 (encode_operation o ++ rest) ≡ ok (r, op_id t))
  unfolding encode_operation
  op_peek OpType.secp_mint_op (Operation.secp_mint o) rest v =
      peek_tag p secp_mint_op_id _ rest (omega arith)
  op_peek OpType.nft_transfer_op (Operation.nft_transfer o) rest v =
      peek_tag p nft_transfer_op_id _ rest (omega arith)
  op_peek OpType.nft_mint_op (Operation.nft_mint o) rest v =
      peek_tag p nft_mint_op_id _ rest (omega arith)
  op_peek _ _ rest v = absurd v

  module _ (wide : IsWide p) where
    pub parse_indices-Exact : Exact (parse_indices p) encode_indices IsIndices
    unfolding parse_indices encode_indices
    parse_indices-Exact = record {
      complete = λ xs rest v. simp (
        append_assoc,
        reads (be_uint-Exact p 4) (length xs) v.count,
        reads (take_arrays-Exact p wide (length xs) 4 v.count (omega arith) (omega arith)) (some xs)
            (xs, refl, v.indices, refl),
      );
      sound = λ input h. Exact-then (be_uint-Exact p 4) input h _ λ count r₁ vc h₁ e₁.
          Exact-then (take_arrays-Exact p wide count 4 vc (omega arith) (omega arith)) r₁ h₁ _
            λ cast r₂ (indices, ec, vi, len) _ e₂. rw ec (
              returns
                (record { count = rw len vc; indices = vi }, simp (e₁, e₂, ec, len, append_assoc)));
    }

    secp_mint_op_body-Exact : Exact (secp_mint_op_body p) encode_secp_mint_op IsSecpMintOp
    unfolding secp_mint_op_body encode_secp_mint_op
    secp_mint_op_body-Exact = record {
      complete = λ o rest v. simp (
        append_assoc,
        reads parse_indices-Exact o.address_indices v.address_indices,
        reads (parse_secp_mint-Exact p wide) o.mint_output v.mint_output,
        reads (parse_secp_transfer-Exact p wide) o.transfer_output v.transfer_output,
      );
      sound = λ input h. Exact-then parse_indices-Exact input h _ λ indices r₁ vi h₁ e₁.
          Exact-then (parse_secp_mint-Exact p wide) r₁ h₁ _ λ mint r₂ vm h₂ e₂.
            Exact-then (parse_secp_transfer-Exact p wide) r₂ h₂ _ λ transfer r₃ vt _ e₃. returns (
              record { address_indices = vi; mint_output = vm; transfer_output = vt },
              simp (e₁, e₂, e₃, append_assoc),
            );
    }

    nft_op_body-Exact : Exact (nft_op_body p) encode_nft_op IsNftOp
    unfolding nft_op_body encode_nft_op
    nft_op_body-Exact = record {
      complete = λ o rest v. simp (
        append_assoc,
        reads parse_indices-Exact o.address_indices v.address_indices,
        reads (into_without_type-Exact p wide) o.nft_output v.nft_output,
      );
      sound = λ input h. Exact-then parse_indices-Exact input h _ λ indices r₁ vi h₁ e₁.
          Exact-then (into_without_type-Exact p wide) r₁ h₁ _ λ output r₂ vo _ e₂.
            returns (record { address_indices = vi; nft_output = vo }, simp (e₁, e₂, append_assoc));
    }

    op_of_type-Exact : (t : OpType) → Exact (parse_op_of_type p t) encode_operation (IsOperation t)
    unfolding parse_op_of_type encode_operation parse_secp_mint_op parse_nft_mint_op
        parse_nft_transfer_op
    op_of_type-Exact OpType.secp_mint_op =
        Exact-map (parse_tagged-Exact p secp_mint_op_id secp_mint_op_body-Exact) Operation.secp_mint
          encode_operation (IsOperation OpType.secp_mint_op) (λ o. refl) (λ o v. v)
          (elim [ Operation.secp_mint o ↦ λ v. (o, refl, v) | _ ↦ λ v. absurd v ])
    op_of_type-Exact OpType.nft_transfer_op =
        Exact-map (parse_tagged-Exact p nft_transfer_op_id nft_op_body-Exact) Operation.nft_transfer
          encode_operation (IsOperation OpType.nft_transfer_op) (λ o. refl) (λ o v. v)
          (elim [ Operation.nft_transfer o ↦ λ v. (o, refl, v) | _ ↦ λ v. absurd v ])
    op_of_type-Exact OpType.nft_mint_op =
        Exact-map (parse_tagged-Exact p nft_mint_op_id nft_op_body-Exact) Operation.nft_mint
          encode_operation (IsOperation OpType.nft_mint_op) (λ o. refl) (λ o v. v)
          (elim [ Operation.nft_mint o ↦ λ v. (o, refl, v) | _ ↦ λ v. absurd v ])

    abbrev pub IsSomeOperation : Operation → Type 0
    IsSomeOperation o = (t : OpType) × IsOperation t o

    pub parse_operation-Exact : Exact (parse_operation p) encode_operation IsSomeOperation
    unfolding parse_operation
    parse_operation-Exact = record {
      complete = λ o rest (t, v).
          rw ((op_peek t o rest v).1, op_type_id t) ((op_of_type-Exact t).complete o rest v);
      sound = λ input h. Exact-then (be_uint-Exact p 4) input h _ λ n _ _ _ _.
          Ensures-bind (op_type-Ensures n) λ t _.
            Ensures-weaken ((op_of_type-Exact t).sound input h) λ (rest, o) (v, e). ((t, v), e);
    }

    pub record IsTransferableOp (o : TransferableOp) : Type 0 where
      pub asset_id : IsArray asset_id_len o.asset_id
      pub utx_id : IsObjectList encode_utxo_id IsUtxoId o.utx_id
      pub operation : IsSomeOperation o.operation

    unfoldable pub encode_transferable_op : TransferableOp → Bytes
    encode_transferable_op o =
        o.asset_id ++ (encode_objects (parse_utxo_id p) o.utx_id ++ encode_operation o.operation)

    utxo_ids-Exact :
        Exact
          (new_into (parse_utxo_id p) p)
          (encode_objects (parse_utxo_id p))
          (IsObjectList encode_utxo_id IsUtxoId)
    utxo_ids-Exact = new_into-Exact (parse_utxo_id-Exact p) utxo_id_some_bytes p

    pub parse_transferable_op-Exact :
        Exact (parse_transferable_op p) encode_transferable_op IsTransferableOp
    unfolding parse_transferable_op encode_transferable_op
    parse_transferable_op-Exact = record {
      complete = λ o rest v. simp (
        append_assoc,
        reads (parse_asset_id-Exact p) o.asset_id v.asset_id,
        reads utxo_ids-Exact o.utx_id v.utx_id,
        reads parse_operation-Exact o.operation v.operation,
      );
      sound = λ input h. Exact-then (parse_asset_id-Exact p) input h _ λ asset_id r₁ va h₁ e₁.
          Exact-then utxo_ids-Exact r₁ h₁ _ λ utx_id r₂ vu h₂ e₂.
            Exact-then parse_operation-Exact r₂ h₂ _ λ operation r₃ vo _ e₃. returns (
              record { asset_id = va; utx_id = vu; operation = vo },
              simp (e₁, e₂, e₃, append_assoc),
            );
    }

    pub transferable_op_some_bytes :
        (o : TransferableOp) → IsTransferableOp o → 0 < length (encode_transferable_op o)
    unfolding encode_transferable_op
    transferable_op_some_bytes o v = rw length-append (omega (arith, v.asset_id.len))
