-- ===== src/Parser/Tx/Assets/Format.antt =====
-- The formats of the operation transaction and of the creation of an asset.
use ledger_avalanche.Prelude.{Bytes, ◌++◌, ◌<◌, ◌^◌, append_assoc, to_be_bytes, arith}
use ledger_avalanche.Errors.{returns}
use ledger_avalanche.Platform.{Platform, IsWide}
use ledger_avalanche.Codec.{Exact, Exact-then, reads, be_uint-Exact}
use ledger_avalanche.Parser.Network.{AliasLookup}
use ledger_avalanche.Parser.Objects.{ObjectList, new_into}
use ledger_avalanche.Parser.Objects.Format.{IsObjectList, encode_objects, new_into-Exact}
use ledger_avalanche.Parser.Operations.{parse_transferable_op}
use ledger_avalanche.Parser.Operations.Format.{
  encode_transferable_op, IsTransferableOp, parse_transferable_op-Exact, transferable_op_some_bytes,
}
use ledger_avalanche.Parser.Outputs.Chains.{avm_laws}
use ledger_avalanche.Parser.Tx.Head.{encode_head}
use ledger_avalanche.Parser.Tx.Assets.{
  OperationTx, CreateAsset, avm_operation_tx, avm_create_asset_tx, max_name_len, max_symbol_len,
  parse_operation_tx, parse_create_asset, parse_initial_state,
}
use ledger_avalanche.Parser.Tx.Assets.XHead.{IsXHead, parse_x_head-Exact}
use ledger_avalanche.Parser.Tx.Assets.States.{
  IsInitialState, encode_initial_state, parse_initial_state-Exact, initial_state_some_bytes, IsText,
  encode_text, parse_text-Exact,
}

module _ (p : Platform) (wide : IsWide p) (lookup : AliasLookup) where
  abbrev IsOperations : ObjectList → Type 0
  IsOperations = IsObjectList (encode_transferable_op p wide) (IsTransferableOp p wide)

  transferable_ops-Exact :
      Exact
        (new_into (parse_transferable_op p) p)
        (encode_objects (parse_transferable_op p))
        IsOperations
  transferable_ops-Exact =
      new_into-Exact (parse_transferable_op-Exact p wide) (transferable_op_some_bytes p wide) p

  states-Exact :
      Exact
        (new_into (parse_initial_state p) p)
        (encode_objects (parse_initial_state p))
        (IsObjectList (encode_initial_state p) IsInitialState)
  states-Exact = new_into-Exact (parse_initial_state-Exact p wide) (initial_state_some_bytes p) p

  pub record IsOperationTx (tx : OperationTx) : Type 0 where
    pub head : IsXHead p wide lookup tx.head
    pub operations : IsOperations tx.operations

  unfoldable pub encode_operation_tx : OperationTx → Bytes
  encode_operation_tx tx =
      encode_head avm_laws p wide avm_operation_tx tx.head
      ++ encode_objects (parse_transferable_op p) tx.operations

  pub parse_operation_tx-Exact :
      Exact (parse_operation_tx p lookup) encode_operation_tx IsOperationTx
  unfolding parse_operation_tx encode_operation_tx
  parse_operation_tx-Exact = record {
    complete = λ tx rest v. simp (
      append_assoc,
      reads (parse_x_head-Exact p wide lookup avm_operation_tx) tx.head v.head,
      reads transferable_ops-Exact tx.operations v.operations,
    );
    sound = λ input h.
        Exact-then (parse_x_head-Exact p wide lookup avm_operation_tx) input h _ λ head r₁ vh h₁ e₁.
          Exact-then transferable_ops-Exact r₁ h₁ _ λ operations r₂ vo _ e₂.
            returns (record { head = vh; operations = vo }, simp (e₁, e₂, append_assoc));
  }

  pub record IsCreateAsset (tx : CreateAsset) : Type 0 where
    pub head : IsXHead p wide lookup tx.head
    pub name : IsText p max_name_len tx.name
    pub sym : IsText p max_symbol_len tx.sym
    pub denomination : tx.denomination < 256 ^ 1
    pub states : IsObjectList (encode_initial_state p) IsInitialState tx.initial_states

  unfoldable pub encode_create_asset : CreateAsset → Bytes
  encode_create_asset tx =
      encode_head avm_laws p wide avm_create_asset_tx tx.head
      ++ (encode_text p tx.name
          ++ (encode_text p tx.sym
              ++ (to_be_bytes 1 tx.denomination
                  ++ encode_objects (parse_initial_state p) tx.initial_states)))

  pub parse_create_asset-Exact :
      Exact (parse_create_asset p lookup) encode_create_asset IsCreateAsset
  unfolding parse_create_asset encode_create_asset
  parse_create_asset-Exact = record {
    complete = λ tx rest v. simp (
      append_assoc,
      reads (parse_x_head-Exact p wide lookup avm_create_asset_tx) tx.head v.head,
      reads (parse_text-Exact p max_name_len (omega arith)) tx.name v.name,
      reads (parse_text-Exact p max_symbol_len (omega arith)) tx.sym v.sym,
      reads (be_uint-Exact p 1) tx.denomination v.denomination,
      reads states-Exact tx.initial_states v.states,
    );
    sound = λ input h.
        Exact-then (parse_x_head-Exact p wide lookup avm_create_asset_tx) input h _
          λ head r₁ vh h₁ e₁.
            Exact-then (parse_text-Exact p max_name_len (omega arith)) r₁ h₁ _ λ name r₂ vn h₂ e₂.
              Exact-then (parse_text-Exact p max_symbol_len (omega arith)) r₂ h₂ _
                λ sym r₃ vs h₃ e₃.
                  Exact-then (be_uint-Exact p 1) r₃ h₃ _ λ denomination r₄ vd h₄ e₄.
                    Exact-then states-Exact r₄ h₄ _ λ states r₅ vi _ e₅. returns (
                      record { head = vh; name = vn; sym = vs; denomination = vd; states = vi },
                      simp (e₁, e₂, e₃, e₄, e₅, append_assoc),
                    );
  }
