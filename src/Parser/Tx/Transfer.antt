-- ===== src/Parser/Tx/Transfer.antt =====
-- app/src/parser/transactions/transfer.rs: a transfer on the X-chain or the P-chain.
use ledger_avalanche.Prelude.{ℕ, ◌+◌, ◌≡◌, Bool, true, false, Bytes, All}
use ledger_avalanche.Errors.{
  Result, ok, error, Err, ParserError, unexpected_type, ◌>>=◌, ◌>>◌, bail_if, returns, Ensures-bail,
}
use ledger_avalanche.Platform.{Platform, Parser, IsWide}
use ledger_avalanche.Codec.{Exact, Exact-then}
use ledger_avalanche.Parser.BaseTx.{
  sum_inputs_amount, sum_outputs_amount, checked_sub, disable_output_if, base_outputs_num_items,
}
use ledger_avalanche.Parser.Objects.{iter}
use ledger_avalanche.Parser.Outputs.Chains.{avm_kind, avm_laws}
use ledger_avalanche.Parser.Outputs.Output.{Output}
use ledger_avalanche.Parser.Outputs.Transferable.{TransferableOutput, parse_transferable_output}
use ledger_avalanche.Parser.Tx.Head.{
  Head, any, none_of_test, test_of_none, parse_head, IsHead, encode_head, parse_head-Exact,
  walk_outputs,
}

abbrev pub transfer_tx : ℕ
transfer_tx = 0

-- `o.secp_transfer().is_none()`
unfoldable pub no_secp_transfer : TransferableOutput Output → Bool
no_secp_transfer o = elim o.output [ Output.secp_transfer _ ↦ false | _ ↦ true ]

pub record Transfer : Type 0 where
  pub head : Head

module _ (p : Platform) where
  unfoldable pub parse_transfer : Parser Transfer
  parse_transfer input = do
    (rem, head) ← parse_head avm_kind p transfer_tx input
    outputs ← iter (parse_transferable_output avm_kind p) head.base_tx.outputs
    bail_if (any no_secp_transfer outputs) (error unexpected_type)
    ok (rem, record { head = head })

  -- `Transfer::fee`, and that of the transactions whose outputs are all in the base fields.
  unfoldable pub transfer_fee : Transfer → Result ParserError ℕ
  transfer_fee tx = do
    outputs ← sum_outputs_amount avm_kind p tx.head.base_tx
    inputs ← sum_inputs_amount avm_kind p tx.head.base_tx
    checked_sub inputs outputs

  unfoldable pub transfer_disable_output_if : Bytes → Transfer → Result Err Transfer
  transfer_disable_output_if address tx = do
    base_tx ← disable_output_if avm_kind p address tx.head.base_tx
    ok (record { head = record { tx_header = tx.head.tx_header; base_tx = base_tx } })

  unfoldable pub transfer_num_items : Transfer → Result Err ℕ
  transfer_num_items tx = do
    items ← base_outputs_num_items avm_kind p tx.head.base_tx
    ok (1 + items + 1)

module _ (p : Platform) (wide : IsWide p) where
  pub record IsTransfer (tx : Transfer) : Type 0 where
    pub head : IsHead avm_laws p wide tx.head
    pub transfers : All (λ o. no_secp_transfer o ≡ false) head.base_tx.outputs.objs

  unfoldable pub encode_transfer : Transfer → Bytes
  encode_transfer tx = encode_head avm_laws p wide transfer_tx tx.head

  pub parse_transfer-Exact : Exact (parse_transfer p) encode_transfer IsTransfer
  unfolding parse_transfer encode_transfer
  parse_transfer-Exact = record {
    complete = λ tx rest v. rw (
      (parse_head-Exact avm_laws p wide transfer_tx).complete tx.head rest v.head,
      walk_outputs avm_laws p wide tx.head.base_tx.outputs v.head.base_tx.outputs,
      test_of_none no_secp_transfer v.head.base_tx.outputs.objs v.transfers,
    );
    sound = λ input h.
        Exact-then (parse_head-Exact avm_laws p wide transfer_tx) input h _ λ head r₁ v _ e.
          rw (walk_outputs avm_laws p wide head.base_tx.outputs v.base_tx.outputs) (
            Ensures-bail (any no_secp_transfer v.base_tx.outputs.objs) _ _ λ no. returns (
              record {
                head = v;
                transfers = none_of_test no_secp_transfer v.base_tx.outputs.objs no;
              },
              e,
            ));
  }
