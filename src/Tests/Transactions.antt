-- ===== src/Tests/Transactions.antt =====
-- The theorems on whole transactions, applied.
use ledger_avalanche.Prelude.{
  ◌≡◌, refl, [], ◌∷◌, map, ◌++◌, Bytes, IsBytes, flatten, to_be_bytes, arith,
}
use ledger_avalanche.Prelude.Int.{pos}
use ledger_avalanche.Errors.{ok, Ensures}
use ledger_avalanche.Parser.BaseTx.{output_idx_max}
use ledger_avalanche.Parser.Inputs.{input_amount}
use ledger_avalanche.Parser.Network.{
  mainnet, x_chain, network_info_try_from, network_id_try_from, chain_id_try_from,
}
use ledger_avalanche.Parser.Objects.{ObjectList}
use ledger_avalanche.Parser.BaseTx.Format.{IsOutputs}
use ledger_avalanche.Parser.Outputs.Chains.{pvm_laws}
use ledger_avalanche.Parser.Outputs.Output.{output_amount}
use ledger_avalanche.Parser.Outputs.Transferable.{
  TransferableOutput, encode_transferable_output, amount,
}
use ledger_avalanche.Parser.Outputs.Variants.{PvmOutput}
use ledger_avalanche.Parser.Tx.Stake.{Staking, staking_fee}
use ledger_avalanche.Parser.Tx.Stake.Fee.{staking_fee-eq-exact}
use ledger_avalanche.Parser.Tx.Transaction.{Transaction, TransactionType, new_transaction}
use ledger_avalanche.Parser.Tx.Transaction.Format.{IsTransaction}
use ledger_avalanche.Parser.Tx.Transaction.Message.{
  new_transaction-encode_transaction, new_transaction_sound,
}
use ledger_avalanche.Parser.Tx.Transaction.Openings.{encode_transaction}
use ledger_avalanche.Tests.Data.{
  repeat, repeat-IsArray, are_bytes-IsBytes, lookup, header, export_tx, export_tx-IsExport, inputs,
  inputs-IsInputs, locked_output, locked_output-IsPvmOutput, owners_of,
}
use ledger_avalanche.Tests.Device.{host, host-IsWide}

export : Transaction
export = Transaction.x_export export_tx

export-IsTransaction : IsTransaction host host-IsWide lookup export
unfolding export network_info_try_from network_id_try_from chain_id_try_from
export-IsTransaction = record {
  type = TransactionType.x_export;
  valid = export_tx-IsExport;
  info = record { network_id = mainnet; chain_id = x_chain };
  network = refl;
  fits = tt;
}

new_transaction-encode_transaction_example :
    new_transaction host lookup
      (to_be_bytes 2 0 ++ (encode_transaction host host-IsWide lookup export ++ repeat 3 9))
    ≡ ok export
new_transaction-encode_transaction_example =
    new_transaction-encode_transaction host host-IsWide lookup export (repeat 3 9)
      export-IsTransaction

-- An X-chain transfer with nothing in it, behind its codec.
abbrev message : Bytes
message = repeat 6 0 ++ (0 ∷ 0 ∷ 0 ∷ 1 ∷ (repeat 32 1 ++ repeat 12 0))

message-IsBytes : IsBytes message
message-IsBytes = are_bytes-IsBytes message refl

new_transaction_sound_example :
    Ensures
      (λ tx.
        IsTransaction host host-IsWide lookup tx
        × ((rest : Bytes) × (message
              ≡ to_be_bytes 2 0 ++ (encode_transaction host host-IsWide lookup tx ++ rest))))
      (new_transaction host lookup message)
new_transaction_sound_example =
    new_transaction_sound host host-IsWide lookup message message-IsBytes

-- A delegation of 40 with 40 back: of the inputs of 100, 20 are the fee.
abbrev locked : TransferableOutput PvmOutput
locked = record { asset_id = repeat 32 1; output = locked_output }

abbrev stake : ObjectList
stake = record {
  bytes = flatten (map (encode_transferable_output pvm_laws) (locked ∷ []));
  read = 0;
}

abbrev stake-IsOutputs : IsOutputs pvm_laws stake
unfolding pvm_laws
stake-IsOutputs = record {
  objs = locked ∷ [];
  valid = (
    record { asset_id = repeat-IsArray 32 1 (omega arith); output = locked_output-IsPvmOutput },
    tt,
  );
  bytes = refl;
  count = omega arith;
  at_start = refl;
}

abbrev delegation : Staking
delegation = record {
  head = record {
    tx_header = header;
    base_tx = record {
      outputs = stake;
      renderable_out = output_idx_max;
      inputs = inputs;
      memo = [];
    };
  };
  validator = record { node_id = repeat 20 3; start_time = pos 10; endtime = pos 20; weight = 40 };
  renderable_out = output_idx_max;
  stake = stake;
  rewards_owner = record { owners = owners_of 7 };
}

staking_fee-eq-exact_example : staking_fee host delegation ≡ ok 20
unfolding input_amount amount output_amount stake-IsOutputs
staking_fee-eq-exact_example =
    staking_fee-eq-exact host host-IsWide delegation inputs-IsInputs stake-IsOutputs stake-IsOutputs
      100 40 refl refl
