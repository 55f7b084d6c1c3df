-- ===== src/Tests/Data.antt =====
-- An X-chain export, an import and a locked P-chain output, with what makes them valid.
use ledger_avalanche.Prelude.{
  ℕ, zero, suc, ◌<◌, ◌^◌, ◌≡◌, refl, ap, none, some, [], ◌∷◌, map, Bytes, IsBytes, length, flatten,
  arith, ltb, Bool, true, false, Bool-cases, inl, inr, IsByte, ◌==◌, if◌then◌else◌,
}
use ledger_avalanche.Prelude.Int.{pos}
use ledger_avalanche.Codec.{IsArray}
use ledger_avalanche.Parser.BaseTx.{BaseTxFields, output_idx_max}
use ledger_avalanche.Parser.BaseTx.Format.{IsBaseTx, IsOutputs, IsInputs}
use ledger_avalanche.Parser.Export.{BaseExport}
use ledger_avalanche.Parser.Export.Format.{IsExport}
use ledger_avalanche.Parser.Import.{BaseImport}
use ledger_avalanche.Parser.Import.Format.{IsImport}
use ledger_avalanche.Parser.Inputs.{
  Input, TransferableInput, IsTransferableInput, encode_transferable_input,
}
use ledger_avalanche.Parser.Network.{
  AliasLookup, Header, IsHeader, AreOtherChains, p_chain, x_chain, header_chain_id,
  chain_id_try_from,
}
use ledger_avalanche.Parser.Objects.{ObjectList}
use ledger_avalanche.Parser.Outputs.Chains.{avm_laws}
use ledger_avalanche.Parser.Outputs.Output.{Output, OutputType}
use ledger_avalanche.Parser.Outputs.Owners.{Owners, IsOwners}
use ledger_avalanche.Parser.Outputs.Transferable.{
  TransferableOutput, IsTransferableOutput, encode_transferable_output,
}
use ledger_avalanche.Parser.Outputs.Variants.{PvmOutput, IsPvmOutput, IsAvmOutput}
use ledger_avalanche.Tests.Device.{host, host-IsWide}

abbrev pub repeat : ℕ → ℕ → Bytes
repeat zero b = []
repeat (suc n) b = b ∷ repeat n b

pub repeat-IsBytes : (n b : ℕ) → b < 256 → IsBytes (repeat n b)
repeat-IsBytes zero b h = tt
repeat-IsBytes (suc n) b h = (h, repeat-IsBytes n b h)

abbrev pub are_bytes : Bytes → Bool
are_bytes [] = true
are_bytes (b ∷ bs) = elim (ltb b 256) [ true ↦ are_bytes bs | false ↦ false ]

IsByte-of_test : (b : ℕ) → ltb b 256 ≡ true → IsByte b
IsByte-of_test b h = ground arith

pub are_bytes-IsBytes : (bs : Bytes) → are_bytes bs ≡ true → IsBytes bs
are_bytes-IsBytes [] h = tt
are_bytes-IsBytes (b ∷ bs) h = elim (Bool-cases (ltb b 256)) [
  | inl e ↦ (IsByte-of_test b e, are_bytes-IsBytes bs (rw (are_bytes, e) at h))
  | inr e ↦ cc (rw (are_bytes, e) at h)
]

length-repeat : (n b : ℕ) → length (repeat n b) ≡ n
length-repeat zero b = refl
length-repeat (suc n) b = ap suc (length-repeat n b)

pub repeat-IsArray : (n b : ℕ) → b < 256 → IsArray n (repeat n b)
repeat-IsArray n b h = record { bytes = repeat-IsBytes n b h; len = length-repeat n b }

-- Two owners, and the outputs of 40 and 9 that they get.
abbrev pub alice : Bytes
alice = repeat 20 7

abbrev pub bob : Bytes
bob = repeat 20 8

abbrev pub owners_of : ℕ → Owners
owners_of b = record { locktime = 0; threshold = 1; addresses = repeat 20 b ∷ [] }

pub owners_of-IsOwners : (b : ℕ) → b < 256 → IsOwners (owners_of b)
owners_of-IsOwners b h = record {
  locktime = omega arith;
  threshold = omega arith;
  count = omega arith;
  enough = omega arith;
  addresses = ((repeat-IsBytes 20 b h, length-repeat 20 b), tt);
}

abbrev pub transfer : ℕ → ℕ → Output
transfer amount b = Output.secp_transfer (record { amount = amount; owners = owners_of b })

pub transfer-IsAvmOutput :
    (amount b : ℕ) → amount < 2 ^ 64 → b < 256 → IsAvmOutput (transfer amount b)
transfer-IsAvmOutput amount b h k =
    (OutputType.secp_transfer, tt, record { amount = h; owners = owners_of-IsOwners b k })

abbrev pub locked_output : PvmOutput
locked_output = record { locktime = some (pos 1700000000); output = transfer 40 7 }

pub locked_output-IsPvmOutput : IsPvmOutput locked_output
locked_output-IsPvmOutput = record {
  locktime = (omega arith, omega arith);
  variant = OutputType.secp_transfer;
  variant_fits = tt;
  output = record { amount = omega arith; owners = owners_of-IsOwners 7 (omega arith) };
}

abbrev pub output_to : ℕ → ℕ → TransferableOutput Output
output_to amount b = record { asset_id = repeat 32 1; output = transfer amount b }

pub output_to-IsTransferableOutput :
    (amount b : ℕ) → amount < 2 ^ 64 → b < 256 → IsTransferableOutput avm_laws (output_to amount b)
unfolding avm_laws
output_to-IsTransferableOutput amount b h k = record {
  asset_id = repeat-IsArray 32 1 (omega arith);
  output = transfer-IsAvmOutput amount b h k;
}

abbrev pub outputs : ObjectList
outputs = record {
  bytes = flatten (map (encode_transferable_output avm_laws) (output_to 40 7 ∷ output_to 9 8 ∷ []));
  read = 0;
}

abbrev pub outputs-IsOutputs : IsOutputs avm_laws outputs
outputs-IsOutputs = record {
  objs = output_to 40 7 ∷ output_to 9 8 ∷ [];
  valid = (
    output_to-IsTransferableOutput 40 7 (omega arith) (omega arith),
    (output_to-IsTransferableOutput 9 8 (omega arith) (omega arith), tt),
  );
  bytes = refl;
  count = omega arith;
  at_start = refl;
}

abbrev pub input_of : ℕ → TransferableInput
input_of amount = record {
  tx_id = repeat 32 2;
  utxo_index = 0;
  asset_id = repeat 32 1;
  locktime = none;
  input = Input.secp_transfer (record { amount = amount; address_indices = repeat 4 0 ∷ [] });
}

pub input_of-IsTransferableInput :
    (amount : ℕ) → amount < 2 ^ 64 → IsTransferableInput (input_of amount)
input_of-IsTransferableInput amount h = record {
  tx_id = repeat-IsArray 32 2 (omega arith);
  utxo_index = omega arith;
  asset_id = repeat-IsArray 32 1 (omega arith);
  locktime = tt;
  input = record {
    amount = h;
    count = omega arith;
    indices = ((repeat-IsBytes 4 0 (omega arith), refl), tt);
  };
}

abbrev pub inputs : ObjectList
inputs = record { bytes = flatten (map encode_transferable_input (input_of 100 ∷ [])); read = 0 }

abbrev pub inputs-IsInputs : IsInputs avm_laws inputs
inputs-IsInputs = record {
  objs = input_of 100 ∷ [];
  valid = (input_of-IsTransferableInput 100 (omega arith), tt);
  bytes = refl;
  count = omega arith;
  at_start = refl;
}

abbrev pub base_tx : BaseTxFields
base_tx = record {
  outputs = outputs;
  renderable_out = output_idx_max;
  inputs = inputs;
  memo = 1 ∷ 2 ∷ [];
}

pub base_tx-IsBaseTx : IsBaseTx avm_laws base_tx
base_tx-IsBaseTx = record {
  outputs = outputs-IsOutputs;
  few_outputs = omega arith;
  inputs = inputs-IsInputs;
  memo = (omega arith, (omega arith, tt));
  memo_fits = omega arith;
  all_shown = refl;
}

-- The P-chain's id is all zeros; here the X-chain's is all ones.
abbrev pub lookup : AliasLookup
lookup [] = none
lookup (b ∷ _) = if b == 0 then some (b'P' ∷ []) else if b == 1 then some (b'X' ∷ []) else none

abbrev pub header : Header
header = record { network_id = 1; blockchain_id = repeat 32 1 }

header-IsHeader : IsHeader header
header-IsHeader = record {
  network_id = omega arith;
  blockchain_id = repeat-IsArray 32 1 (omega arith);
}

to_p_chain : AreOtherChains lookup header (repeat 32 0)
unfolding header_chain_id chain_id_try_from
to_p_chain = record {
  here = x_chain;
  there = p_chain;
  here_is = refl;
  there_is = refl;
  differ = refl;
}

abbrev pub import_tx : BaseImport
import_tx = record {
  tx_header = header;
  base_tx = base_tx;
  source_chain = repeat 32 0;
  inputs = inputs;
}

pub import_tx-IsImport : IsImport avm_laws host host-IsWide lookup import_tx
import_tx-IsImport = record {
  tx_header = header-IsHeader;
  base_tx = base_tx-IsBaseTx;
  source_chain = repeat-IsArray 32 0 (omega arith);
  chains = to_p_chain;
  inputs = inputs-IsInputs;
}

abbrev pub export_tx : BaseExport
export_tx = record {
  tx_header = header;
  base_tx = base_tx;
  destination_chain = repeat 32 0;
  outputs = outputs;
  renderable_out = output_idx_max;
}

pub export_tx-IsExport : IsExport avm_laws host host-IsWide lookup export_tx
export_tx-IsExport = record {
  tx_header = header-IsHeader;
  base_tx = base_tx-IsBaseTx;
  destination_chain = repeat-IsArray 32 0 (omega arith);
  chains = to_p_chain;
  outputs = outputs-IsOutputs;
  few_outputs = omega arith;
  all_shown = refl;
}
