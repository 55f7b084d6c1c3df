-- ===== src/Parser/Outputs/Chains.antt =====
-- The outputs of each chain as the transactions take them: `AvmOutput` and `PvmOutput`.
use ledger_avalanche.Codec.{IsArrays}
use ledger_avalanche.Parser.Ids.{address_len}
use ledger_avalanche.Parser.Outputs.Output.{
  Output, OutputType, IsOutput, output_addresses, output_num_items, encode_output,
}
use ledger_avalanche.Parser.Outputs.Variants.{
  parse_avm_output, IsAvmOutput, parse_avm_output-Exact, PvmOutput, parse_pvm_output, pvm_num_items,
  encode_pvm_output, IsPvmOutput, parse_pvm_output-Exact,
}
use ledger_avalanche.Parser.Outputs.Transferable.{OutputKind, OutputLaws}

abbrev pub avm_kind : OutputKind Output
avm_kind = record { parse = parse_avm_output; num_items = output_num_items; deref = λ o. o }

abbrev pub pvm_kind : OutputKind PvmOutput
pvm_kind = record { parse = parse_pvm_output; num_items = pvm_num_items; deref = λ o. o.output }

pub output_addresses-IsArrays :
    (t : OutputType) (o : Output) → IsOutput t o → IsArrays address_len (output_addresses o)
unfolding output_addresses
output_addresses-IsArrays OutputType.secp_transfer (Output.secp_transfer o) v = v.owners.addresses
output_addresses-IsArrays OutputType.secp_mint (Output.secp_mint o) v = v.addresses
output_addresses-IsArrays OutputType.nft_transfer (Output.nft_transfer o) v = v.owners.addresses
output_addresses-IsArrays OutputType.nft_mint (Output.nft_mint o) v = v.owners.addresses
output_addresses-IsArrays OutputType.secp_owners (Output.secp_owners o) v = v.owners.addresses
output_addresses-IsArrays _ _ v = absurd v

unfoldable pub avm_laws : OutputLaws Output avm_kind
avm_laws = record {
  encode = encode_output;
  IsValid = IsAvmOutput;
  exact = parse_avm_output-Exact;
  addresses = λ o (t, _, v). output_addresses-IsArrays t o v;
}

unfoldable pub pvm_laws : OutputLaws PvmOutput pvm_kind
pvm_laws = record {
  encode = encode_pvm_output;
  IsValid = IsPvmOutput;
  exact = parse_pvm_output-Exact;
  addresses = λ o v. output_addresses-IsArrays v.variant o.output v.output;
}
