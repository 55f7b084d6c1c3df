-- ===== src/Parser/Sound.antt =====
-- The parsers of the P-chain's and the X-chain's transactions on any bytes and any width of `usize`, the
-- 32 bits of the device among them.
use ledger_avalanche.Prelude.{◌%◌, ◌≡◌, ◌++◌, Bytes, IsBytes}
use ledger_avalanche.Errors.{Ensures}
use ledger_avalanche.Platform.{Platform}
use ledger_avalanche.Codec.{Accepts}
use ledger_avalanche.Parser.BaseTx.{parse_base_tx}
use ledger_avalanche.Parser.Export.{parse_base_export}
use ledger_avalanche.Parser.Import.{parse_base_import}
use ledger_avalanche.Parser.Inputs.{parse_transferable_input}
use ledger_avalanche.Parser.Network.{AliasLookup}
use ledger_avalanche.Parser.Outputs.Transferable.{OutputKind}
use ledger_avalanche.Parser.Outputs.Variants.{parse_avm_output, parse_pvm_output}
use ledger_avalanche.Parser.Staking.{parse_subnet_auth}
use ledger_avalanche.Parser.Wire.BaseTx.{BaseTxOnWire, parse_base_tx-Accepts}
use ledger_avalanche.Parser.Wire.Inputs.{
  TransferableInputOnWire, parse_transferable_input-Accepts, SubnetAuthOnWire,
  parse_subnet_auth-Accepts,
}
use ledger_avalanche.Parser.Wire.Moves.{
  ImportOnWire, parse_base_import-Accepts, ExportOnWire, parse_base_export-Accepts,
}
use ledger_avalanche.Parser.Wire.Chains.{
  AvmOutputOnWire, parse_avm_output-Accepts, PvmOutputOnWire, parse_pvm_output-Accepts,
}

module _ (p : Platform) (input : Bytes) (bytes : IsBytes input) where
  -- On any width of `usize` from 32 bits on, and any bytes, `AvmOutput` does not panic, and what it
  -- returns is an output of a variant of the X-chain, with its fields in range, whose bytes, with
  -- the rest, are the input. These bytes hold some count ahead of the addresses, and the addresses
  -- take as many bytes as the product of the count and 20 is on `usize`, where it may wrap around.
  pub parse_avm_output_sound :
      Ensures
        (λ r. (bs : Bytes) × AvmOutputOnWire p r.1 bs × (input ≡ bs ++ r.0))
        (parse_avm_output p input)
  parse_avm_output_sound = (parse_avm_output-Accepts p).reads_off input bytes

  -- On any width of `usize` from 32 bits on, and any bytes, `PvmOutput` does not panic, and what it
  -- returns is an output of a variant of the P-chain, locked or not, with its fields in range,
  -- whose bytes, with the rest, are the input. These bytes hold some count ahead of the addresses,
  -- and the addresses take as many bytes as the product of the count and 20 is on `usize`, where it
  -- may wrap around.
  pub parse_pvm_output_sound :
      Ensures
        (λ r. (bs : Bytes) × PvmOutputOnWire p r.1 bs × (input ≡ bs ++ r.0))
        (parse_pvm_output p input)
  parse_pvm_output_sound = (parse_pvm_output-Accepts p).reads_off input bytes

  -- On any width of `usize` from 32 bits on, and any bytes, `TransferableInput` does not panic, and
  -- what it returns is an input, locked or not, with its fields in range, whose bytes, with the
  -- rest, are the input. These bytes hold some count ahead of the address indices, and the indices
  -- take as many bytes as the product of the count and 4 is on `usize`, where it may wrap around.
  pub parse_transferable_input_sound :
      Ensures
        (λ r. (bs : Bytes) × TransferableInputOnWire p r.1 bs × (input ≡ bs ++ r.0))
        (parse_transferable_input p input)
  parse_transferable_input_sound = (parse_transferable_input-Accepts p).reads_off input bytes

  -- On any width of `usize` from 32 bits on whose number of values is a multiple of 4, and any
  -- bytes, the parser of a subnet authorisation does not panic, and what it returns has bytes that
  -- are, with the rest, the input. These bytes hold some count ahead of the indices, and the
  -- indices take as many bytes as the product of the count and 4 is on `usize`, where it may wrap
  -- around.
  pub parse_subnet_auth_sound :
      p.usize_values % 4 ≡ 0
      → Ensures
          (λ r. (bs : Bytes) × SubnetAuthOnWire p r.1 bs × (input ≡ bs ++ r.0))
          (parse_subnet_auth p input)
  parse_subnet_auth_sound fours = (parse_subnet_auth-Accepts p fours).reads_off input bytes

  module _ {O : Type 0} (kind : OutputKind O) {OutputOnWire : O → Bytes → Type 0}
      (accepts : Accepts (kind.parse p) OutputOnWire) where
    -- On any width of `usize` from 32 bits on, and any bytes, and for a chain whose parser of
    -- outputs does not panic and returns what stands in a relation to the bytes that it read,
    -- `BaseTxFields` does not panic, and what it returns are fields that keep the bytes of a list
    -- of at most 64 such outputs and of a list of inputs, and a memo of at most 256 bytes; the two
    -- lists and the memo, each behind its number, are with the rest the input. The inputs' own
    -- counts may wrap around.
    pub parse_base_tx_sound :
        Ensures
          (λ r. (bs : Bytes) × BaseTxOnWire p OutputOnWire r.1 bs × (input ≡ bs ++ r.0))
          (parse_base_tx kind p input)
    parse_base_tx_sound = (parse_base_tx-Accepts p kind accepts).reads_off input bytes

    module _ (lookup : AliasLookup) where
      -- On any width of `usize` from 32 bits on, and any bytes, for any table of chains, and for a
      -- chain whose parser of outputs does not panic and returns what stands in a relation to the
      -- bytes that it read, `BaseImport` does not panic, and what it returns is an import between
      -- two known chains that differ. Its header, the base fields, the other chain and a list of
      -- inputs behind their number are with the rest the input. The inputs' own counts may wrap
      -- around.
      pub parse_base_import_sound :
          Ensures
            (λ r. (bs : Bytes) × ImportOnWire p lookup OutputOnWire r.1 bs × (input ≡ bs ++ r.0))
            (parse_base_import kind p lookup input)
      parse_base_import_sound =
          (parse_base_import-Accepts p lookup kind accepts).reads_off input bytes

      -- On any width of `usize` from 32 bits on, and any bytes, for any table of chains, and for a
      -- chain whose parser of outputs does not panic and returns what stands in a relation to the
      -- bytes that it read, `BaseExport` does not panic, and what it returns is an export between
      -- two known chains that differ. Its header, the base fields, the other chain and a list of at
      -- most 64 such outputs behind their number are with the rest the input. The inputs' own
      -- counts may wrap around.
      pub parse_base_export_sound :
          Ensures
            (λ r. (bs : Bytes) × ExportOnWire p lookup OutputOnWire r.1 bs × (input ≡ bs ++ r.0))
            (parse_base_export kind p lookup input)
      parse_base_export_sound =
          (parse_base_export-Accepts p lookup kind accepts).reads_off input bytes
