-- ===== src/Parser/RoundTrip.antt =====
-- The parsers of the P-chain's and the X-chain's transactions, run on the encoding of a value.
use ledger_avalanche.Prelude.{◌≡◌, ◌++◌, Bytes}
use ledger_avalanche.Errors.{ok}
use ledger_avalanche.Platform.{Platform, IsWide}
use ledger_avalanche.Parser.BaseTx.{BaseTxFields, parse_base_tx}
use ledger_avalanche.Parser.BaseTx.Format.{IsBaseTx, encode_base_tx, parse_base_tx-Exact}
use ledger_avalanche.Parser.Export.{BaseExport, parse_base_export}
use ledger_avalanche.Parser.Export.Format.{IsExport, encode_export, parse_base_export-Exact}
use ledger_avalanche.Parser.Import.{BaseImport, parse_base_import}
use ledger_avalanche.Parser.Import.Format.{IsImport, encode_import, parse_base_import-Exact}
use ledger_avalanche.Parser.Inputs.{
  TransferableInput, parse_transferable_input, encode_transferable_input, IsTransferableInput,
  parse_transferable_input-Exact,
}
use ledger_avalanche.Parser.Network.{AliasLookup}
use ledger_avalanche.Parser.Outputs.Output.{Output, encode_output}
use ledger_avalanche.Parser.Outputs.Transferable.{OutputKind, OutputLaws}
use ledger_avalanche.Parser.Outputs.Variants.{
  parse_avm_output, IsAvmOutput, parse_avm_output-Exact, PvmOutput, parse_pvm_output,
  encode_pvm_output, IsPvmOutput, parse_pvm_output-Exact,
}

module _ (p : Platform) (wide : IsWide p) where
  -- On a platform where an u32 times a small length does not wrap around, `AvmOutput` reads a valid
  -- output back from its encoding, whatever bytes follow it.
  pub parse_avm_output-encode_output :
      (o : Output) (rest : Bytes)
      → IsAvmOutput o
      → parse_avm_output p (encode_output o ++ rest) ≡ ok (rest, o)
  parse_avm_output-encode_output = (parse_avm_output-Exact p wide).complete

  -- On a platform where an u32 times a small length does not wrap around, `PvmOutput` reads a valid
  -- output, locked or not, back from its encoding, whatever bytes follow it.
  pub parse_pvm_output-encode_pvm_output :
      (o : PvmOutput) (rest : Bytes)
      → IsPvmOutput o
      → parse_pvm_output p (encode_pvm_output o ++ rest) ≡ ok (rest, o)
  parse_pvm_output-encode_pvm_output = (parse_pvm_output-Exact p wide).complete

  -- On a platform where an u32 times a small length does not wrap around, `TransferableInput` reads
  -- a valid input, locked or not, back from its encoding, whatever bytes follow it.
  pub parse_transferable_input-encode_transferable_input :
      (t : TransferableInput) (rest : Bytes)
      → IsTransferableInput t
      → parse_transferable_input p (encode_transferable_input t ++ rest) ≡ ok (rest, t)
  parse_transferable_input-encode_transferable_input =
      (parse_transferable_input-Exact p wide).complete

  module _ {O : Type 0} {kind : OutputKind O} (laws : OutputLaws O kind) where
    -- On a platform where an u32 times a small length does not wrap around, and for a chain whose
    -- outputs have one format, `BaseTxFields` reads valid fields back from their encoding, whatever
    -- bytes follow it.
    pub parse_base_tx-encode_base_tx :
        (tx : BaseTxFields) (rest : Bytes)
        → IsBaseTx laws tx
        → parse_base_tx kind p (encode_base_tx laws p wide tx ++ rest) ≡ ok (rest, tx)
    parse_base_tx-encode_base_tx = (parse_base_tx-Exact laws p wide).complete

    module _ (lookup : AliasLookup) where
      -- On a platform where an u32 times a small length does not wrap around, for a chain whose
      -- outputs have one format, and for any table of chains, `BaseImport` reads a valid import,
      -- whose two chains are known and differ, back from its encoding, whatever bytes follow it.
      pub parse_base_import-encode_import :
          (tx : BaseImport) (rest : Bytes)
          → IsImport laws p wide lookup tx
          → parse_base_import kind p lookup (encode_import laws p wide lookup tx ++ rest)
            ≡ ok (rest, tx)
      parse_base_import-encode_import = (parse_base_import-Exact laws p wide lookup).complete

      -- On a platform where an u32 times a small length does not wrap around, for a chain whose
      -- outputs have one format, and for any table of chains, `BaseExport` reads a valid export,
      -- with at most 64 outputs, back from its encoding, whatever bytes follow it.
      pub parse_base_export-encode_export :
          (tx : BaseExport) (rest : Bytes)
          → IsExport laws p wide lookup tx
          → parse_base_export kind p lookup (encode_export laws p wide lookup tx ++ rest)
            ≡ ok (rest, tx)
      parse_base_export-encode_export = (parse_base_export-Exact laws p wide lookup).complete
