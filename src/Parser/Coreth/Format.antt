-- ===== src/Parser/Coreth/Format.antt =====
-- The formats of the C-chain's export and import.
use ledger_avalanche.Prelude.{◌≡◌, refl, sym, Bytes, ◌++◌, append_assoc}
use ledger_avalanche.Errors.{ok, returns}
use ledger_avalanche.Platform.{Platform, IsWide}
use ledger_avalanche.Codec.{Exact, Exact-then, reads}
use ledger_avalanche.Parser.BaseTx.{output_idx_max}
use ledger_avalanche.Parser.BaseTx.Format.{
  transferable_output_some_bytes, transferable_input_some_bytes,
}
use ledger_avalanche.Parser.Inputs.{
  parse_transferable_input, parse_transferable_input-Exact, encode_transferable_input,
  IsTransferableInput,
}
use ledger_avalanche.Parser.Network.{AliasLookup}
use ledger_avalanche.Parser.Objects.{ObjectList, new_into}
use ledger_avalanche.Parser.Objects.Format.{IsObjectList, encode_objects, new_into-Exact}
use ledger_avalanche.Parser.Outputs.Transferable.{
  parse_transferable_output, parse_transferable_output-Exact, encode_transferable_output,
  IsTransferableOutput,
}
use ledger_avalanche.Parser.Coreth.{
  ExportTx, ImportTx, evm_export_tx, evm_import_tx, parse_evm_export, parse_evm_import,
}
use ledger_avalanche.Parser.Coreth.Chains.{AreChains, encode_chains, parse_chains-Exact}
use ledger_avalanche.Parser.Coreth.Limited.{IsLimited, parse_limited, parse_limited-Exact}
use ledger_avalanche.Parser.Coreth.Objects.{
  parse_evm_input, parse_evm_output, encode_evm_input, encode_evm_output, IsEvmInput, IsEvmOutput,
  parse_evm_input-Exact, parse_evm_output-Exact, evm_input_some_bytes, evm_output_some_bytes,
  e_kind, e_laws,
}

abbrev pub AreEvmInputs : ObjectList → Type 0
AreEvmInputs = IsObjectList encode_evm_input IsEvmInput

abbrev pub AreEOutputs : ObjectList → Type 0
AreEOutputs = IsLimited (encode_transferable_output e_laws) (IsTransferableOutput e_laws)

abbrev pub AreEvmOutputs : ObjectList → Type 0
AreEvmOutputs = IsLimited encode_evm_output IsEvmOutput

module _ (p : Platform) where
  evm_inputs-Exact :
      Exact (new_into (parse_evm_input p) p) (encode_objects (parse_evm_input p)) AreEvmInputs
  evm_inputs-Exact = new_into-Exact (parse_evm_input-Exact p) evm_input_some_bytes p

  evm_outputs-Exact :
      Exact
        (parse_limited (parse_evm_output p) p)
        (encode_objects (parse_evm_output p))
        AreEvmOutputs
  evm_outputs-Exact = parse_limited-Exact (parse_evm_output-Exact p) evm_output_some_bytes p

module _ (p : Platform) (wide : IsWide p) (lookup : AliasLookup) where
  e_outputs-Exact :
      Exact
        (parse_limited (parse_transferable_output e_kind p) p)
        (encode_objects (parse_transferable_output e_kind p))
        AreEOutputs
  e_outputs-Exact =
      parse_limited-Exact (parse_transferable_output-Exact e_laws p wide)
        (transferable_output_some_bytes e_laws) p

  utxo_inputs-Exact :
      Exact
        (new_into (parse_transferable_input p) p)
        (encode_objects (parse_transferable_input p))
        (IsObjectList encode_transferable_input IsTransferableInput)
  utxo_inputs-Exact =
      new_into-Exact (parse_transferable_input-Exact p wide) transferable_input_some_bytes p

  pub record IsExportTx (tx : ExportTx) : Type 0 where
    pub chains : AreChains lookup (tx.tx_header, tx.destination_chain)
    pub inputs : AreEvmInputs tx.inputs
    pub outputs : AreEOutputs tx.outputs
    pub all_shown : tx.renderable_out ≡ output_idx_max

  unfoldable pub encode_evm_export : ExportTx → Bytes
  encode_evm_export tx =
      encode_chains evm_export_tx (tx.tx_header, tx.destination_chain)
      ++ (encode_objects (parse_evm_input p) tx.inputs
          ++ encode_objects (parse_transferable_output e_kind p) tx.outputs)

  pub parse_evm_export-Exact : Exact (parse_evm_export p lookup) encode_evm_export IsExportTx
  unfolding parse_evm_export encode_evm_export
  parse_evm_export-Exact = record {
    complete = λ tx rest v.
        simp
          (
            append_assoc,
            reads (parse_chains-Exact p lookup evm_export_tx) (tx.tx_header, tx.destination_chain)
                v.chains,
            reads (evm_inputs-Exact p) tx.inputs v.inputs,
            reads e_outputs-Exact tx.outputs v.outputs,
          )
          λ i. ok (rest, record tx { renderable_out = sym v.all_shown i });
    sound = λ input h.
        Exact-then (parse_chains-Exact p lookup evm_export_tx) input h _ λ chains r₁ vc h₁ e₁.
          Exact-then (evm_inputs-Exact p) r₁ h₁ _ λ inputs r₂ vi h₂ e₂.
            Exact-then e_outputs-Exact r₂ h₂ _ λ outputs r₃ vo _ e₃. returns (
              record { chains = vc; inputs = vi; outputs = vo; all_shown = refl },
              simp (e₁, e₂, e₃, append_assoc),
            );
  }

  pub record IsImportTx (tx : ImportTx) : Type 0 where
    pub chains : AreChains lookup (tx.tx_header, tx.source_chain)
    pub inputs : IsObjectList encode_transferable_input IsTransferableInput tx.inputs
    pub outputs : AreEvmOutputs tx.outputs
    pub all_shown : tx.renderable_out ≡ output_idx_max

  unfoldable pub encode_evm_import : ImportTx → Bytes
  encode_evm_import tx =
      encode_chains evm_import_tx (tx.tx_header, tx.source_chain)
      ++ (encode_objects (parse_transferable_input p) tx.inputs
          ++ encode_objects (parse_evm_output p) tx.outputs)

  pub parse_evm_import-Exact : Exact (parse_evm_import p lookup) encode_evm_import IsImportTx
  unfolding parse_evm_import encode_evm_import
  parse_evm_import-Exact = record {
    complete = λ tx rest v.
        simp
          (
            append_assoc,
            reads (parse_chains-Exact p lookup evm_import_tx) (tx.tx_header, tx.source_chain)
                v.chains,
            reads utxo_inputs-Exact tx.inputs v.inputs,
            reads (evm_outputs-Exact p) tx.outputs v.outputs,
          )
          λ i. ok (rest, record tx { renderable_out = sym v.all_shown i });
    sound = λ input h.
        Exact-then (parse_chains-Exact p lookup evm_import_tx) input h _ λ chains r₁ vc h₁ e₁.
          Exact-then utxo_inputs-Exact r₁ h₁ _ λ inputs r₂ vi h₂ e₂.
            Exact-then (evm_outputs-Exact p) r₂ h₂ _ λ outputs r₃ vo _ e₃. returns (
              record { chains = vc; inputs = vi; outputs = vo; all_shown = refl },
              simp (e₁, e₂, e₃, append_assoc),
            );
  }
