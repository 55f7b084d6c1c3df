-- ===== src/Parser/Wire/Moves.antt =====
-- base_import.rs and base_export.rs of app/src/parser/transactions on any width of `usize`.
use ledger_avalanche.Prelude.{◌≤◌, ◌≡◌, refl, ◌++◌, Bytes, length, ltb, append_assoc}
use ledger_avalanche.Errors.{returns, Ensures-bind, Ensures-bail}
use ledger_avalanche.Platform.{Platform}
use ledger_avalanche.Codec.{
  Accepts, Accepts-then, Exact-then, take_array-Exact, be_uint-Exact, IsArray,
}
use ledger_avalanche.Parser.BaseTx.{output_idx_bits, output_idx_max}
use ledger_avalanche.Parser.BaseTx.Format.{le_of_test}
use ledger_avalanche.Parser.Export.{BaseExport, parse_base_export}
use ledger_avalanche.Parser.Import.{BaseImport, parse_base_import}
use ledger_avalanche.Parser.Network.{
  AliasLookup, header_chain_id, chain_id_eq, blockchain_id_len, IsHeader, encode_header,
  parse_header-Exact, AreOtherChains, chain_id-Ensures,
}
use ledger_avalanche.Parser.Outputs.Transferable.{OutputKind}
use ledger_avalanche.Parser.Wire.BaseTx.{
  BaseTxOnWire, OutputsOnWire, InputsOnWire, parse_base_tx-Accepts, outputs-Accepts, inputs-Accepts,
}
use ledger_avalanche.Parser.Wire.Objects.{count_ahead}

module _ (p : Platform) (lookup : AliasLookup) where
  pub record ImportOnWire {O : Type 0} (OutputOnWire : O → Bytes → Type 0) (tx : BaseImport)
      (bs : Bytes) : Type 0 where
    pub tx_header : IsHeader tx.tx_header
    pub base_bytes : Bytes
    pub base_tx : BaseTxOnWire p OutputOnWire tx.base_tx base_bytes
    pub source_chain : IsArray blockchain_id_len tx.source_chain
    pub chains : AreOtherChains lookup tx.tx_header tx.source_chain
    pub input_bytes : Bytes
    pub inputs : InputsOnWire p tx.inputs input_bytes
    pub bytes : bs ≡ encode_header tx.tx_header ++ (base_bytes ++ (tx.source_chain ++ input_bytes))

  pub record ExportOnWire {O : Type 0} (OutputOnWire : O → Bytes → Type 0) (tx : BaseExport)
      (bs : Bytes) : Type 0 where
    pub tx_header : IsHeader tx.tx_header
    pub base_bytes : Bytes
    pub base_tx : BaseTxOnWire p OutputOnWire tx.base_tx base_bytes
    pub destination_chain : IsArray blockchain_id_len tx.destination_chain
    pub chains : AreOtherChains lookup tx.tx_header tx.destination_chain
    pub output_bytes : Bytes
    pub outputs : OutputsOnWire OutputOnWire tx.outputs output_bytes
    pub few_outputs : length outputs.objs ≤ output_idx_bits
    pub all_shown : tx.renderable_out ≡ output_idx_max
    pub bytes :
        bs ≡ encode_header tx.tx_header ++ (base_bytes ++ (tx.destination_chain ++ output_bytes))

  module _ {O : Type 0} (kind : OutputKind O) {OutputOnWire : O → Bytes → Type 0}
      (accepts : Accepts (kind.parse p) OutputOnWire) where
    pub parse_base_import-Accepts :
        Accepts (parse_base_import kind p lookup) (ImportOnWire OutputOnWire)
    unfolding parse_base_import header_chain_id
    parse_base_import-Accepts = record {
      reads_off = λ input h. Exact-then (parse_header-Exact p) input h _ λ tx_header r₁ vh h₁ e₁.
          Accepts-then (parse_base_tx-Accepts p kind accepts) r₁ h₁ _ λ base_tx bb r₂ vb h₂ e₂.
            Exact-then (take_array-Exact p blockchain_id_len) r₂ h₂ _ λ source_chain r₃ vs h₃ e₃.
              Ensures-bind (chain_id-Ensures lookup tx_header.blockchain_id) λ here eh.
                Ensures-bind (chain_id-Ensures lookup source_chain) λ there et.
                  Ensures-bail (chain_id_eq there here) _ _ λ differ.
                    Accepts-then (inputs-Accepts p) r₃ h₃ _ λ inputs ib r₄ vi _ e₄. returns (
                      encode_header tx_header ++ (bb ++ (source_chain ++ ib)),
                      record {
                        tx_header = vh;
                        base_bytes = bb;
                        base_tx = vb;
                        source_chain = vs;
                        chains = record {
                          here = here;
                          there = there;
                          here_is = eh;
                          there_is = et;
                          differ = differ;
                        };
                        input_bytes = ib;
                        inputs = vi;
                        bytes = refl;
                      },
                      simp (e₁, e₂, e₃, e₄, append_assoc),
                    );
    }

    pub parse_base_export-Accepts :
        Accepts (parse_base_export kind p lookup) (ExportOnWire OutputOnWire)
    unfolding parse_base_export header_chain_id
    parse_base_export-Accepts = record {
      reads_off = λ input h. Exact-then (parse_header-Exact p) input h _ λ tx_header r₁ vh h₁ e₁.
          Accepts-then (parse_base_tx-Accepts p kind accepts) r₁ h₁ _ λ base_tx bb r₂ vb h₂ e₂.
            Exact-then (take_array-Exact p blockchain_id_len) r₂ h₂ _
              λ destination_chain r₃ vs h₃ e₃.
                Ensures-bind (chain_id-Ensures lookup tx_header.blockchain_id) λ here eh.
                  Ensures-bind (chain_id-Ensures lookup destination_chain) λ there et.
                    Ensures-bail (chain_id_eq there here) _ _ λ differ.
                      Exact-then (be_uint-Exact p 4) r₃ h₃ _ λ n r vn _ e₀.
                        Ensures-bail (ltb output_idx_bits n) _ _ λ few.
                          Accepts-then (outputs-Accepts p kind accepts) r₃ h₃ _
                            λ outputs ob r₄ vo _ e₄.
                              let same = count_ahead p r₃ n r vn e₀ outputs ob r₄ vo e₄ in
                              returns (
                                encode_header tx_header ++ (bb ++ (destination_chain ++ ob)),
                                record {
                                  tx_header = vh;
                                  base_bytes = bb;
                                  base_tx = vb;
                                  destination_chain = vs;
                                  chains = record {
                                    here = here;
                                    there = there;
                                    here_is = eh;
                                    there_is = et;
                                    differ = differ;
                                  };
                                  output_bytes = ob;
                                  outputs = vo;
                                  few_outputs = rw (← same) (le_of_test n output_idx_bits few);
                                  all_shown = refl;
                                  bytes = refl;
                                },
                                simp (e₁, e₂, e₃, e₄, append_assoc),
                              );
    }
