-- ===== src/Parser/Export/Format.antt =====
-- The format of an export: two chains that differ.
use ledger_avalanche.Prelude.{◌≡◌, refl, Bytes, ◌++◌, append_assoc, ◌≤◌, length, ltb, sym}
use ledger_avalanche.Errors.{ok, returns, Ensures-bind, Ensures-bail}
use ledger_avalanche.Platform.{Platform, IsWide}
use ledger_avalanche.Codec.{Exact, Exact-then, reads, take_array-Exact, be_uint-Exact, IsArray}
use ledger_avalanche.Parser.BaseTx.Format.{
  IsBaseTx, IsOutputs, encode_base_tx, parse_base_tx-Exact, outputs-Exact, peek_count, count_lem,
  le_test, le_of_test,
}
use ledger_avalanche.Parser.Network.{
  AliasLookup, header_chain_id, chain_id_eq, blockchain_id_len, IsHeader, encode_header,
  parse_header-Exact, AreOtherChains, chain_id-Ensures,
}
use ledger_avalanche.Parser.Objects.Format.{encode_objects}
use ledger_avalanche.Parser.BaseTx.{output_idx_bits, output_idx_max}
use ledger_avalanche.Parser.Outputs.Transferable.{OutputKind, OutputLaws, parse_transferable_output}
use ledger_avalanche.Parser.Export.{BaseExport, parse_base_export}

module _ {O : Type 0} {kind : OutputKind O} (laws : OutputLaws O kind) (p : Platform)
    (wide : IsWide p) (lookup : AliasLookup) where
  pub record IsExport (tx : BaseExport) : Type 0 where
    pub tx_header : IsHeader tx.tx_header
    pub base_tx : IsBaseTx laws tx.base_tx
    pub destination_chain : IsArray blockchain_id_len tx.destination_chain
    pub chains : AreOtherChains lookup tx.tx_header tx.destination_chain
    pub outputs : IsOutputs laws tx.outputs
    pub few_outputs : length outputs.objs ≤ output_idx_bits
    pub all_shown : tx.renderable_out ≡ output_idx_max

  unfoldable pub encode_export : BaseExport → Bytes
  encode_export tx =
      encode_header tx.tx_header
      ++ (encode_base_tx laws p wide tx.base_tx
          ++ (tx.destination_chain ++ encode_objects (parse_transferable_output kind p) tx.outputs))

  pub parse_base_export-Exact : Exact (parse_base_export kind p lookup) encode_export IsExport
  unfolding parse_base_export encode_export header_chain_id
  parse_base_export-Exact = record {
    complete = λ tx rest v.
        simp
          (
            append_assoc,
            reads (parse_header-Exact p) tx.tx_header v.tx_header,
            reads (parse_base_tx-Exact laws p wide) tx.base_tx v.base_tx,
            reads (take_array-Exact p blockchain_id_len) tx.destination_chain v.destination_chain,
            v.chains.here_is,
            v.chains.there_is,
            v.chains.differ,
            peek_count laws p wide tx.outputs v.outputs,
            le_test (length v.outputs.objs) output_idx_bits v.few_outputs,
            reads (outputs-Exact laws p wide) tx.outputs v.outputs,
          )
          λ i. ok (rest, record tx { renderable_out = sym v.all_shown i });
    sound = λ input h. Exact-then (parse_header-Exact p) input h _ λ tx_header r₁ vh h₁ e₁.
        Exact-then (parse_base_tx-Exact laws p wide) r₁ h₁ _ λ base_tx r₂ vb h₂ e₂.
          Exact-then (take_array-Exact p blockchain_id_len) r₂ h₂ _ λ destination_chain r₃ vs h₃ e₃.
            Ensures-bind (chain_id-Ensures lookup tx_header.blockchain_id) λ here eh.
              Ensures-bind (chain_id-Ensures lookup destination_chain) λ there et.
                Ensures-bail (chain_id_eq there here) _ _ λ differ.
                  Exact-then (be_uint-Exact p 4) r₃ h₃ _ λ n r vn _ e₀.
                    Ensures-bail (ltb output_idx_bits n) _ _ λ few.
                      Exact-then (outputs-Exact laws p wide) r₃ h₃ _ λ outputs r₄ vo _ e₄.
                        let same = count_lem laws p wide r₃ n r vn e₀ outputs vo r₄ e₄ in
                        returns (
                          record {
                            tx_header = vh;
                            base_tx = vb;
                            destination_chain = vs;
                            chains = record {
                              here = here;
                              there = there;
                              here_is = eh;
                              there_is = et;
                              differ = differ;
                            };
                            outputs = vo;
                            few_outputs = rw (← same) (le_of_test n output_idx_bits few);
                            all_shown = refl;
                          },
                          simp (e₁, e₂, e₃, e₄, append_assoc),
                        );
  }
