-- ===== src/Parser/Import/Format.antt =====
-- The format of an import: two chains that differ.
use ledger_avalanche.Prelude.{Bytes, ◌++◌, append_assoc}
use ledger_avalanche.Errors.{returns, Ensures-bind, Ensures-bail}
use ledger_avalanche.Platform.{Platform, IsWide}
use ledger_avalanche.Codec.{Exact, Exact-then, reads, take_array-Exact, IsArray}
use ledger_avalanche.Parser.BaseTx.Format.{
  IsBaseTx, IsInputs, encode_base_tx, parse_base_tx-Exact, inputs-Exact,
}
use ledger_avalanche.Parser.Inputs.{parse_transferable_input}
use ledger_avalanche.Parser.Network.{
  AliasLookup, header_chain_id, chain_id_eq, blockchain_id_len, IsHeader, encode_header,
  parse_header-Exact, AreOtherChains, chain_id-Ensures,
}
use ledger_avalanche.Parser.Objects.Format.{encode_objects}
use ledger_avalanche.Parser.Outputs.Transferable.{OutputKind, OutputLaws}
use ledger_avalanche.Parser.Import.{BaseImport, parse_base_import}

module _ {O : Type 0} {kind : OutputKind O} (laws : OutputLaws O kind) (p : Platform)
    (wide : IsWide p) (lookup : AliasLookup) where
  pub record IsImport (tx : BaseImport) : Type 0 where
    pub tx_header : IsHeader tx.tx_header
    pub base_tx : IsBaseTx laws tx.base_tx
    pub source_chain : IsArray blockchain_id_len tx.source_chain
    pub chains : AreOtherChains lookup tx.tx_header tx.source_chain
    pub inputs : IsInputs laws tx.inputs

  unfoldable pub encode_import : BaseImport → Bytes
  encode_import tx =
      encode_header tx.tx_header
      ++ (encode_base_tx laws p wide tx.base_tx
          ++ (tx.source_chain ++ encode_objects (parse_transferable_input p) tx.inputs))

  pub parse_base_import-Exact : Exact (parse_base_import kind p lookup) encode_import IsImport
  unfolding parse_base_import encode_import header_chain_id
  parse_base_import-Exact = record {
    complete = λ tx rest v. simp (
      append_assoc,
      reads (parse_header-Exact p) tx.tx_header v.tx_header,
      reads (parse_base_tx-Exact laws p wide) tx.base_tx v.base_tx,
      reads (take_array-Exact p blockchain_id_len) tx.source_chain v.source_chain,
      v.chains.here_is,
      v.chains.there_is,
      v.chains.differ,
      reads (inputs-Exact laws p wide) tx.inputs v.inputs,
    );
    sound = λ input h. Exact-then (parse_header-Exact p) input h _ λ tx_header r₁ vh h₁ e₁.
        Exact-then (parse_base_tx-Exact laws p wide) r₁ h₁ _ λ base_tx r₂ vb h₂ e₂.
          Exact-then (take_array-Exact p blockchain_id_len) r₂ h₂ _ λ source_chain r₃ vs h₃ e₃.
            Ensures-bind (chain_id-Ensures lookup tx_header.blockchain_id) λ here eh.
              Ensures-bind (chain_id-Ensures lookup source_chain) λ there et.
                Ensures-bail (chain_id_eq there here) _ _ λ differ.
                  Exact-then (inputs-Exact laws p wide) r₃ h₃ _ λ inputs r₄ vi _ e₄. returns (
                    record {
                      tx_header = vh;
                      base_tx = vb;
                      source_chain = vs;
                      chains = record {
                        here = here;
                        there = there;
                        here_is = eh;
                        there_is = et;
                        differ = differ;
                      };
                      inputs = vi;
                    },
                    simp (e₁, e₂, e₃, e₄, append_assoc),
                  );
  }
