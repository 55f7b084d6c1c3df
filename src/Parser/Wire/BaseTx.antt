-- ===== src/Parser/Wire/BaseTx.antt =====
-- The base fields of app/src/parser/transactions/base_tx_fields.rs on any width of `usize`.
use ledger_avalanche.Prelude.{
  ◌≤◌, ◌≡◌, refl, ◌++◌, Bytes, IsBytes, length, ltb, to_be_bytes, append_assoc,
}
use ledger_avalanche.Errors.{returns, Ensures-bail}
use ledger_avalanche.Platform.{Platform}
use ledger_avalanche.Codec.{Accepts, Accepts-then, Exact-then, take-Exact, be_uint-Exact, IsArray}
use ledger_avalanche.Parser.BaseTx.{
  BaseTxFields, parse_base_tx, max_memo_len, output_idx_bits, output_idx_max,
}
use ledger_avalanche.Parser.BaseTx.Format.{le_of_test}
use ledger_avalanche.Parser.Ids.{parse_asset_id-Exact, asset_id_len}
use ledger_avalanche.Parser.Inputs.{parse_transferable_input}
use ledger_avalanche.Parser.Objects.{ObjectList, new_into}
use ledger_avalanche.Parser.Outputs.Transferable.{
  OutputKind, TransferableOutput, parse_transferable_output,
}
use ledger_avalanche.Parser.Wire.Inputs.{TransferableInputOnWire, parse_transferable_input-Accepts}
use ledger_avalanche.Parser.Wire.Objects.{ListOnWire, new_into-Accepts, count_ahead}

-- `OutputOnWire` is the relation of the chain's outputs.
module _ {O : Type 0} (OutputOnWire : O → Bytes → Type 0) where
  pub record TransferableOutputOnWire (o : TransferableOutput O) (bs : Bytes) : Type 0 where
    pub asset_id : IsArray asset_id_len o.asset_id
    pub output_bytes : Bytes
    pub output : OutputOnWire o.output output_bytes
    pub bytes : bs ≡ o.asset_id ++ output_bytes

  abbrev pub OutputsOnWire : ObjectList → Bytes → Type 0
  OutputsOnWire = ListOnWire TransferableOutputOnWire

module _ (p : Platform) where
  abbrev pub InputsOnWire : ObjectList → Bytes → Type 0
  InputsOnWire = ListOnWire (TransferableInputOnWire p)

  pub inputs-Accepts : Accepts (new_into (parse_transferable_input p) p) InputsOnWire
  inputs-Accepts = new_into-Accepts (parse_transferable_input-Accepts p) p

  pub record BaseTxOnWire {O : Type 0} (OutputOnWire : O → Bytes → Type 0) (tx : BaseTxFields)
      (bs : Bytes) : Type 0 where
    pub output_bytes : Bytes
    pub outputs : OutputsOnWire OutputOnWire tx.outputs output_bytes
    pub few_outputs : length outputs.objs ≤ output_idx_bits
    pub all_shown : tx.renderable_out ≡ output_idx_max
    pub input_bytes : Bytes
    pub inputs : InputsOnWire tx.inputs input_bytes
    pub memo : IsBytes tx.memo
    pub memo_fits : length tx.memo ≤ max_memo_len
    pub bytes : bs ≡ output_bytes ++ (input_bytes ++ (to_be_bytes 4 (length tx.memo) ++ tx.memo))

  module _ {O : Type 0} (kind : OutputKind O) {OutputOnWire : O → Bytes → Type 0}
      (accepts : Accepts (kind.parse p) OutputOnWire) where
    parse_transferable_output-Accepts :
        Accepts (parse_transferable_output kind p) (TransferableOutputOnWire OutputOnWire)
    unfolding parse_transferable_output
    parse_transferable_output-Accepts = record {
      reads_off = λ input h. Exact-then (parse_asset_id-Exact p) input h _ λ asset_id r₁ va h₁ e₁.
          Accepts-then accepts r₁ h₁ _ λ output bs r₂ vo _ e₂. returns (
            asset_id ++ bs,
            record { asset_id = va; output_bytes = bs; output = vo; bytes = refl },
            simp (e₁, e₂, append_assoc),
          );
    }

    pub outputs-Accepts :
        Accepts (new_into (parse_transferable_output kind p) p) (OutputsOnWire OutputOnWire)
    outputs-Accepts = new_into-Accepts parse_transferable_output-Accepts p

    pub parse_base_tx-Accepts : Accepts (parse_base_tx kind p) (BaseTxOnWire OutputOnWire)
    unfolding parse_base_tx
    parse_base_tx-Accepts = record {
      reads_off = λ input h. Exact-then (be_uint-Exact p 4) input h _ λ n r vn _ e₀.
          Ensures-bail (ltb output_idx_bits n) _ _ λ few.
            Accepts-then outputs-Accepts input h _ λ outputs ob r₁ vo h₁ e₁.
              Accepts-then inputs-Accepts r₁ h₁ _ λ inputs ib r₂ vi h₂ e₂.
                Exact-then (be_uint-Exact p 4) r₂ h₂ _ λ memo_len r₃ vm h₃ e₃.
                  Ensures-bail (ltb max_memo_len memo_len) _ _ λ fits.
                    Exact-then (take-Exact p memo_len) r₃ h₃ _ λ memo r₄ (are, len) _ e₄.
                      let same = count_ahead p input n r vn e₀ outputs ob r₁ vo e₁ in
                      returns (
                        ob ++ (ib ++ (to_be_bytes 4 (length memo) ++ memo)),
                        record {
                          output_bytes = ob;
                          outputs = vo;
                          few_outputs = rw (← same) (le_of_test n output_idx_bits few);
                          all_shown = refl;
                          input_bytes = ib;
                          inputs = vi;
                          memo = are;
                          memo_fits = rw len (le_of_test memo_len max_memo_len fits);
                          bytes = refl;
                        },
                        simp (e₁, e₂, e₃, e₄, len, append_assoc),
                      );
    }
