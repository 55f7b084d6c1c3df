-- ===== src/Parser/BaseTx/Format.antt =====
-- The format of the base fields: the outputs, the inputs and the memo, each with its length ahead.
use ledger_avalanche.Prelude.{
  ℕ, ◌^◌, ◌≤◌, ◌<◌, ◌≡◌, refl, sym, ap, false, ◌++◌, Bytes, IsBytes, length, ltb, length-append,
  to_be_bytes, append_assoc, arith,
}
use ledger_avalanche.Errors.{ok, returns, Ensures-bail}
use ledger_avalanche.Platform.{Platform, IsWide}
use ledger_avalanche.Codec.{Exact, Exact-then, reads, take-Exact, be_uint-Exact}
use ledger_avalanche.Parser.Inputs.{
  TransferableInput, parse_transferable_input, parse_transferable_input-Exact,
  encode_transferable_input, IsTransferableInput,
}
use ledger_avalanche.Parser.Objects.{ObjectList, new_into}
use ledger_avalanche.Parser.Objects.Format.{
  encode_objects, IsObjectList, new_into-Exact, objects_lem,
}
use ledger_avalanche.Parser.Outputs.Transferable.{
  OutputKind, OutputLaws, TransferableOutput, parse_transferable_output,
  parse_transferable_output-Exact, encode_transferable_output, IsTransferableOutput,
}
use ledger_avalanche.Parser.BaseTx.{
  BaseTxFields, parse_base_tx, max_memo_len, output_idx_bits, output_idx_max,
}

pub le_test : (n limit : ℕ) → n ≤ limit → ltb limit n ≡ false
le_test n limit h = ground arith

pub le_of_test : (n limit : ℕ) → ltb limit n ≡ false → n ≤ limit
le_of_test n limit h = ground arith

pub transferable_input_some_bytes :
    (t : TransferableInput) → IsTransferableInput t → 0 < length (encode_transferable_input t)
unfolding encode_transferable_input
transferable_input_some_bytes t v = rw length-append (omega (arith, v.tx_id.len))

module _ {O : Type 0} {kind : OutputKind O} (laws : OutputLaws O kind) where
  pub transferable_output_some_bytes :
      (t : TransferableOutput O)
      → IsTransferableOutput laws t
      → 0 < length (encode_transferable_output laws t)
  unfolding encode_transferable_output
  transferable_output_some_bytes t v = rw length-append (omega (arith, v.asset_id.len))

  -- The outputs of a transaction, and its inputs, as lists of valid objects.
  abbrev pub IsOutputs : ObjectList → Type 0
  IsOutputs = IsObjectList (encode_transferable_output laws) (IsTransferableOutput laws)

  abbrev pub IsInputs : ObjectList → Type 0
  IsInputs = IsObjectList encode_transferable_input IsTransferableInput

  pub record IsBaseTx (tx : BaseTxFields) : Type 0 where
    pub outputs : IsOutputs tx.outputs
    pub few_outputs : length outputs.objs ≤ output_idx_bits
    pub inputs : IsInputs tx.inputs
    pub memo : IsBytes tx.memo
    pub memo_fits : length tx.memo ≤ max_memo_len
    pub all_shown : tx.renderable_out ≡ output_idx_max

  module _ (p : Platform) (wide : IsWide p) where
    pub outputs-Exact :
        Exact
          (new_into (parse_transferable_output kind p) p)
          (encode_objects (parse_transferable_output kind p))
          IsOutputs
    outputs-Exact =
        new_into-Exact (parse_transferable_output-Exact laws p wide) transferable_output_some_bytes
          p

    pub inputs-Exact :
        Exact
          (new_into (parse_transferable_input p) p)
          (encode_objects (parse_transferable_input p))
          IsInputs
    inputs-Exact =
        new_into-Exact (parse_transferable_input-Exact p wide) transferable_input_some_bytes p

    unfoldable pub encode_base_tx : BaseTxFields → Bytes
    encode_base_tx tx =
        encode_objects (parse_transferable_output kind p) tx.outputs
        ++ (encode_objects (parse_transferable_input p) tx.inputs
            ++ (to_be_bytes 4 (length tx.memo) ++ tx.memo))

    -- The count that the source reads ahead of the outputs is the number of them.
    pub peek_count :
        (list : ObjectList) (v : IsOutputs list) (rest : Bytes)
        → p.be_uint 4 (encode_objects (parse_transferable_output kind p) list ++ rest)
          ≡ ok (list.bytes ++ rest, length v.objs)
    unfolding encode_objects
    peek_count list v rest =
        let len = ap length (
          objects_lem (parse_transferable_output-Exact laws p wide) transferable_output_some_bytes
            list v) in
        rw (append_assoc, len)
          (reads (be_uint-Exact p 4) (length v.objs) v.count (list.bytes ++ rest))

    -- So a count that was read ahead, and the objects that follow it, agree.
    pub count_lem :
        (input : Bytes) (n : ℕ) (r : Bytes)
        → n < 256 ^ 4
        → input ≡ to_be_bytes 4 n ++ r
        → (list : ObjectList) (v : IsOutputs list) (rest : Bytes)
        → input ≡ encode_objects (parse_transferable_output kind p) list ++ rest
        → n ≡ length v.objs
    count_lem input n r vn e₀ list v rest e₁ =
        let again = reads (be_uint-Exact p 4) n vn r in
        let counted = peek_count list v rest in cc (again, counted, e₀, e₁)

    base_tx_complete :
        (tx : BaseTxFields) (rest : Bytes)
        → IsBaseTx tx
        → parse_base_tx kind p (encode_base_tx tx ++ rest) ≡ ok (rest, tx)
    unfolding parse_base_tx encode_base_tx
    base_tx_complete tx rest v =
        simp
          (
            append_assoc,
            peek_count tx.outputs v.outputs,
            le_test (length v.outputs.objs) output_idx_bits v.few_outputs,
            reads outputs-Exact tx.outputs v.outputs,
            reads inputs-Exact tx.inputs v.inputs,
            reads (be_uint-Exact p 4) (length tx.memo) (omega (arith, v.memo_fits)),
            le_test (length tx.memo) max_memo_len v.memo_fits,
            reads (take-Exact p (length tx.memo)) tx.memo (v.memo, refl),
          )
          λ i. ok (rest, record tx { renderable_out = sym v.all_shown i })

    pub parse_base_tx-Exact : Exact (parse_base_tx kind p) encode_base_tx IsBaseTx
    unfolding parse_base_tx encode_base_tx
    parse_base_tx-Exact = record {
      complete = base_tx_complete;
      sound = λ input h. Exact-then (be_uint-Exact p 4) input h _ λ n r vn _ e₀.
          Ensures-bail (ltb output_idx_bits n) _ _ λ few.
            Exact-then outputs-Exact input h _ λ outputs r₁ vo h₁ e₁.
              Exact-then inputs-Exact r₁ h₁ _ λ inputs r₂ vi h₂ e₂.
                Exact-then (be_uint-Exact p 4) r₂ h₂ _ λ memo_len r₃ vm h₃ e₃.
                  Ensures-bail (ltb max_memo_len memo_len) _ _ λ fits.
                    Exact-then (take-Exact p memo_len) r₃ h₃ _ λ memo r₄ (bytes, len) _ e₄.
                      let same = count_lem input n r vn e₀ outputs vo r₁ e₁ in
                      returns (
                        record {
                          outputs = vo;
                          few_outputs = rw (← same) (le_of_test n output_idx_bits few);
                          inputs = vi;
                          memo = bytes;
                          memo_fits = rw len (le_of_test memo_len max_memo_len fits);
                          all_shown = refl;
                        },
                        simp (e₁, e₂, e₃, e₄, len, append_assoc),
                      );
    }
