-- ===== src/Parser/Wire/Chains.antt =====
-- The `Output` enum of app/src/parser/outputs.rs, and the outputs of the X-chain and the P-chain, on any
-- width of `usize`.
use ledger_avalanche.Prelude.{◌≡◌, refl, ◌++◌, Bytes, to_be_bytes, append_assoc}
use ledger_avalanche.Prelude.Int.{IsI64, i64_to_u64}
use ledger_avalanche.Errors.{returns, Ensures-bind, Ensures-weaken}
use ledger_avalanche.Platform.{Platform}
use ledger_avalanche.Codec.{
  Accepts, Accepts-then, Exact-then, be_uint-Exact, be_i64-Exact, encode_locked, IsLocked,
  parse_locked_sound,
}
use ledger_avalanche.Parser.Outputs.Output.{Output, OutputType, parse_output}
use ledger_avalanche.Parser.Outputs.Variants.{
  parse_avm_output, PvmOutput, parse_pvm_output, IsAvmType, IsPvmType, avm_output_type-Ensures,
  pvm_output_type-Ensures, locked_output_tag,
}
use ledger_avalanche.Parser.Wire.Outputs.{
  NftMintOnWire, NftTransferOnWire, SecpMintOnWire, SecpOwnersOnWire, SecpTransferOnWire,
  parse_nft_mint-Accepts, parse_nft_transfer-Accepts, parse_secp_mint-Accepts,
  parse_secp_owners-Accepts, parse_secp_transfer-Accepts,
}

module _ (p : Platform) where
  -- An output of the given variant.
  abbrev pub OutputOnWire : OutputType → Output → Bytes → Type 0
  OutputOnWire OutputType.secp_transfer (Output.secp_transfer o) = SecpTransferOnWire p o
  OutputOnWire OutputType.secp_mint (Output.secp_mint o) = SecpMintOnWire p o
  OutputOnWire OutputType.nft_transfer (Output.nft_transfer o) = NftTransferOnWire p o
  OutputOnWire OutputType.nft_mint (Output.nft_mint o) = NftMintOnWire p o
  OutputOnWire OutputType.secp_owners (Output.secp_owners o) = SecpOwnersOnWire p o
  OutputOnWire _ _ = λ _. ⊥

  parse_output-Accepts : (t : OutputType) → Accepts (parse_output p t) (OutputOnWire t)
  unfolding parse_output
  parse_output-Accepts OutputType.secp_transfer = record {
    reads_off = λ input h.
        Accepts-then (parse_secp_transfer-Accepts p) input h _
          λ o bs rest v _ e. returns (bs, v, e);
  }
  parse_output-Accepts OutputType.secp_mint = record {
    reads_off = λ input h.
        Accepts-then (parse_secp_mint-Accepts p) input h _ λ o bs rest v _ e. returns (bs, v, e);
  }
  parse_output-Accepts OutputType.nft_transfer = record {
    reads_off = λ input h.
        Accepts-then (parse_nft_transfer-Accepts p) input h _ λ o bs rest v _ e. returns (bs, v, e);
  }
  parse_output-Accepts OutputType.nft_mint = record {
    reads_off = λ input h.
        Accepts-then (parse_nft_mint-Accepts p) input h _ λ o bs rest v _ e. returns (bs, v, e);
  }
  parse_output-Accepts OutputType.secp_owners = record {
    reads_off = λ input h.
        Accepts-then (parse_secp_owners-Accepts p) input h _ λ o bs rest v _ e. returns (bs, v, e);
  }

  abbrev pub AvmOutputOnWire : Output → Bytes → Type 0
  AvmOutputOnWire o bs = (t : OutputType) × IsAvmType t × OutputOnWire t o bs

  pub parse_avm_output-Accepts : Accepts (parse_avm_output p) AvmOutputOnWire
  unfolding parse_avm_output
  parse_avm_output-Accepts = record {
    reads_off = λ input h. Exact-then (be_uint-Exact p 4) input h _ λ n _ _ _ _.
        Ensures-bind (avm_output_type-Ensures p n) λ t at.
          Ensures-weaken ((parse_output-Accepts t).reads_off input h)
            λ (rest, o) (bs, v, e). (bs, (t, at, v), e);
  }

  pub record PvmOutputOnWire (o : PvmOutput) (bs : Bytes) : Type 0 where
    pub locktime : IsLocked IsI64 o.locktime
    pub variant : OutputType
    pub variant_fits : IsPvmType variant
    pub output_bytes : Bytes
    pub output : OutputOnWire variant o.output output_bytes
    pub bytes :
        bs
        ≡ encode_locked (λ z. to_be_bytes 8 (i64_to_u64 z)) locked_output_tag o.locktime
          ++ output_bytes

  pub parse_pvm_output-Accepts : Accepts (parse_pvm_output p) PvmOutputOnWire
  unfolding parse_pvm_output
  parse_pvm_output-Accepts = record {
    reads_off = λ input h.
        Ensures-bind (parse_locked_sound (be_i64-Exact p) p locked_output_tag input h)
          λ (rem, locktime) (vl, hr, e₁). Exact-then (be_uint-Exact p 4) rem hr _ λ n _ _ _ _.
            Ensures-bind (pvm_output_type-Ensures p n) λ t pt.
              Accepts-then (parse_output-Accepts t) rem hr _ λ o bs rest vo _ e₂. returns (
                encode_locked (λ z. to_be_bytes 8 (i64_to_u64 z)) locked_output_tag locktime ++ bs,
                record {
                  locktime = vl;
                  variant = t;
                  variant_fits = pt;
                  output_bytes = bs;
                  output = vo;
                  bytes = refl;
                },
                simp (e₁, e₂, append_assoc),
              );
  }
