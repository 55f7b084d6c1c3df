-- ===== src/Parser/Tx/Assets/XHead.antt =====
-- What operation_tx.rs and create_asset.rs in app/src/parser/transactions/avm start with: a header of
-- the X-chain.
use ledger_avalanche.Prelude.{ℕ, ◌≡◌, refl, false, not, append_assoc, to_be_bytes}
use ledger_avalanche.Errors.{
  ok, error, ◌>>=◌, ◌>>◌, bail_if, map_err, invalid_chain_id, returns, Ensures-bind, Ensures-bail,
}
use ledger_avalanche.Platform.{Platform, Parser, IsWide}
use ledger_avalanche.Codec.{Exact, Exact-then, reads, tag-Exact}
use ledger_avalanche.Parser.BaseTx.{parse_base_tx}
use ledger_avalanche.Parser.BaseTx.Format.{parse_base_tx-Exact}
use ledger_avalanche.Parser.Network.{
  AliasLookup, ChainId, x_chain, p_chain, c_chain, chain_id_eq, header_chain_id, parse_header,
  parse_header-Exact, chain_id-Ensures,
}
use ledger_avalanche.Parser.Outputs.Chains.{avm_kind, avm_laws}
use ledger_avalanche.Parser.Tx.Head.{Head, IsHead, encode_head}

unfoldable pub parse_x_head : Platform → AliasLookup → ℕ → Parser Head
parse_x_head p lookup type_id input = do
  (rem, _) ← p.tag (to_be_bytes 4 type_id) input
  (rem, tx_header) ← parse_header p rem
  chain_id ← map_err error (header_chain_id lookup tx_header)
  bail_if (not (chain_id_eq chain_id x_chain)) (error invalid_chain_id)
  (rem, base_tx) ← parse_base_tx avm_kind p rem
  ok (rem, record { tx_header = tx_header; base_tx = base_tx })

is_x_chain : (c : ChainId) → not (chain_id_eq c x_chain) ≡ false → c ≡ x_chain
is_x_chain p_chain h = cc
is_x_chain x_chain h = refl
is_x_chain c_chain h = cc

module _ (p : Platform) (wide : IsWide p) (lookup : AliasLookup) where
  pub record IsXHead (x : Head) : Type 0 where
    pub head : IsHead avm_laws p wide x
    pub chain : header_chain_id lookup x.tx_header ≡ ok x_chain

  pub parse_x_head-Exact :
      (type_id : ℕ)
      → Exact (parse_x_head p lookup type_id) (encode_head avm_laws p wide type_id) IsXHead
  unfolding parse_x_head encode_head header_chain_id
  parse_x_head-Exact type_id = record {
    complete = λ head rest v. simp (
      append_assoc,
      reads (tag-Exact p (to_be_bytes 4 type_id)) _ refl,
      reads (parse_header-Exact p) head.tx_header v.head.tx_header,
      v.chain,
      reads (parse_base_tx-Exact avm_laws p wide) head.base_tx v.head.base_tx,
    );
    sound = λ input h. Exact-then (tag-Exact p (to_be_bytes 4 type_id)) input h _ λ t r₁ et h₁ e₁.
        Exact-then (parse_header-Exact p) r₁ h₁ _ λ tx_header r₂ vh h₂ e₂.
          Ensures-bind (chain_id-Ensures lookup tx_header.blockchain_id) λ chain ec.
            Ensures-bail (not (chain_id_eq chain x_chain)) _ _ λ is_x.
              Exact-then (parse_base_tx-Exact avm_laws p wide) r₂ h₂ _ λ base_tx r₃ vb _ e₃.
                returns (
                  record {
                    head = record { tx_header = vh; base_tx = vb };
                    chain = rw (ec, is_x_chain chain is_x);
                  },
                  simp (e₁, et, e₂, e₃, append_assoc),
                );
  }
