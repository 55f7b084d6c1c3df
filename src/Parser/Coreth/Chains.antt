-- ===== src/Parser/Coreth/Chains.antt =====
-- What export_tx.rs and import_tx.rs in app/src/parser/coreth start with: the type id, the header, and
-- another chain.
use ledger_avalanche.Prelude.{ℕ, ◌≡◌, refl, ◌∙◌, Bytes, ◌++◌, append_assoc, to_be_bytes}
use ledger_avalanche.Errors.{
  ok, error, ◌>>=◌, ◌>>◌, bail_if, map_err, invalid_transaction_type, returns, Ensures-bind,
  Ensures-bail,
}
use ledger_avalanche.Platform.{Platform, Parser}
use ledger_avalanche.Codec.{
  Exact, Exact-then, reads, tag-Exact, take_array, take_array-Exact, IsArray,
}
use ledger_avalanche.Parser.Network.{
  AliasLookup, ChainId, x_chain, p_chain, c_chain, chain_id_eq, Header, header_chain_id,
  chain_id_try_from, parse_header, encode_header, IsHeader, parse_header-Exact, blockchain_id_len,
  AreOtherChains, chain_id-Ensures,
}

unfoldable pub parse_chains : Platform → AliasLookup → ℕ → Parser (Header × Bytes)
parse_chains p lookup type_id input = do
  (rem, _) ← p.tag (to_be_bytes 4 type_id) input
  (rem, tx_header) ← parse_header p rem
  (rem, other_chain) ← take_array p blockchain_id_len rem
  blockchain_id ← map_err error (header_chain_id lookup tx_header)
  other_id ← map_err error (chain_id_try_from lookup other_chain)
  bail_if (chain_id_eq blockchain_id other_id) (error invalid_transaction_type)
  ok (rem, (tx_header, other_chain))

chain_id_eq_comm : (a b : ChainId) → chain_id_eq a b ≡ chain_id_eq b a
chain_id_eq_comm p_chain p_chain = refl
chain_id_eq_comm p_chain x_chain = refl
chain_id_eq_comm p_chain c_chain = refl
chain_id_eq_comm x_chain p_chain = refl
chain_id_eq_comm x_chain x_chain = refl
chain_id_eq_comm x_chain c_chain = refl
chain_id_eq_comm c_chain p_chain = refl
chain_id_eq_comm c_chain x_chain = refl
chain_id_eq_comm c_chain c_chain = refl

unfoldable pub encode_chains : ℕ → Header × Bytes → Bytes
encode_chains type_id (tx_header, other_chain) =
    to_be_bytes 4 type_id ++ (encode_header tx_header ++ other_chain)

pub record AreChains (lookup : AliasLookup) (c : Header × Bytes) : Type 0 where
  pub tx_header : IsHeader c.0
  pub other : IsArray blockchain_id_len c.1
  pub chains : AreOtherChains lookup c.0 c.1

pub parse_chains-Exact :
    (p : Platform) (lookup : AliasLookup) (type_id : ℕ)
    → Exact (parse_chains p lookup type_id) (encode_chains type_id) (AreChains lookup)
unfolding parse_chains encode_chains header_chain_id
parse_chains-Exact p lookup type_id = record {
  complete = λ (tx_header, other_chain) rest v. simp (
    append_assoc,
    reads (tag-Exact p (to_be_bytes 4 type_id)) _ refl,
    reads (parse_header-Exact p) tx_header v.tx_header,
    reads (take_array-Exact p blockchain_id_len) other_chain v.other,
    v.chains.here_is,
    v.chains.there_is,
    chain_id_eq_comm v.chains.here v.chains.there ∙ v.chains.differ,
  );
  sound = λ input h. Exact-then (tag-Exact p (to_be_bytes 4 type_id)) input h _ λ t r₁ et h₁ e₁.
      Exact-then (parse_header-Exact p) r₁ h₁ _ λ tx_header r₂ vh h₂ e₂.
        Exact-then (take_array-Exact p blockchain_id_len) r₂ h₂ _ λ other r₃ vo _ e₃.
          Ensures-bind (chain_id-Ensures lookup tx_header.blockchain_id) λ here eh.
            Ensures-bind (chain_id-Ensures lookup other) λ there eo.
              Ensures-bail (chain_id_eq here there) _ _ λ differ. returns (
                record {
                  tx_header = vh;
                  other = vo;
                  chains = record {
                    here = here;
                    there = there;
                    here_is = eh;
                    there_is = eo;
                    differ = chain_id_eq_comm there here ∙ differ;
                  };
                },
                simp (e₁, et, e₂, e₃, append_assoc),
              );
}
