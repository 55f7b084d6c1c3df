-- ===== src/Parser/Ids.antt =====
-- app/src/parser: asset_id.rs, address.rs, subnet_id.rs, utxo_id.rs
use ledger_avalanche.Prelude.{ℕ, Bytes, IsU32, ◌++◌, to_be_bytes, append_assoc}
use ledger_avalanche.Errors.{ok, ◌>>=◌, returns}
use ledger_avalanche.Platform.{Platform, Parser}
use ledger_avalanche.Codec.{
  Exact, Exact-then, reads, be_uint-Exact, take_array, take_array-Exact, IsArray,
}

abbrev pub asset_id_len : ℕ
asset_id_len = 32

abbrev pub tx_id_len : ℕ
tx_id_len = 32

abbrev pub subnet_id_len : ℕ
subnet_id_len = 32

-- `Ripemd160::DIGEST_LEN`.
abbrev pub address_len : ℕ
address_len = 20

unfoldable pub parse_asset_id : Platform → Parser Bytes
parse_asset_id p = take_array p asset_id_len

unfoldable pub parse_address : Platform → Parser Bytes
parse_address p = take_array p address_len

unfoldable pub parse_subnet_id : Platform → Parser Bytes
parse_subnet_id p = take_array p subnet_id_len

pub record UtxoId : Type 0 where
  pub tx_id : Bytes
  pub out_idx : ℕ

unfoldable pub parse_utxo_id : Platform → Parser UtxoId
parse_utxo_id p input = do
  (rem, tx_id) ← take_array p tx_id_len input
  (rem, out_idx) ← p.be_uint 4 rem
  ok (rem, record { tx_id = tx_id; out_idx = out_idx })

unfoldable pub encode_utxo_id : UtxoId → Bytes
encode_utxo_id u = u.tx_id ++ to_be_bytes 4 u.out_idx

pub record IsUtxoId (u : UtxoId) : Type 0 where
  pub tx_id : IsArray tx_id_len u.tx_id
  pub out_idx : IsU32 u.out_idx

module _ (p : Platform) where
  pub parse_asset_id-Exact : Exact (parse_asset_id p) (λ bs. bs) (IsArray asset_id_len)
  unfolding parse_asset_id
  parse_asset_id-Exact = take_array-Exact p asset_id_len

  pub parse_address-Exact : Exact (parse_address p) (λ bs. bs) (IsArray address_len)
  unfolding parse_address
  parse_address-Exact = take_array-Exact p address_len

  pub parse_subnet_id-Exact : Exact (parse_subnet_id p) (λ bs. bs) (IsArray subnet_id_len)
  unfolding parse_subnet_id
  parse_subnet_id-Exact = take_array-Exact p subnet_id_len

  pub parse_utxo_id-Exact : Exact (parse_utxo_id p) encode_utxo_id IsUtxoId
  unfolding parse_utxo_id encode_utxo_id
  parse_utxo_id-Exact = record {
    complete = λ u rest v. simp (
      append_assoc,
      reads (take_array-Exact p tx_id_len) u.tx_id v.tx_id,
      reads (be_uint-Exact p 4) u.out_idx v.out_idx,
    );
    sound = λ input h. Exact-then (take_array-Exact p tx_id_len) input h _ λ tx_id r₁ vt h₁ e₁.
        Exact-then (be_uint-Exact p 4) r₁ h₁ _ λ out_idx r₂ vo _ e₂.
          returns (record { tx_id = vt; out_idx = vo }, simp (e₁, e₂, append_assoc));
  }
