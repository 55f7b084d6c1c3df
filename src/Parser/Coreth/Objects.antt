-- ===== src/Parser/Coreth/Objects.antt =====
-- app/src/parser/coreth/inputs.rs and app/src/parser/coreth/outputs.rs.
use ledger_avalanche.Prelude.{
  ℕ, ◌+◌, ◌<◌, ◌≡◌, refl, Bytes, IsU64, length, ◌++◌, ◌==◌, if◌then◌else◌, append_assoc,
  length-append, to_be_bytes, arith,
}
use ledger_avalanche.Errors.{
  Result, ok, err, Err, error, ◌>>=◌, invalid_type_id, returns, fails, Ensures, Ensures-if,
  Ensures-bind,
}
use ledger_avalanche.Platform.{Platform, Parser, IsWide}
use ledger_avalanche.Codec.{Exact, Exact-then, reads, be_uint-Exact, IsArray}
use ledger_avalanche.Parser.Ids.{
  parse_address, parse_address-Exact, address_len, parse_asset_id, parse_asset_id-Exact,
  asset_id_len,
}
use ledger_avalanche.Parser.Outputs.Chains.{output_addresses-IsArrays}
use ledger_avalanche.Parser.Outputs.Output.{
  Output, OutputType, parse_output, parse_output-Exact, IsOutput, encode_output, output_num_items,
}
use ledger_avalanche.Parser.Outputs.Secp.{secp_transfer_type_id}
use ledger_avalanche.Parser.Outputs.Transferable.{OutputKind, OutputLaws}
use ledger_avalanche.Parser.Outputs.Variants.{peek}

pub record EvmInput : Type 0 where
  pub address : Bytes
  pub amount : ℕ
  pub asset_id : Bytes
  pub nonce : ℕ

pub record EvmOutput : Type 0 where
  pub address : Bytes
  pub amount : ℕ
  pub asset_id : Bytes

unfoldable pub parse_evm_input : Platform → Parser EvmInput
parse_evm_input p input = do
  (rem, address) ← parse_address p input
  (rem, amount) ← p.be_uint 8 rem
  (rem, asset_id) ← parse_asset_id p rem
  (rem, nonce) ← p.be_uint 8 rem
  ok (rem, record { address = address; amount = amount; asset_id = asset_id; nonce = nonce })

unfoldable pub parse_evm_output : Platform → Parser EvmOutput
parse_evm_output p input = do
  (rem, address) ← parse_address p input
  (rem, amount) ← p.be_uint 8 rem
  (rem, asset_id) ← parse_asset_id p rem
  ok (rem, record { address = address; amount = amount; asset_id = asset_id })

-- The amount and the address.
unfoldable pub evm_output_num_items : EvmOutput → ℕ
evm_output_num_items o = 1 + 1

-- `EOutput::parse_output_type`
unfoldable pub e_output_type : ℕ → Result Err OutputType
e_output_type n =
    if n == secp_transfer_type_id then ok OutputType.secp_transfer else err (error invalid_type_id)

unfoldable pub parse_e_output : Platform → Parser Output
parse_e_output p input = do
  (_, variant_type) ← p.be_uint 4 input
  variant ← e_output_type variant_type
  parse_output p variant input

abbrev pub e_kind : OutputKind Output
e_kind = record { parse = parse_e_output; num_items = output_num_items; deref = λ o. o }

pub record IsEvmInput (i : EvmInput) : Type 0 where
  pub address : IsArray address_len i.address
  pub amount : IsU64 i.amount
  pub asset_id : IsArray asset_id_len i.asset_id
  pub nonce : IsU64 i.nonce

unfoldable pub encode_evm_input : EvmInput → Bytes
encode_evm_input i = i.address ++ (to_be_bytes 8 i.amount ++ (i.asset_id ++ to_be_bytes 8 i.nonce))

pub record IsEvmOutput (o : EvmOutput) : Type 0 where
  pub address : IsArray address_len o.address
  pub amount : IsU64 o.amount
  pub asset_id : IsArray asset_id_len o.asset_id

unfoldable pub encode_evm_output : EvmOutput → Bytes
encode_evm_output o = o.address ++ (to_be_bytes 8 o.amount ++ o.asset_id)

pub evm_input_some_bytes : (i : EvmInput) → IsEvmInput i → 0 < length (encode_evm_input i)
unfolding encode_evm_input
evm_input_some_bytes i v = rw length-append (omega (arith, v.address.len))

pub evm_output_some_bytes : (o : EvmOutput) → IsEvmOutput o → 0 < length (encode_evm_output o)
unfolding encode_evm_output
evm_output_some_bytes o v = rw length-append (omega (arith, v.address.len))

module _ (p : Platform) where
  pub parse_evm_input-Exact : Exact (parse_evm_input p) encode_evm_input IsEvmInput
  unfolding parse_evm_input encode_evm_input
  parse_evm_input-Exact = record {
    complete = λ i rest v. simp (
      append_assoc,
      reads (parse_address-Exact p) i.address v.address,
      reads (be_uint-Exact p 8) i.amount v.amount,
      reads (parse_asset_id-Exact p) i.asset_id v.asset_id,
      reads (be_uint-Exact p 8) i.nonce v.nonce,
    );
    sound = λ input h. Exact-then (parse_address-Exact p) input h _ λ address r₁ va h₁ e₁.
        Exact-then (be_uint-Exact p 8) r₁ h₁ _ λ amount r₂ vm h₂ e₂.
          Exact-then (parse_asset_id-Exact p) r₂ h₂ _ λ asset_id r₃ vi h₃ e₃.
            Exact-then (be_uint-Exact p 8) r₃ h₃ _ λ nonce r₄ vn _ e₄. returns (
              record { address = va; amount = vm; asset_id = vi; nonce = vn },
              simp (e₁, e₂, e₃, e₄, append_assoc),
            );
  }

  pub parse_evm_output-Exact : Exact (parse_evm_output p) encode_evm_output IsEvmOutput
  unfolding parse_evm_output encode_evm_output
  parse_evm_output-Exact = record {
    complete = λ o rest v. simp (
      append_assoc,
      reads (parse_address-Exact p) o.address v.address,
      reads (be_uint-Exact p 8) o.amount v.amount,
      reads (parse_asset_id-Exact p) o.asset_id v.asset_id,
    );
    sound = λ input h. Exact-then (parse_address-Exact p) input h _ λ address r₁ va h₁ e₁.
        Exact-then (be_uint-Exact p 8) r₁ h₁ _ λ amount r₂ vm h₂ e₂.
          Exact-then (parse_asset_id-Exact p) r₂ h₂ _ λ asset_id r₃ vi _ e₃.
            returns (
              record { address = va; amount = vm; asset_id = vi },
              simp (e₁, e₂, e₃, append_assoc),
            );
  }

e_output_type-Ensures : (n : ℕ) → Ensures (λ t. t ≡ OutputType.secp_transfer) (e_output_type n)
unfolding e_output_type
e_output_type-Ensures n = Ensures-if (n == secp_transfer_type_id) (λ _. returns refl) (λ _. fails)

abbrev pub IsEOutput : Output → Type 0
IsEOutput = IsOutput OutputType.secp_transfer

pub parse_e_output-Exact :
    (p : Platform) → IsWide p → Exact (parse_e_output p) encode_output IsEOutput
unfolding parse_e_output e_output_type
parse_e_output-Exact p wide = record {
  complete = λ o rest v.
      rw ((peek p OutputType.secp_transfer o rest v).1)
        ((parse_output-Exact p wide OutputType.secp_transfer).complete o rest v);
  sound = λ input h. Exact-then (be_uint-Exact p 4) input h _ λ n _ _ _ _.
      Ensures-bind (e_output_type-Ensures n)
        λ t et. rw et ((parse_output-Exact p wide OutputType.secp_transfer).sound input h);
}

unfoldable pub e_laws : OutputLaws Output e_kind
e_laws = record {
  encode = encode_output;
  IsValid = IsEOutput;
  exact = parse_e_output-Exact;
  addresses = output_addresses-IsArrays OutputType.secp_transfer;
}
