-- ===== src/Parser/Wire/Inputs.antt =====
-- The inputs of app/src/parser/inputs.rs and the authorisation of app/src/parser/subnet_auth.rs on any
-- width of `usize`.
use ledger_avalanche.Prelude.{
  ℕ, ◌%◌, ◌≡◌, refl, ◌++◌, Bytes, IsU32, IsU64, flatten, to_be_bytes, append_assoc, arith,
}
use ledger_avalanche.Errors.{fails, returns, Ensures-bind}
use ledger_avalanche.Platform.{Platform}
use ledger_avalanche.Codec.{
  Accepts, Accepts-then, Exact-then, tag-Exact, be_uint-Exact, take_array-Exact, IsArray,
  take_arrays-then, IsCounted, usize_mul-whole, encode_locked, IsLocked, parse_locked_sound,
}
use ledger_avalanche.Parser.Ids.{parse_asset_id-Exact, asset_id_len, tx_id_len}
use ledger_avalanche.Parser.Inputs.{
  SecpTransferInput, secp_transfer_input_type_id, parse_secp_transfer_input, Input, parse_input,
  input_type-Ensures, TransferableInput, locked_input_tag, parse_transferable_input, u32_size,
}
use ledger_avalanche.Parser.Staking.{SubnetAuth, subnet_auth_type_id, parse_subnet_auth}

module _ (p : Platform) where
  pub record SecpInputOnWire (i : SecpTransferInput) (bs : Bytes) : Type 0 where
    pub amount : IsU64 i.amount
    pub count : ℕ
    pub counted : IsCounted p u32_size count i.address_indices
    pub bytes :
        bs
        ≡ to_be_bytes 4 secp_transfer_input_type_id
          ++ (to_be_bytes 8 i.amount ++ (to_be_bytes 4 count ++ flatten i.address_indices))

  parse_secp_transfer_input-Accepts : Accepts (parse_secp_transfer_input p) SecpInputOnWire
  unfolding parse_secp_transfer_input
  parse_secp_transfer_input-Accepts = record {
    reads_off = λ input h.
        Exact-then (tag-Exact p (to_be_bytes 4 secp_transfer_input_type_id)) input h _
          λ t r₁ et h₁ e₁. Exact-then (be_uint-Exact p 8) r₁ h₁ _ λ amount r₂ va h₂ e₂.
            Exact-then (be_uint-Exact p 4) r₂ h₂ _ λ count r₃ vc h₃ e₃.
              take_arrays-then p count u32_size vc (omega arith) r₃ h₃ _ (λ _ _. fails)
                λ indices r₄ counted _ e₄. returns (
                  to_be_bytes 4 secp_transfer_input_type_id
                      ++ (to_be_bytes 8 amount ++ (to_be_bytes 4 count ++ flatten indices)),
                  record { amount = va; count = count; counted = counted; bytes = refl },
                  simp (e₁, et, e₂, e₃, e₄, append_assoc),
                );
  }

  abbrev pub InputOnWire : Input → Bytes → Type 0
  InputOnWire (Input.secp_transfer i) = SecpInputOnWire i

  parse_input-Accepts : Accepts (parse_input p) InputOnWire
  unfolding parse_input
  parse_input-Accepts = record {
    reads_off = λ input h. Exact-then (be_uint-Exact p 4) input h _ λ n _ _ _ _.
        Ensures-bind (input_type-Ensures n) λ _ _.
          Accepts-then parse_secp_transfer_input-Accepts input h _
            λ i bs rest v _ e. returns (bs, v, e);
  }

  pub record TransferableInputOnWire (t : TransferableInput) (bs : Bytes) : Type 0 where
    pub tx_id : IsArray tx_id_len t.tx_id
    pub utxo_index : IsU32 t.utxo_index
    pub asset_id : IsArray asset_id_len t.asset_id
    pub locktime : IsLocked IsU64 t.locktime
    pub input_bytes : Bytes
    pub input : InputOnWire t.input input_bytes
    pub bytes :
        bs
        ≡ t.tx_id
          ++ (to_be_bytes 4 t.utxo_index
              ++ (t.asset_id
                  ++ (encode_locked (to_be_bytes 8) locked_input_tag t.locktime ++ input_bytes)))

  pub parse_transferable_input-Accepts :
      Accepts (parse_transferable_input p) TransferableInputOnWire
  unfolding parse_transferable_input
  parse_transferable_input-Accepts = record {
    reads_off = λ input h. Exact-then (take_array-Exact p tx_id_len) input h _ λ tx_id r₁ vt h₁ e₁.
        Exact-then (be_uint-Exact p 4) r₁ h₁ _ λ utxo_index r₂ vu h₂ e₂.
          Exact-then (parse_asset_id-Exact p) r₂ h₂ _ λ asset_id r₃ va h₃ e₃.
            Ensures-bind (parse_locked_sound (be_uint-Exact p 8) p locked_input_tag r₃ h₃)
              λ (r₄, locktime) (vl, h₄, e₄).
                Accepts-then parse_input-Accepts r₄ h₄ _ λ i bs r₅ vi _ e₅. returns (
                  tx_id
                      ++ (to_be_bytes 4 utxo_index
                          ++ (asset_id
                              ++ (encode_locked (to_be_bytes 8) locked_input_tag locktime ++ bs))),
                  record {
                    tx_id = vt;
                    utxo_index = vu;
                    asset_id = va;
                    locktime = vl;
                    input_bytes = bs;
                    input = vi;
                    bytes = refl;
                  },
                  simp (e₁, e₂, e₃, e₄, e₅, append_assoc),
                );
  }

  pub record SubnetAuthOnWire (s : SubnetAuth) (bs : Bytes) : Type 0 where
    pub count : ℕ
    pub counted : IsCounted p 4 count s.sig_indices
    pub bytes :
        bs ≡ to_be_bytes 4 subnet_auth_type_id ++ (to_be_bytes 4 count ++ flatten s.sig_indices)

  -- The cast is unwrapped, so the width has to be a multiple of 4.
  pub parse_subnet_auth-Accepts :
      p.usize_values % 4 ≡ 0 → Accepts (parse_subnet_auth p) SubnetAuthOnWire
  unfolding parse_subnet_auth
  parse_subnet_auth-Accepts fours = record {
    reads_off = λ input h.
        Exact-then (tag-Exact p (to_be_bytes 4 subnet_auth_type_id)) input h _ λ t r₁ et h₁ e₁.
          Exact-then (be_uint-Exact p 4) r₁ h₁ _ λ count r₂ vc h₂ e₂.
            take_arrays-then p count 4 vc (omega arith) r₂ h₂ _
              (λ _ ne. absurd (ne (usize_mul-whole p 4 count fours)))
              λ indices r₃ counted _ e₃. returns (
                to_be_bytes 4 subnet_auth_type_id ++ (to_be_bytes 4 count ++ flatten indices),
                record { count = count; counted = counted; bytes = refl },
                simp (e₁, et, e₂, e₃, append_assoc),
              );
  }
