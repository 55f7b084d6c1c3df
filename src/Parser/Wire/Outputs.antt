-- ===== src/Parser/Wire/Outputs.antt =====
-- The outputs of app/src/parser/outputs on any width of `usize`.
use ledger_avalanche.Prelude.{
  ℕ, ◌≤◌, ◌<◌, ◌≡◌, refl, false, ◌++◌, Bytes, IsBytes, IsU32, IsU64, length, to_be_bytes,
  append_assoc, arith, ltb, ◌==◌,
}
use ledger_avalanche.Errors.{fails, returns, Ensures-bail}
use ledger_avalanche.Platform.{Platform}
use ledger_avalanche.Codec.{
  Accepts, Accepts-then, Exact-then, tag-Exact, take-Exact, be_uint-Exact, take_arrays-then,
}
use ledger_avalanche.Parser.Ids.{address_len}
use ledger_avalanche.Parser.Outputs.Owners.{Owners}
use ledger_avalanche.Parser.Outputs.Secp.{
  SecpTransferOutput, SecpMintOutput, SecpOutputOwners, parse_secp_transfer, parse_secp_mint,
  parse_secp_owners, secp_transfer_type_id, secp_mint_type_id, secp_owners_type_id,
}
use ledger_avalanche.Parser.Outputs.Nft.{
  NftTransferOutput, NftMintOutput, parse_nft_transfer, parse_nft_mint, into_without_type,
  nft_transfer_type_id, nft_mint_type_id, max_payload_len,
}
use ledger_avalanche.Parser.Wire.Owners.{OwnersOnWire, parse_owners-Accepts, encode_owners_with}

module _ (p : Platform) where
  pub record SecpTransferOnWire (o : SecpTransferOutput) (bs : Bytes) : Type 0 where
    pub amount : IsU64 o.amount
    pub owner_bytes : Bytes
    pub owners : OwnersOnWire p o.owners owner_bytes
    pub bytes : bs ≡ to_be_bytes 4 secp_transfer_type_id ++ (to_be_bytes 8 o.amount ++ owner_bytes)

  pub parse_secp_transfer-Accepts : Accepts (parse_secp_transfer p) SecpTransferOnWire
  unfolding parse_secp_transfer
  parse_secp_transfer-Accepts = record {
    reads_off = λ input h.
        Exact-then (tag-Exact p (to_be_bytes 4 secp_transfer_type_id)) input h _ λ t r₁ et h₁ e₁.
          Exact-then (be_uint-Exact p 8) r₁ h₁ _ λ amount r₂ va h₂ e₂.
            Accepts-then (parse_owners-Accepts p) r₂ h₂ _ λ owners bs r₃ vo _ e₃. returns (
              to_be_bytes 4 secp_transfer_type_id ++ (to_be_bytes 8 amount ++ bs),
              record { amount = va; owner_bytes = bs; owners = vo; bytes = refl },
              simp (e₁, et, e₂, e₃, append_assoc),
            );
  }

  pub record SecpMintOnWire (o : SecpMintOutput) (bs : Bytes) : Type 0 where
    pub owner_bytes : Bytes
    pub owners : OwnersOnWire p o.owners owner_bytes
    pub bytes : bs ≡ to_be_bytes 4 secp_mint_type_id ++ owner_bytes

  pub parse_secp_mint-Accepts : Accepts (parse_secp_mint p) SecpMintOnWire
  unfolding parse_secp_mint
  parse_secp_mint-Accepts = record {
    reads_off = λ input h.
        Exact-then (tag-Exact p (to_be_bytes 4 secp_mint_type_id)) input h _ λ t r₁ et h₁ e₁.
          Accepts-then (parse_owners-Accepts p) r₁ h₁ _ λ owners bs r₂ vo _ e₂. returns (
            to_be_bytes 4 secp_mint_type_id ++ bs,
            record { owner_bytes = bs; owners = vo; bytes = refl },
            simp (e₁, et, e₂, append_assoc),
          );
  }

  -- The count is not zero, but on a width where it wraps around there may be no owner.
  pub record SecpOwnersOnWire (o : SecpOutputOwners) (bs : Bytes) : Type 0 where
    pub owner_bytes : Bytes
    pub owners : OwnersOnWire p o.owners owner_bytes
    pub some_count : 0 < owners.count
    pub bytes : bs ≡ to_be_bytes 4 secp_owners_type_id ++ owner_bytes

  not_zero : (n : ℕ) → (n == 0) ≡ false → 0 < n
  not_zero n h = ground arith

  not_more : (t n : ℕ) → ltb n t ≡ false → t ≤ n
  not_more t n h = ground arith

  pub parse_secp_owners-Accepts : Accepts (parse_secp_owners p) SecpOwnersOnWire
  unfolding parse_secp_owners encode_owners_with
  parse_secp_owners-Accepts = record {
    reads_off = λ input h.
        Exact-then (tag-Exact p (to_be_bytes 4 secp_owners_type_id)) input h _ λ t r₀ et h₀ e₀.
          Exact-then (be_uint-Exact p 8) r₀ h₀ _ λ locktime r₁ vl h₁ e₁.
            Exact-then (be_uint-Exact p 4) r₁ h₁ _ λ threshold r₂ vt h₂ e₂.
              Exact-then (be_uint-Exact p 4) r₂ h₂ _ λ count r₃ vc h₃ e₃.
                take_arrays-then p count address_len vc (omega arith) r₃ h₃ _
                  (λ _ _. Ensures-bail (count == 0) _ _ λ _. fails)
                  λ addresses r₄ counted _ e₄. Ensures-bail (count == 0) _ _ λ some_count.
                    Ensures-bail (ltb (length addresses) threshold) _ _ λ fine.
                      let o : Owners = record {
                        locktime = locktime;
                        threshold = threshold;
                        addresses = addresses;
                      } in
                      let on_wire : OwnersOnWire p o (encode_owners_with count o) = record {
                        locktime = vl;
                        threshold = vt;
                        count = count;
                        counted = counted;
                        enough = not_more threshold (length addresses) fine;
                        bytes = refl;
                      } in
                      returns (
                        to_be_bytes 4 secp_owners_type_id ++ encode_owners_with count o,
                        record {
                          owner_bytes = encode_owners_with count o;
                          owners = on_wire;
                          some_count = not_zero count some_count;
                          bytes = refl;
                        },
                        simp (e₀, et, e₁, e₂, e₃, e₄, append_assoc),
                      );
  }

  pub record NftTransferOnWire (o : NftTransferOutput) (bs : Bytes) : Type 0 where
    pub group_id : IsU32 o.group_id
    pub payload : IsBytes o.payload
    pub payload_fits : length o.payload ≤ max_payload_len
    pub owner_bytes : Bytes
    pub owners : OwnersOnWire p o.owners owner_bytes
    pub bytes :
        bs
        ≡ to_be_bytes 4 nft_transfer_type_id
          ++ (to_be_bytes 4 o.group_id
              ++ (to_be_bytes 4 (length o.payload) ++ (o.payload ++ owner_bytes)))

  pub parse_nft_transfer-Accepts : Accepts (parse_nft_transfer p) NftTransferOnWire
  unfolding parse_nft_transfer into_without_type
  parse_nft_transfer-Accepts = record {
    reads_off = λ input h.
        Exact-then (tag-Exact p (to_be_bytes 4 nft_transfer_type_id)) input h _ λ t r₀ et h₀ e₀.
          Exact-then (be_uint-Exact p 4) r₀ h₀ _ λ group_id r₁ vg h₁ e₁.
            Exact-then (be_uint-Exact p 4) r₁ h₁ _ λ n r₂ vn h₂ e₂.
              Ensures-bail (ltb max_payload_len n) _ _ λ fits.
                Exact-then (take-Exact p n) r₂ h₂ _ λ payload r₃ (are, len) h₃ e₃.
                  Accepts-then (parse_owners-Accepts p) r₃ h₃ _ λ owners bs r₄ vo _ e₄. returns (
                    to_be_bytes 4 nft_transfer_type_id
                        ++ (to_be_bytes 4 group_id
                            ++ (to_be_bytes 4 (length payload) ++ (payload ++ bs))),
                    record {
                      group_id = vg;
                      payload = are;
                      payload_fits = rw len (not_more n max_payload_len fits);
                      owner_bytes = bs;
                      owners = vo;
                      bytes = refl;
                    },
                    simp (e₀, et, e₁, e₂, e₃, e₄, len, append_assoc),
                  );
  }

  pub record NftMintOnWire (o : NftMintOutput) (bs : Bytes) : Type 0 where
    pub group_id : IsU32 o.group_id
    pub owner_bytes : Bytes
    pub owners : OwnersOnWire p o.owners owner_bytes
    pub bytes : bs ≡ to_be_bytes 4 nft_mint_type_id ++ (to_be_bytes 4 o.group_id ++ owner_bytes)

  pub parse_nft_mint-Accepts : Accepts (parse_nft_mint p) NftMintOnWire
  unfolding parse_nft_mint
  parse_nft_mint-Accepts = record {
    reads_off = λ input h.
        Exact-then (tag-Exact p (to_be_bytes 4 nft_mint_type_id)) input h _ λ t r₁ et h₁ e₁.
          Exact-then (be_uint-Exact p 4) r₁ h₁ _ λ group_id r₂ vg h₂ e₂.
            Accepts-then (parse_owners-Accepts p) r₂ h₂ _ λ owners bs r₃ vo _ e₃. returns (
              to_be_bytes 4 nft_mint_type_id ++ (to_be_bytes 4 group_id ++ bs),
              record { group_id = vg; owner_bytes = bs; owners = vo; bytes = refl },
              simp (e₁, et, e₂, e₃, append_assoc),
            );
  }
