-- ===== src/Parser/Outputs/Nft.antt =====
-- The NFT outputs: nft_transfer_output.rs and nft_mint_output.rs in app/src/parser/outputs.
use ledger_avalanche.Prelude.{
  ℕ, ◌+◌, ◌≤◌, ◌≡◌, refl, false, ◌++◌, Bytes, IsBytes, IsU32, length, to_be_bytes, ltb, arith,
  append_assoc,
}
use ledger_avalanche.Errors.{
  ok, error, ◌>>=◌, ◌>>◌, bail_if, returns, Ensures-bail, Ensures-weaken, value_out_of_range,
}
use ledger_avalanche.Platform.{Platform, Parser, IsWide}
use ledger_avalanche.Codec.{Exact, Exact-then, reads, take-Exact, tag-Exact, be_uint-Exact}
use ledger_avalanche.Parser.Outputs.Owners.{
  Owners, IsOwners, parse_owners, encode_owners, parse_owners-Exact,
}
use ledger_avalanche.Parser.Outputs.Secp.{shows_locktime}

pub record NftTransferOutput : Type 0 where
  pub group_id : ℕ
  pub payload : Bytes
  pub owners : Owners
  pub open owners use *

pub record NftMintOutput : Type 0 where
  pub group_id : ℕ
  pub owners : Owners
  pub open owners use *

abbrev pub max_payload_len : ℕ
max_payload_len = 1024

abbrev pub nft_transfer_type_id : ℕ
nft_transfer_type_id = 0x0b

abbrev pub nft_mint_type_id : ℕ
nft_mint_type_id = 0x0a

-- `NFTTransferOutput::into_without_type`
unfoldable pub into_without_type : Platform → Parser NftTransferOutput
into_without_type p input = do
  (rem, group_id) ← p.be_uint 4 input
  (rem, payload_len) ← p.be_uint 4 rem
  bail_if (ltb max_payload_len payload_len) (error value_out_of_range)
  (rem, payload) ← p.take payload_len rem
  (rem, owners) ← parse_owners p rem
  ok (rem, record { group_id = group_id; payload = payload; owners = owners })

unfoldable pub parse_nft_transfer : Platform → Parser NftTransferOutput
parse_nft_transfer p input = do
  (rem, _) ← p.tag (to_be_bytes 4 nft_transfer_type_id) input
  into_without_type p rem

unfoldable pub parse_nft_mint : Platform → Parser NftMintOutput
parse_nft_mint p input = do
  (rem, _) ← p.tag (to_be_bytes 4 nft_mint_type_id) input
  (rem, group_id) ← p.be_uint 4 rem
  (rem, owners) ← parse_owners p rem
  ok (rem, record { group_id = group_id; owners = owners })

unfoldable pub nft_transfer_num_items : NftTransferOutput → ℕ
nft_transfer_num_items o = 1 + 1 + length o.addresses

unfoldable pub nft_mint_num_items : NftMintOutput → ℕ
nft_mint_num_items o = 1 + 1 + 1 + length o.addresses + shows_locktime o.locktime

unfoldable pub encode_without_type : NftTransferOutput → Bytes
encode_without_type o =
    to_be_bytes 4 o.group_id
    ++ (to_be_bytes 4 (length o.payload) ++ (o.payload ++ encode_owners o.owners))

unfoldable pub encode_nft_transfer : NftTransferOutput → Bytes
encode_nft_transfer o = to_be_bytes 4 nft_transfer_type_id ++ encode_without_type o

unfoldable pub encode_nft_mint : NftMintOutput → Bytes
encode_nft_mint o =
    to_be_bytes 4 nft_mint_type_id ++ (to_be_bytes 4 o.group_id ++ encode_owners o.owners)

pub record IsNftTransfer (o : NftTransferOutput) : Type 0 where
  pub group_id : IsU32 o.group_id
  pub payload : IsBytes o.payload
  pub payload_fits : length o.payload ≤ max_payload_len
  pub owners : IsOwners o.owners

pub record IsNftMint (o : NftMintOutput) : Type 0 where
  pub group_id : IsU32 o.group_id
  pub owners : IsOwners o.owners

payload_test : (n : ℕ) → n ≤ max_payload_len → ltb max_payload_len n ≡ false
payload_test n h = ground arith

module _ (p : Platform) (wide : IsWide p) where
  pub into_without_type-Exact : Exact (into_without_type p) encode_without_type IsNftTransfer
  unfolding into_without_type encode_without_type
  into_without_type-Exact = record {
    complete = λ o rest v. simp (
      append_assoc,
      reads (be_uint-Exact p 4) o.group_id v.group_id,
      reads (be_uint-Exact p 4) (length o.payload) (omega (arith, v.payload_fits)),
      payload_test (length o.payload) v.payload_fits,
      reads (take-Exact p (length o.payload)) o.payload (v.payload, refl),
      reads (parse_owners-Exact p wide) o.owners v.owners,
    );
    sound = λ input h. Exact-then (be_uint-Exact p 4) input h _ λ group_id r₁ vg h₁ e₁.
        Exact-then (be_uint-Exact p 4) r₁ h₁ _ λ n r₂ vn h₂ e₂.
          Ensures-bail (ltb max_payload_len n) _ _ λ fits.
            Exact-then (take-Exact p n) r₂ h₂ _ λ payload r₃ (bytes, len) h₃ e₃.
              Exact-then (parse_owners-Exact p wide) r₃ h₃ _ λ owners r₄ vo h₄ e₄. returns (
                record { group_id = vg; payload = bytes; payload_fits = ground arith; owners = vo },
                simp (e₁, e₂, e₃, e₄, len, append_assoc),
              );
  }

  pub parse_nft_transfer-Exact : Exact (parse_nft_transfer p) encode_nft_transfer IsNftTransfer
  unfolding parse_nft_transfer encode_nft_transfer
  parse_nft_transfer-Exact = record {
    complete = λ o rest v. simp (
      append_assoc,
      reads (tag-Exact p (to_be_bytes 4 nft_transfer_type_id)) _ refl,
      reads into_without_type-Exact o v,
    );
    sound = λ input h.
        Exact-then (tag-Exact p (to_be_bytes 4 nft_transfer_type_id)) input h _ λ t r₁ et h₁ e₁.
          Ensures-weaken (into_without_type-Exact.sound r₁ h₁)
            λ (r₂, o) (v, e₂). (v, simp (e₁, et, e₂, append_assoc));
  }

  pub parse_nft_mint-Exact : Exact (parse_nft_mint p) encode_nft_mint IsNftMint
  unfolding parse_nft_mint encode_nft_mint
  parse_nft_mint-Exact = record {
    complete = λ o rest v. simp (
      append_assoc,
      reads (tag-Exact p (to_be_bytes 4 nft_mint_type_id)) _ refl,
      reads (be_uint-Exact p 4) o.group_id v.group_id,
      reads (parse_owners-Exact p wide) o.owners v.owners,
    );
    sound = λ input h.
        Exact-then (tag-Exact p (to_be_bytes 4 nft_mint_type_id)) input h _ λ t r₁ et h₁ e₁.
          Exact-then (be_uint-Exact p 4) r₁ h₁ _ λ group_id r₂ vg h₂ e₂.
            Exact-then (parse_owners-Exact p wide) r₂ h₂ _ λ owners r₃ vo h₃ e₃.
              returns (record { group_id = vg; owners = vo }, simp (e₁, et, e₂, e₃, append_assoc));
  }
