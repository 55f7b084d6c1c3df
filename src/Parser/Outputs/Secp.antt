-- ===== src/Parser/Outputs/Secp.antt =====
-- The SECP256K1 outputs: secp_transfer_output.rs, secp_mint_output.rs and secp_output_owners.rs in
-- app/src/parser/outputs.
use ledger_avalanche.Prelude.{
  ℕ, ◌+◌, ◌≤◌, ◌<◌, ◌≡◌, refl, false, some, ◌++◌, Bytes, IsU64, length, to_be_bytes, ltb, ◌==◌,
  if◌then◌else◌, arith, append_assoc,
}
use ledger_avalanche.Errors.{
  ok, error, ◌>>=◌, ◌>>◌, bail_if, ok_or, returns, Ensures-bail, invalid_address_length,
  invalid_threshold,
}
use ledger_avalanche.Platform.{Platform, Parser, IsWide}
use ledger_avalanche.Codec.{Exact, Exact-then, reads, tag-Exact, be_uint-Exact, take_arrays}
use ledger_avalanche.Parser.Outputs.Owners.{
  Owners, IsOwners, parse_owners, encode_owners, parse_owners-Exact, addresses-Exact,
}
use ledger_avalanche.Parser.Ids.{address_len}

pub record SecpTransferOutput : Type 0 where
  pub amount : ℕ
  pub owners : Owners
  pub open owners use *

pub record SecpMintOutput : Type 0 where
  pub owners : Owners
  pub open owners use *

pub record SecpOutputOwners : Type 0 where
  pub owners : Owners
  pub open owners use *

abbrev pub secp_transfer_type_id : ℕ
secp_transfer_type_id = 0x07

abbrev pub secp_mint_type_id : ℕ
secp_mint_type_id = 0x06

abbrev pub secp_owners_type_id : ℕ
secp_owners_type_id = 0x0b

unfoldable pub parse_secp_transfer : Platform → Parser SecpTransferOutput
parse_secp_transfer p input = do
  (rem, _) ← p.tag (to_be_bytes 4 secp_transfer_type_id) input
  (rem, amount) ← p.be_uint 8 rem
  (rem, owners) ← parse_owners p rem
  ok (rem, record { amount = amount; owners = owners })

unfoldable pub parse_secp_mint : Platform → Parser SecpMintOutput
parse_secp_mint p input = do
  (rem, _) ← p.tag (to_be_bytes 4 secp_mint_type_id) input
  (rem, owners) ← parse_owners p rem
  ok (rem, record { owners = owners })

-- This one tests the number of addresses before the cast, and the threshold plainly.
unfoldable pub parse_secp_owners : Platform → Parser SecpOutputOwners
parse_secp_owners p input = do
  (rem, _) ← p.tag (to_be_bytes 4 secp_owners_type_id) input
  (rem, locktime) ← p.be_uint 8 rem
  (rem, threshold) ← p.be_uint 4 rem
  (rem, addr_len) ← p.be_uint 4 rem
  (rem, cast) ← take_arrays p addr_len address_len rem
  bail_if (addr_len == 0) (error invalid_address_length)
  addresses ← ok_or cast (error invalid_address_length)
  bail_if (ltb (length addresses) threshold) (error invalid_threshold)
  ok (
    rem,
    record {
      owners = record { locktime = locktime; threshold = threshold; addresses = addresses };
    },
  )

-- `num_items` of the three: an item for each address, and others as the type has them; a locktime is
-- shown only if it is not zero.
unfoldable pub secp_transfer_num_items : SecpTransferOutput → ℕ
secp_transfer_num_items o = 1 + length o.addresses

abbrev pub shows_locktime : ℕ → ℕ
shows_locktime locktime = if ltb 0 locktime then 1 else 0

unfoldable pub secp_mint_num_items : SecpMintOutput → ℕ
secp_mint_num_items o = 1 + 1 + length o.addresses + shows_locktime o.locktime

unfoldable pub secp_owners_num_items : SecpOutputOwners → ℕ
secp_owners_num_items o = length o.addresses + shows_locktime o.locktime

unfoldable pub encode_secp_transfer : SecpTransferOutput → Bytes
encode_secp_transfer o =
    to_be_bytes 4 secp_transfer_type_id ++ (to_be_bytes 8 o.amount ++ encode_owners o.owners)

unfoldable pub encode_secp_mint : SecpMintOutput → Bytes
encode_secp_mint o = to_be_bytes 4 secp_mint_type_id ++ encode_owners o.owners

unfoldable pub encode_secp_owners : SecpOutputOwners → Bytes
encode_secp_owners o = to_be_bytes 4 secp_owners_type_id ++ encode_owners o.owners

pub record IsSecpTransfer (o : SecpTransferOutput) : Type 0 where
  pub amount : IsU64 o.amount
  pub owners : IsOwners o.owners

abbrev pub IsSecpMint : SecpMintOutput → Type 0
IsSecpMint o = IsOwners o.owners

pub record IsSecpOwners (o : SecpOutputOwners) : Type 0 where
  pub owners : IsOwners o.owners
  pub some_owner : 0 < length o.addresses

ne_zero_test : (n : ℕ) → 0 < n → (n == 0) ≡ false
ne_zero_test n h = ground arith

le_test : (t n : ℕ) → t ≤ n → ltb n t ≡ false
le_test t n h = ground arith

module _ (p : Platform) (wide : IsWide p) where
  pub parse_secp_transfer-Exact : Exact (parse_secp_transfer p) encode_secp_transfer IsSecpTransfer
  unfolding parse_secp_transfer encode_secp_transfer
  parse_secp_transfer-Exact = record {
    complete = λ o rest v. simp (
      append_assoc,
      reads (tag-Exact p (to_be_bytes 4 secp_transfer_type_id)) _ refl,
      reads (be_uint-Exact p 8) o.amount v.amount,
      reads (parse_owners-Exact p wide) o.owners v.owners,
    );
    sound = λ input h.
        Exact-then (tag-Exact p (to_be_bytes 4 secp_transfer_type_id)) input h _ λ t r₁ et h₁ e₁.
          Exact-then (be_uint-Exact p 8) r₁ h₁ _ λ amount r₂ va h₂ e₂.
            Exact-then (parse_owners-Exact p wide) r₂ h₂ _ λ owners r₃ vo h₃ e₃.
              returns (record { amount = va; owners = vo }, simp (e₁, et, e₂, e₃, append_assoc));
  }

  pub parse_secp_mint-Exact : Exact (parse_secp_mint p) encode_secp_mint IsSecpMint
  unfolding parse_secp_mint encode_secp_mint
  parse_secp_mint-Exact = record {
    complete = λ o rest v. simp (
      append_assoc,
      reads (tag-Exact p (to_be_bytes 4 secp_mint_type_id)) _ refl,
      reads (parse_owners-Exact p wide) o.owners v,
    );
    sound = λ input h.
        Exact-then (tag-Exact p (to_be_bytes 4 secp_mint_type_id)) input h _ λ t r₁ et h₁ e₁.
          Exact-then (parse_owners-Exact p wide) r₁ h₁ _
            λ owners r₂ vo h₂ e₂. returns (vo, simp (e₁, et, e₂, append_assoc));
  }

  pub parse_secp_owners-Exact : Exact (parse_secp_owners p) encode_secp_owners IsSecpOwners
  unfolding parse_secp_owners encode_secp_owners encode_owners
  parse_secp_owners-Exact = record {
    complete = λ o rest v.
        simp
          (
            append_assoc,
            reads (tag-Exact p (to_be_bytes 4 secp_owners_type_id)) _ refl,
            reads (be_uint-Exact p 8) o.locktime v.owners.locktime,
            reads (be_uint-Exact p 4) o.threshold v.owners.threshold,
            reads (be_uint-Exact p 4) (length o.addresses) v.owners.count,
            reads (addresses-Exact p wide (length o.addresses) v.owners.count) (some o.addresses)
                (o.addresses, refl, v.owners.addresses, refl),
          )
          (rw (
            ne_zero_test (length o.addresses) v.some_owner,
            le_test o.threshold (length o.addresses) v.owners.enough,
          ));
    sound = λ input h.
        Exact-then (tag-Exact p (to_be_bytes 4 secp_owners_type_id)) input h _ λ t r₀ et h₀ e₀.
          Exact-then (be_uint-Exact p 8) r₀ h₀ _ λ locktime r₁ vl h₁ e₁.
            Exact-then (be_uint-Exact p 4) r₁ h₁ _ λ threshold r₂ vt h₂ e₂.
              Exact-then (be_uint-Exact p 4) r₂ h₂ _ λ count r₃ vc h₃ e₃.
                Exact-then (addresses-Exact p wide count vc) r₃ h₃ _
                  λ cast r₄ (addresses, ec, va, len) h₄ e₄.
                    Ensures-bail (count == 0) _ _ λ not_none. rw ec (
                      Ensures-bail (ltb (length addresses) threshold) _ _ λ fine. returns (
                        record {
                          owners = record {
                            locktime = vl;
                            threshold = vt;
                            count = rw len vc;
                            enough = ground arith;
                            addresses = va;
                          };
                          some_owner = ground arith;
                        },
                        simp (e₀, et, e₁, e₂, e₃, e₄, ec, len, append_assoc),
                      ));
  }
