-- ===== src/Parser/Outputs/Owners.antt =====
-- The owners of an output: what secp_transfer_output.rs, secp_mint_output.rs, nft_mint_output.rs and
-- nft_transfer_output.rs in app/src/parser/outputs read in the same words at their ends, a locktime,
-- a threshold and a counted list of addresses.
use ledger_avalanche.Prelude.{
  ℕ, ◌≤◌, ◌≡◌, refl, Bool, false, ◌&&◌, ◌||◌, not, some, List, ◌++◌, Bytes, IsU32, IsU64, length,
  flatten, to_be_bytes, ltb, ◌==◌, arith, append_assoc,
}
use ledger_avalanche.Errors.{
  ok, error, ◌>>=◌, ◌>>◌, bail_if, ok_or, returns, Ensures-bail, invalid_address_length,
  invalid_threshold,
}
use ledger_avalanche.Platform.{Platform, Parser, IsWide}
use ledger_avalanche.Codec.{
  Exact, Exact-then, reads, be_uint-Exact, take_arrays, take_arrays-Exact, IsArrays, IsSomeArrays,
  flatten_some,
}
use ledger_avalanche.Parser.Ids.{address_len}

pub record Owners : Type 0 where
  pub locktime : ℕ
  pub threshold : ℕ
  pub addresses : List Bytes

-- `threshold as usize > addresses.len() || (addresses.is_empty() && threshold != 0)`
abbrev pub bad_threshold : ℕ → List Bytes → Bool
bad_threshold threshold addresses =
    ltb (length addresses) threshold || (length addresses == 0 && not (threshold == 0))

unfoldable pub parse_owners : Platform → Parser Owners
parse_owners p input = do
  (rem, locktime) ← p.be_uint 8 input
  (rem, threshold) ← p.be_uint 4 rem
  (rem, addr_len) ← p.be_uint 4 rem
  (rem, cast) ← take_arrays p addr_len address_len rem
  addresses ← ok_or cast (error invalid_address_length)
  bail_if (bad_threshold threshold addresses) (error invalid_threshold)
  ok (rem, record { locktime = locktime; threshold = threshold; addresses = addresses })

unfoldable pub encode_owners : Owners → Bytes
encode_owners o =
    to_be_bytes 8 o.locktime
    ++ (to_be_bytes 4 o.threshold ++ (to_be_bytes 4 (length o.addresses) ++ flatten o.addresses))

pub record IsOwners (o : Owners) : Type 0 where
  pub locktime : IsU64 o.locktime
  pub threshold : IsU32 o.threshold
  pub count : IsU32 (length o.addresses)
  pub enough : o.threshold ≤ length o.addresses
  pub addresses : IsArrays address_len o.addresses

pub bad_threshold-false :
    (threshold : ℕ) (addresses : List Bytes)
    → threshold ≤ length addresses
    → bad_threshold threshold addresses ≡ false
bad_threshold-false threshold addresses h = ground arith

pub le_of_bad_threshold :
    (threshold : ℕ) (addresses : List Bytes)
    → bad_threshold threshold addresses ≡ false
    → threshold ≤ length addresses
le_of_bad_threshold threshold addresses h = ground arith

module _ (p : Platform) (wide : IsWide p) where
  pub addresses-Exact :
      (count : ℕ)
      → IsU32 count
      → Exact (take_arrays p count address_len) flatten_some (IsSomeArrays count address_len)
  addresses-Exact count h = take_arrays-Exact p wide count address_len h (omega arith) (omega arith)

  pub parse_owners-Exact : Exact (parse_owners p) encode_owners IsOwners
  unfolding parse_owners encode_owners
  parse_owners-Exact = record {
    complete = λ o rest v.
        simp
          (
            append_assoc,
            reads (be_uint-Exact p 8) o.locktime v.locktime,
            reads (be_uint-Exact p 4) o.threshold v.threshold,
            reads (be_uint-Exact p 4) (length o.addresses) v.count,
            reads (addresses-Exact (length o.addresses) v.count) (some o.addresses)
                (o.addresses, refl, v.addresses, refl),
          )
          (rw (bad_threshold-false o.threshold o.addresses v.enough));
    sound = λ input h. Exact-then (be_uint-Exact p 8) input h _ λ locktime r₁ vl h₁ e₁.
        Exact-then (be_uint-Exact p 4) r₁ h₁ _ λ threshold r₂ vt h₂ e₂.
          Exact-then (be_uint-Exact p 4) r₂ h₂ _ λ count r₃ vc h₃ e₃.
            Exact-then (addresses-Exact count vc) r₃ h₃ _ λ cast r₄ (addresses, ec, va, len) h₄ e₄.
              rw ec (
                Ensures-bail (bad_threshold threshold addresses) _ _ λ fine. returns (
                  record {
                    locktime = vl;
                    threshold = vt;
                    count = rw len vc;
                    enough = le_of_bad_threshold threshold addresses fine;
                    addresses = va;
                  },
                  simp (e₁, e₂, e₃, e₄, ec, len, append_assoc),
                ));
  }
