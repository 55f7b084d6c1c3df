-- ===== src/Parser/Outputs/Wrap.antt =====
-- The count of an output's addresses where `usize` has 32 bits, as on the device, and products wrap.
use ledger_avalanche.Prelude.{
  ℕ, ◌+◌, ◌*◌, ◌^◌, ◌<◌, ◌≡◌, sym, ◌∙◌, some, List, ◌++◌, Bytes, length, flatten, to_be_bytes,
  length-flatten, arith,
}
use ledger_avalanche.Errors.{ok}
use ledger_avalanche.Platform.{Platform, usize_mul}
use ledger_avalanche.Codec.{reads, be_uint-Exact, take_arrays, IsArrays, IsArrays-lengths}
use ledger_avalanche.Parser.Outputs.Owners.{Owners, IsOwners, parse_owners, bad_threshold-false}
use ledger_avalanche.Parser.Ids.{address_len}

module _ (p : Platform) (narrow : p.usize_values ≡ 2 ^ 32) where
  wrapped_product : (n : ℕ) → n < 2 ^ 20 → usize_mul p (2 ^ 30 + n) address_len ≡ n * address_len
  unfolding usize_mul
  wrapped_product n h = rw narrow (omega (arith, h))

  take_wrapped :
      (addresses : List Bytes) (rest : Bytes)
      → IsArrays address_len addresses
      → length addresses < 2 ^ 20
      → take_arrays p (2 ^ 30 + length addresses) address_len (flatten addresses ++ rest)
        ≡ ok (rest, some addresses)
  unfolding take_arrays
  take_wrapped addresses rest v h =
      let lengths = IsArrays-lengths address_len addresses v in
      let total : length (flatten addresses) ≡ usize_mul p (2 ^ 30 + length addresses) address_len =
        length-flatten address_len addresses lengths ∙ sym (wrapped_product (length addresses) h) in
      rw (
        p.take_ok (usize_mul p (2 ^ 30 + length addresses) address_len) (flatten addresses) rest
            total,
        p.try_cast_slice_ok address_len addresses (omega arith) lengths,
      )

  -- Where `usize` has 32 bits and products wrap, the owners of an output, with less than 2 ^ 20
  -- addresses, are read off bytes that tell 2 ^ 30 addresses more than there are.
  pub parse_owners_wraps :
      (o : Owners) (rest : Bytes)
      → IsOwners o
      → length o.addresses < 2 ^ 20
      → parse_owners p (
          to_be_bytes 8 o.locktime
          ++ (to_be_bytes 4 o.threshold
              ++ (to_be_bytes 4 (2 ^ 30 + length o.addresses) ++ (flatten o.addresses ++ rest))))
        ≡ ok (rest, o)
  unfolding parse_owners
  parse_owners_wraps o rest v h =
      simp
        (
          reads (be_uint-Exact p 8) o.locktime v.locktime,
          reads (be_uint-Exact p 4) o.threshold v.threshold,
          reads (be_uint-Exact p 4) (2 ^ 30 + length o.addresses) (omega (arith, h)),
          take_wrapped o.addresses rest v.addresses h,
        )
        (rw (bad_threshold-false o.threshold o.addresses v.enough))
