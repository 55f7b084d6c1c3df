-- ===== src/Parser/Wire/Owners.antt =====
-- The owners at the end of an output, as app/src/parser/outputs reads them on any width of `usize`.
use ledger_avalanche.Prelude.{
  ℕ, ◌≤◌, ◌≡◌, refl, ◌++◌, Bytes, IsU32, IsU64, length, flatten, to_be_bytes, append_assoc, arith,
}
use ledger_avalanche.Errors.{fails, returns, Ensures-bail}
use ledger_avalanche.Platform.{Platform}
use ledger_avalanche.Codec.{Accepts, Exact-then, be_uint-Exact, take_arrays-then, IsCounted}
use ledger_avalanche.Parser.Ids.{address_len}
use ledger_avalanche.Parser.Outputs.Owners.{
  Owners, parse_owners, bad_threshold, le_of_bad_threshold,
}

-- The owners' bytes with the count that they tell.
unfoldable pub encode_owners_with : ℕ → Owners → Bytes
encode_owners_with count o =
    to_be_bytes 8 o.locktime
    ++ (to_be_bytes 4 o.threshold ++ (to_be_bytes 4 count ++ flatten o.addresses))

-- The addresses take as many bytes as the code computes from the count.
pub record OwnersOnWire (p : Platform) (o : Owners) (bs : Bytes) : Type 0 where
  pub locktime : IsU64 o.locktime
  pub threshold : IsU32 o.threshold
  pub count : ℕ
  pub counted : IsCounted p address_len count o.addresses
  pub enough : o.threshold ≤ length o.addresses
  pub bytes : bs ≡ encode_owners_with count o

pub parse_owners-Accepts : (p : Platform) → Accepts (parse_owners p) (OwnersOnWire p)
unfolding parse_owners encode_owners_with
parse_owners-Accepts p = record {
  reads_off = λ input h. Exact-then (be_uint-Exact p 8) input h _ λ locktime r₁ vl h₁ e₁.
      Exact-then (be_uint-Exact p 4) r₁ h₁ _ λ threshold r₂ vt h₂ e₂.
        Exact-then (be_uint-Exact p 4) r₂ h₂ _ λ count r₃ vc h₃ e₃.
          take_arrays-then p count address_len vc (omega arith) r₃ h₃ _ (λ _ _. fails)
            λ addresses r₄ counted _ e₄.
              Ensures-bail (bad_threshold threshold addresses) _ _ λ fine.
                let o : Owners = record {
                  locktime = locktime;
                  threshold = threshold;
                  addresses = addresses;
                } in
                returns (
                  encode_owners_with count o,
                  record {
                    locktime = vl;
                    threshold = vt;
                    count = count;
                    counted = counted;
                    enough = le_of_bad_threshold threshold addresses fine;
                    bytes = refl;
                  },
                  simp (e₁, e₂, e₃, e₄, append_assoc),
                );
}
