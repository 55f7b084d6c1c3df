-- ===== src/Parser/Staking.antt =====
-- app/src/parser/validator.rs and app/src/parser/subnet_auth.rs, the parts of the staking transactions.
use ledger_avalanche.Prelude.{
  ℕ, ◌≡◌, refl, false, some, List, ◌++◌, Bytes, IsBytes, IsU32, IsU64, length, flatten, to_be_bytes,
  append_assoc, arith,
}
use ledger_avalanche.Prelude.Int.{ℤ, leb_ℤ, ◌<ℤ◌, IsI64, i64_to_u64}
use ledger_avalanche.Errors.{
  ok, error, ◌>>=◌, ◌>>◌, bail_if, apdu_unwrap, returns, Ensures, Ensures-bail, invalid_timestamp,
}
use ledger_avalanche.Platform.{Platform, Parser, IsWide}
use ledger_avalanche.Codec.{
  Exact, Exact-then, reads, tag-Exact, be_uint-Exact, be_i64-Exact, take_array, take_array-Exact,
  IsArray, take_arrays, take_arrays-Exact, IsArrays,
}

abbrev pub node_id_len : ℕ
node_id_len = 20

pub record Validator : Type 0 where
  pub node_id : Bytes
  pub start_time : ℤ
  pub endtime : ℤ
  pub weight : ℕ

unfoldable pub parse_validator : Platform → Parser Validator
parse_validator p input = do
  (rem, node_id) ← take_array p node_id_len input
  (rem, start_time) ← p.be_i64 rem
  (rem, endtime) ← p.be_i64 rem
  (rem, weight) ← p.be_uint 8 rem
  bail_if (leb_ℤ endtime start_time) (error invalid_timestamp)
  ok (
    rem,
    record { node_id = node_id; start_time = start_time; endtime = endtime; weight = weight },
  )

pub record SubnetAuth : Type 0 where
  pub sig_indices : List Bytes

abbrev pub subnet_auth_type_id : ℕ
subnet_auth_type_id = 0x0a

unfoldable pub parse_subnet_auth : Platform → Parser SubnetAuth
parse_subnet_auth p input = do
  (rem, _) ← p.tag (to_be_bytes 4 subnet_auth_type_id) input
  (rem, num_indices) ← p.be_uint 4 rem
  (rem, cast) ← take_arrays p num_indices 4 rem
  indices ← apdu_unwrap cast
  ok (rem, record { sig_indices = indices })

unfoldable pub encode_validator : Validator → Bytes
encode_validator v =
    v.node_id
    ++ (to_be_bytes 8 (i64_to_u64 v.start_time)
        ++ (to_be_bytes 8 (i64_to_u64 v.endtime) ++ to_be_bytes 8 v.weight))

-- A validator ends after it starts.
pub record IsValidator (v : Validator) : Type 0 where
  pub node_id : IsArray node_id_len v.node_id
  pub start_time : IsI64 v.start_time
  pub endtime : IsI64 v.endtime
  pub weight : IsU64 v.weight
  pub ends_later : v.start_time <ℤ v.endtime

unfoldable pub encode_subnet_auth : SubnetAuth → Bytes
encode_subnet_auth s =
    to_be_bytes 4 subnet_auth_type_id
    ++ (to_be_bytes 4 (length s.sig_indices) ++ flatten s.sig_indices)

pub record IsSubnetAuth (s : SubnetAuth) : Type 0 where
  pub count : IsU32 (length s.sig_indices)
  pub indices : IsArrays 4 s.sig_indices

later_test : (a b : ℤ) → a <ℤ b → leb_ℤ b a ≡ false
later_test a b h = ground arith

later_of_test : (a b : ℤ) → leb_ℤ b a ≡ false → a <ℤ b
later_of_test a b h = ground arith

pub parse_validator-Exact : (p : Platform) → Exact (parse_validator p) encode_validator IsValidator
unfolding parse_validator encode_validator
parse_validator-Exact p = record {
  complete = λ v rest h. simp (
    append_assoc,
    reads (take_array-Exact p node_id_len) v.node_id h.node_id,
    reads (be_i64-Exact p) v.start_time h.start_time,
    reads (be_i64-Exact p) v.endtime h.endtime,
    reads (be_uint-Exact p 8) v.weight h.weight,
    later_test v.start_time v.endtime h.ends_later,
  );
  sound = λ input h. Exact-then (take_array-Exact p node_id_len) input h _ λ node_id r₁ vn h₁ e₁.
      Exact-then (be_i64-Exact p) r₁ h₁ _ λ start_time r₂ vs h₂ e₂.
        Exact-then (be_i64-Exact p) r₂ h₂ _ λ endtime r₃ ve h₃ e₃.
          Exact-then (be_uint-Exact p 8) r₃ h₃ _ λ weight r₄ vw _ e₄.
            Ensures-bail (leb_ℤ endtime start_time) _ _ λ later. returns (
              record {
                node_id = vn;
                start_time = vs;
                endtime = ve;
                weight = vw;
                ends_later = later_of_test start_time endtime later;
              },
              simp (e₁, e₂, e₃, e₄, append_assoc),
            );
}

pub parse_subnet_auth-Exact :
    (p : Platform) → IsWide p → Exact (parse_subnet_auth p) encode_subnet_auth IsSubnetAuth
unfolding parse_subnet_auth encode_subnet_auth
parse_subnet_auth-Exact p wide = record {
  complete = λ s rest v. simp (
    append_assoc,
    reads (tag-Exact p (to_be_bytes 4 subnet_auth_type_id)) _ refl,
    reads (be_uint-Exact p 4) (length s.sig_indices) v.count,
    reads (take_arrays-Exact p wide (length s.sig_indices) 4 v.count (omega arith) (omega arith))
        (some s.sig_indices) (s.sig_indices, refl, v.indices, refl),
  );
  sound = λ input h.
      Exact-then (tag-Exact p (to_be_bytes 4 subnet_auth_type_id)) input h _ λ t r₁ et h₁ e₁.
        Exact-then (be_uint-Exact p 4) r₁ h₁ _ λ count r₂ vc h₂ e₂.
          Exact-then (take_arrays-Exact p wide count 4 vc (omega arith) (omega arith)) r₂ h₂ _
            λ cast r₃ (indices, ec, vi, len) _ e₃. rw ec (
              returns (
                record { count = rw len vc; indices = vi },
                simp (e₁, et, e₂, e₃, ec, len, append_assoc),
              ));
}

-- On any platform, the parser of a validator reads a valid one, which ends after it starts, back from
-- its encoding, whatever bytes follow it.
pub parse_validator-encode_validator :
    (p : Platform) (v : Validator) (rest : Bytes)
    → IsValidator v
    → parse_validator p (encode_validator v ++ rest) ≡ ok (rest, v)
parse_validator-encode_validator p = (parse_validator-Exact p).complete

-- On any platform and any bytes, the parser of a validator does not panic, and what it returns ends
-- after it starts and has an encoding that is, with the rest, the input.
pub parse_validator_sound :
    (p : Platform) (input : Bytes)
    → IsBytes input
    → Ensures
        (λ r. IsValidator r.1 × (input ≡ encode_validator r.1 ++ r.0))
        (parse_validator p input)
parse_validator_sound p = (parse_validator-Exact p).sound
