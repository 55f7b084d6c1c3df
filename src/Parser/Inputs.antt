-- ===== src/Parser/Inputs.antt =====
-- app/src/parser/inputs.rs and app/src/parser/inputs/secp_transfer_input.rs
use ledger_avalanche.Prelude.{
  ℕ, ◌+◌, ◌≡◌, refl, Option, some, List, ◌++◌, Bytes, IsU32, IsU64, length, flatten, to_be_bytes,
  append_assoc, arith, ◌==◌, if◌then◌else◌,
}
use ledger_avalanche.Errors.{
  Result, ok, err, error, Err, ◌>>=◌, ok_or, returns, fails, Ensures, Ensures-bind, Ensures-if,
  invalid_address_length, invalid_type_id,
}
use ledger_avalanche.Platform.{Platform, Parser, IsWide}
use ledger_avalanche.Codec.{
  Exact, Exact-then, reads, tag-Exact, be_uint-Exact, take_array, take_array-Exact, IsArray,
  take_arrays, take_arrays-Exact, IsArrays, IsSomeArrays, flatten_some, parse_locked, encode_locked,
  IsLocked, parse_locked_sound, parse_locked_complete,
}
use ledger_avalanche.Parser.Ids.{parse_asset_id, parse_asset_id-Exact, asset_id_len, tx_id_len}

abbrev pub u32_size : ℕ
u32_size = 4

pub record SecpTransferInput : Type 0 where
  pub amount : ℕ
  pub address_indices : List Bytes

abbrev pub secp_transfer_input_type_id : ℕ
secp_transfer_input_type_id = 0x05

unfoldable pub parse_secp_transfer_input : Platform → Parser SecpTransferInput
parse_secp_transfer_input p input = do
  (rem, _) ← p.tag (to_be_bytes 4 secp_transfer_input_type_id) input
  (rem, amount) ← p.be_uint 8 rem
  (rem, num_indices) ← p.be_uint 4 rem
  (rem, cast) ← take_arrays p num_indices u32_size rem
  indices ← ok_or cast (error invalid_address_length)
  ok (rem, record { amount = amount; address_indices = indices })

-- The enum has one variant.
pub data Input : Type 0 where
  secp_transfer : SecpTransferInput → Input

-- `InputType::from_bytes`, the test of the type id.
unfoldable pub input_type : ℕ → Result Err (Unit {0})
input_type n = if n == secp_transfer_input_type_id then ok tt else err (error invalid_type_id)

unfoldable pub parse_input : Platform → Parser Input
parse_input p input = do
  (_, variant_type) ← p.be_uint 4 input
  _ ← input_type variant_type
  (rem, i) ← parse_secp_transfer_input p input
  ok (rem, secp_transfer i)

unfoldable pub input_amount : Input → Option ℕ
input_amount (secp_transfer i) = some i.amount

pub record TransferableInput : Type 0 where
  pub tx_id : Bytes
  pub utxo_index : ℕ
  pub asset_id : Bytes
  pub locktime : Option ℕ
  pub input : Input

abbrev pub locked_input_tag : ℕ
locked_input_tag = 0x15

unfoldable pub parse_transferable_input : Platform → Parser TransferableInput
parse_transferable_input p bytes = do
  (rem, tx_id) ← take_array p tx_id_len bytes
  (rem, utxo_index) ← p.be_uint 4 rem
  (rem, asset_id) ← parse_asset_id p rem
  (rem, locktime) ← parse_locked (p.be_uint 8) p locked_input_tag rem
  (rem, input) ← parse_input p rem
  ok (
    rem,
    record {
      tx_id = tx_id;
      utxo_index = utxo_index;
      asset_id = asset_id;
      locktime = locktime;
      input = input;
    },
  )

-- `num_items`: the type, the amount and each index; the transaction, the index in it and the asset.
unfoldable pub input_num_items : Input → ℕ
input_num_items (secp_transfer i) = 1 + 1 + length i.address_indices

unfoldable pub transferable_input_num_items : TransferableInput → ℕ
transferable_input_num_items t = 1 + 1 + 1 + input_num_items t.input

unfoldable pub encode_secp_transfer_input : SecpTransferInput → Bytes
encode_secp_transfer_input i =
    to_be_bytes 4 secp_transfer_input_type_id
    ++ (to_be_bytes 8 i.amount
        ++ (to_be_bytes 4 (length i.address_indices) ++ flatten i.address_indices))

unfoldable pub encode_input : Input → Bytes
encode_input (secp_transfer i) = encode_secp_transfer_input i

unfoldable pub encode_transferable_input : TransferableInput → Bytes
encode_transferable_input t =
    t.tx_id
    ++ (to_be_bytes 4 t.utxo_index
        ++ (t.asset_id
            ++ (encode_locked (to_be_bytes 8) locked_input_tag t.locktime ++ encode_input t.input)))

pub record IsSecpTransferInput (i : SecpTransferInput) : Type 0 where
  pub amount : IsU64 i.amount
  pub count : IsU32 (length i.address_indices)
  pub indices : IsArrays u32_size i.address_indices

abbrev pub IsInput : Input → Type 0
IsInput (secp_transfer i) = IsSecpTransferInput i

pub record IsTransferableInput (t : TransferableInput) : Type 0 where
  pub tx_id : IsArray tx_id_len t.tx_id
  pub utxo_index : IsU32 t.utxo_index
  pub asset_id : IsArray asset_id_len t.asset_id
  pub locktime : IsLocked IsU64 t.locktime
  pub input : IsInput t.input

pub input_type-Ensures : (n : ℕ) → Ensures (λ _. Unit {0}) (input_type n)
unfolding input_type
input_type-Ensures n = Ensures-if (n == secp_transfer_input_type_id) (λ _. returns tt) (λ _. fails)

module _ (p : Platform) (wide : IsWide p) where
  indices-Exact :
      (count : ℕ)
      → IsU32 count
      → Exact (take_arrays p count u32_size) flatten_some (IsSomeArrays count u32_size)
  indices-Exact count h = take_arrays-Exact p wide count u32_size h (omega arith) (omega arith)

  pub parse_secp_transfer_input-Exact :
      Exact (parse_secp_transfer_input p) encode_secp_transfer_input IsSecpTransferInput
  unfolding parse_secp_transfer_input encode_secp_transfer_input
  parse_secp_transfer_input-Exact = record {
    complete = λ i rest v. simp (
      append_assoc,
      reads (tag-Exact p (to_be_bytes 4 secp_transfer_input_type_id)) _ refl,
      reads (be_uint-Exact p 8) i.amount v.amount,
      reads (be_uint-Exact p 4) (length i.address_indices) v.count,
      reads (indices-Exact (length i.address_indices) v.count) (some i.address_indices)
          (i.address_indices, refl, v.indices, refl),
    );
    sound = λ input h.
        Exact-then (tag-Exact p (to_be_bytes 4 secp_transfer_input_type_id)) input h _
          λ t r₁ et h₁ e₁. Exact-then (be_uint-Exact p 8) r₁ h₁ _ λ amount r₂ va h₂ e₂.
            Exact-then (be_uint-Exact p 4) r₂ h₂ _ λ count r₃ vc h₃ e₃.
              Exact-then (indices-Exact count vc) r₃ h₃ _ λ cast r₄ (indices, ec, vi, len) _ e₄.
                rw ec (
                  returns (
                    record { amount = va; count = rw len vc; indices = vi },
                    simp (e₁, et, e₂, e₃, e₄, ec, len, append_assoc),
                  ));
  }

  -- What follows the type id.
  after_type : SecpTransferInput → Bytes → Bytes
  after_type i rest =
      to_be_bytes 8 i.amount
      ++ (to_be_bytes 4 (length i.address_indices) ++ (flatten i.address_indices ++ rest))

  peek_input :
      (i : SecpTransferInput) (rest : Bytes)
      → p.be_uint 4 (encode_secp_transfer_input i ++ rest)
        ≡ ok (after_type i rest, secp_transfer_input_type_id)
  unfolding encode_secp_transfer_input after_type
  peek_input i rest =
      simp (append_assoc, reads (be_uint-Exact p 4) secp_transfer_input_type_id (omega arith))

  pub parse_input-Exact : Exact (parse_input p) encode_input IsInput
  unfolding parse_input encode_input input_type
  parse_input-Exact = record {
    complete = elim [
      | secp_transfer i ↦
          λ rest v. rw (peek_input i rest, parse_secp_transfer_input-Exact.complete i rest v)
    ];
    sound = λ input h. Exact-then (be_uint-Exact p 4) input h _ λ n _ _ _ _.
        Ensures-bind (input_type-Ensures n) λ _ _.
          Exact-then parse_secp_transfer_input-Exact input h _ λ i rest v _ e. returns (v, e);
  }

  after_any : Input → Bytes → Bytes
  after_any (secp_transfer i) rest = after_type i rest

  peek_any :
      (i : Input) (rest : Bytes)
      → p.be_uint 4 (encode_input i ++ rest) ≡ ok (after_any i rest, secp_transfer_input_type_id)
  unfolding encode_input after_any
  peek_any (secp_transfer i) rest = peek_input i rest

  pub parse_transferable_input-Exact :
      Exact (parse_transferable_input p) encode_transferable_input IsTransferableInput
  unfolding parse_transferable_input encode_transferable_input
  parse_transferable_input-Exact = record {
    complete = λ t rest v.
        let body = encode_input t.input ++ rest in
        let unlocked =
          parse_locked_complete (be_uint-Exact p 8) p locked_input_tag t.locktime
            secp_transfer_input_type_id body _ v.locktime (omega arith) (omega arith)
            (peek_any t.input rest) in
        simp (
          append_assoc,
          reads (take_array-Exact p tx_id_len) t.tx_id v.tx_id,
          reads (be_uint-Exact p 4) t.utxo_index v.utxo_index,
          reads (parse_asset_id-Exact p) t.asset_id v.asset_id,
          unlocked,
          reads parse_input-Exact t.input v.input,
        );
    sound = λ input h. Exact-then (take_array-Exact p tx_id_len) input h _ λ tx_id r₁ vt h₁ e₁.
        Exact-then (be_uint-Exact p 4) r₁ h₁ _ λ utxo_index r₂ vu h₂ e₂.
          Exact-then (parse_asset_id-Exact p) r₂ h₂ _ λ asset_id r₃ va h₃ e₃.
            Ensures-bind (parse_locked_sound (be_uint-Exact p 8) p locked_input_tag r₃ h₃)
              λ (r₄, locktime) (vl, h₄, e₄).
                Exact-then parse_input-Exact r₄ h₄ _ λ input r₅ vi _ e₅. returns (
                  record { tx_id = vt; utxo_index = vu; asset_id = va; locktime = vl; input = vi },
                  simp (e₁, e₂, e₃, e₄, e₅, append_assoc),
                );
  }
