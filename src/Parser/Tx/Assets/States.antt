-- ===== src/Parser/Tx/Assets/States.antt =====
-- The formats of the initial states and of the texts of a new asset.
use ledger_avalanche.Prelude.{
  ℕ, ◌<◌, ◌≤◌, ◌≡◌, refl, true, Bytes, IsBytes, length, ◌++◌, ◌==◌, ltb, append_assoc,
  length-append, to_be_bytes, length-to_be_bytes, arith, ◌^◌,
}
use ledger_avalanche.Errors.{ok, returns, fails, Ensures, Ensures-if, Ensures-bind, Ensures-bail}
use ledger_avalanche.Platform.{Platform, IsWide}
use ledger_avalanche.Codec.{Exact, Exact-then, reads, be_uint-Exact, take-Exact}
use ledger_avalanche.Parser.BaseTx.Format.{le_test, le_of_test}
use ledger_avalanche.Parser.Objects.{new_into}
use ledger_avalanche.Parser.Objects.Format.{IsObjectList, encode_objects, new_into-Exact}
use ledger_avalanche.Parser.Outputs.Output.{encode_output}
use ledger_avalanche.Parser.Outputs.Variants.{
  IsAvmOutput, parse_avm_output, parse_avm_output-Exact, avm_output_some_bytes,
}
use ledger_avalanche.Parser.Tx.Ascii.{any_high, IsAscii}
use ledger_avalanche.Parser.Tx.Assets.{
  FxId, InitialState, secp256k_asset, nft_asset, fx_id_try_from, parse_initial_state, parse_text,
}

abbrev fx_number : FxId → ℕ
fx_number secp256k_asset = 0
fx_number nft_asset = 1

small_fx : (id : FxId) → fx_number id < 2
small_fx secp256k_asset = omega arith
small_fx nft_asset = omega arith

fx_id_known : (id : FxId) → fx_id_try_from (fx_number id) ≡ ok id
unfolding fx_id_try_from
fx_id_known secp256k_asset = refl
fx_id_known nft_asset = refl

same : (n m : ℕ) → (n == m) ≡ true → n ≡ m
same n m h = ground arith

fx_id-Ensures : (n : ℕ) → Ensures (λ id. n ≡ fx_number id) (fx_id_try_from n)
unfolding fx_id_try_from
fx_id-Ensures n =
    Ensures-if (n == 0) (λ e. returns (same n 0 e))
      λ _. Ensures-if (n == 1) (λ e. returns (same n 1 e)) (λ _. fails)

pub record IsInitialState (s : InitialState) : Type 0 where
  pub outputs : IsObjectList encode_output IsAvmOutput s.outputs

module _ (p : Platform) where
  unfoldable pub encode_initial_state : InitialState → Bytes
  encode_initial_state s =
      to_be_bytes 4 (fx_number s.id) ++ encode_objects (parse_avm_output p) s.outputs

  pub initial_state_some_bytes :
      (s : InitialState) → IsInitialState s → 0 < length (encode_initial_state s)
  unfolding encode_initial_state
  initial_state_some_bytes s v = rw (length-append, length-to_be_bytes) (omega arith)

  -- A text of ASCII within a limit.
  pub record IsText (limit : ℕ) (text : Bytes) : Type 0 where
    pub bytes : IsBytes text
    pub fits : length text ≤ limit
    pub ascii : IsAscii text

  unfoldable pub encode_text : Bytes → Bytes
  encode_text text = to_be_bytes 2 (length text) ++ text

  pub parse_text-Exact :
      (limit : ℕ) → limit < 256 ^ 2 → Exact (parse_text p limit) encode_text (IsText limit)
  unfolding parse_text encode_text
  parse_text-Exact limit small = record {
    complete = λ text rest v. simp (
      append_assoc,
      reads (be_uint-Exact p 2) (length text) (omega (arith, v.fits, small)),
      le_test (length text) limit v.fits,
      reads (take-Exact p (length text)) text (v.bytes, refl),
      v.ascii,
    );
    sound = λ input h. Exact-then (be_uint-Exact p 2) input h _ λ n r₁ vn h₁ e₁.
        Ensures-bail (ltb limit n) _ _ λ fits.
          Exact-then (take-Exact p n) r₁ h₁ _ λ text r₂ (bytes, len) _ e₂.
            Ensures-bail (any_high text) _ _ λ ascii. returns (
              record { bytes = bytes; fits = rw len (le_of_test n limit fits); ascii = ascii },
              simp (e₁, e₂, len, append_assoc),
            );
  }

  module _ (wide : IsWide p) where
    avm_outputs-Exact :
        Exact
          (new_into (parse_avm_output p) p)
          (encode_objects (parse_avm_output p))
          (IsObjectList encode_output IsAvmOutput)
    avm_outputs-Exact = new_into-Exact (parse_avm_output-Exact p wide) avm_output_some_bytes p

    pub parse_initial_state-Exact :
        Exact (parse_initial_state p) encode_initial_state IsInitialState
    unfolding parse_initial_state encode_initial_state
    parse_initial_state-Exact = record {
      complete = λ s rest v. simp (
        append_assoc,
        reads (be_uint-Exact p 4) (fx_number s.id) (omega (arith, small_fx s.id)),
        fx_id_known s.id,
        reads avm_outputs-Exact s.outputs v.outputs,
      );
      sound = λ input h. Exact-then (be_uint-Exact p 4) input h _ λ n r₁ vn h₁ e₁.
          Ensures-bind (fx_id-Ensures n) λ id ei.
            Exact-then avm_outputs-Exact r₁ h₁ _ λ outputs r₂ vo _ e₂.
              returns (record { outputs = vo }, simp (e₁, ei, e₂, append_assoc));
    }
