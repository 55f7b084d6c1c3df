-- ===== src/Parser/Outputs/Transferable.antt =====
-- `TransferableOutput` of app/src/parser/outputs.rs, over any chain's output.
use ledger_avalanche.Prelude.{ℕ, Option, List, Bytes, ◌++◌, append_assoc}
use ledger_avalanche.Errors.{ok, ◌>>=◌, returns}
use ledger_avalanche.Platform.{Platform, Parser, IsWide}
use ledger_avalanche.Codec.{Exact, Exact-then, reads, IsArray, IsArrays}
use ledger_avalanche.Parser.Ids.{parse_asset_id, parse_asset_id-Exact, asset_id_len, address_len}
use ledger_avalanche.Parser.Outputs.Output.{Output, output_addresses, output_amount}

-- The bound `O: FromBytes + DisplayableItem + Deref<Target = Output>` of the source.
pub record OutputKind (O : Type 0) : Type 0 where
  pub parse : Platform → Parser O
  pub num_items : O → ℕ
  pub deref : O → Output

-- What the transactions rely on: the output's bytes have one format, and its addresses are whole.
pub record OutputLaws (O : Type 0) (kind : OutputKind O) : Type 1 where
  pub encode : O → Bytes
  pub IsValid : O → Type 0
  pub exact : (p : Platform) → IsWide p → Exact (kind.parse p) encode IsValid
  pub addresses : (o : O) → IsValid o → IsArrays address_len (output_addresses (kind.deref o))

pub record TransferableOutput (O : Type 0) : Type 0 where
  pub asset_id : Bytes
  pub output : O

module _ {O : Type 0} (kind : OutputKind O) where
  unfoldable pub parse_transferable_output : Platform → Parser (TransferableOutput O)
  parse_transferable_output p input = do
    (rem, asset_id) ← parse_asset_id p input
    (rem, output) ← kind.parse p rem
    ok (rem, record { asset_id = asset_id; output = output })

  unfoldable pub amount : TransferableOutput O → Option ℕ
  amount o = output_amount (kind.deref o.output)

  unfoldable pub addresses : TransferableOutput O → List Bytes
  addresses o = output_addresses (kind.deref o.output)

module _ {O : Type 0} {kind : OutputKind O} (laws : OutputLaws O kind) where
  unfoldable pub encode_transferable_output : TransferableOutput O → Bytes
  encode_transferable_output o = o.asset_id ++ laws.encode o.output

  pub record IsTransferableOutput (o : TransferableOutput O) : Type 0 where
    pub asset_id : IsArray asset_id_len o.asset_id
    pub output : laws.IsValid o.output

  pub parse_transferable_output-Exact :
      (p : Platform)
      → IsWide p
      → Exact (parse_transferable_output kind p) encode_transferable_output IsTransferableOutput
  unfolding parse_transferable_output encode_transferable_output
  parse_transferable_output-Exact p wide = record {
    complete = λ o rest v. simp (
      append_assoc,
      reads (parse_asset_id-Exact p) o.asset_id v.asset_id,
      reads (laws.exact p wide) o.output v.output,
    );
    sound = λ input h. Exact-then (parse_asset_id-Exact p) input h _ λ asset_id r₁ va h₁ e₁.
        Exact-then (laws.exact p wide) r₁ h₁ _ λ output r₂ vo _ e₂.
          returns (record { asset_id = va; output = vo }, simp (e₁, e₂, append_assoc));
  }
