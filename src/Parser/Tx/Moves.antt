-- ===== src/Parser/Tx/Moves.antt =====
-- The imports and exports of the X-chain and the P-chain: import_tx.rs and export_tx.rs in
-- app/src/parser/transactions/avm and app/src/parser/transactions/pvm.
use ledger_avalanche.Prelude.{ℕ, ◌≡◌, Bool, true, false, some, none, All, ◌++◌, to_be_bytes}
use ledger_avalanche.Errors.{
  ok, error, unexpected_type, ◌>>=◌, ◌>>◌, bail_if, returns, Ensures-bail,
}
use ledger_avalanche.Platform.{Platform, Parser, IsWide}
use ledger_avalanche.Codec.{Exact, Exact-then}
use ledger_avalanche.Parser.Export.{BaseExport, parse_base_export}
use ledger_avalanche.Parser.Export.Format.{IsExport, encode_export, parse_base_export-Exact}
use ledger_avalanche.Parser.Import.{BaseImport, parse_base_import}
use ledger_avalanche.Parser.Import.Format.{IsImport, encode_import, parse_base_import-Exact}
use ledger_avalanche.Parser.Network.{AliasLookup}
use ledger_avalanche.Parser.Objects.{iter}
use ledger_avalanche.Parser.Outputs.Chains.{avm_kind, avm_laws, pvm_kind, pvm_laws}
use ledger_avalanche.Parser.Outputs.Transferable.{TransferableOutput, parse_transferable_output}
use ledger_avalanche.Parser.Outputs.Variants.{PvmOutput}
use ledger_avalanche.Parser.Tx.Head.{
  any, none_of_test, test_of_none, parse_tagged, parse_tagged-Exact, walk_outputs,
}

abbrev pub avm_import_tx : ℕ
avm_import_tx = 3

abbrev pub avm_export_tx : ℕ
avm_export_tx = 4

abbrev pub pvm_import_tx : ℕ
pvm_import_tx = 0x11

abbrev pub pvm_export_tx : ℕ
pvm_export_tx = 0x12

-- `transfer.output.is_locked()`
unfoldable pub is_locked : TransferableOutput PvmOutput → Bool
is_locked o = elim o.output.locktime [ some _ ↦ true | none ↦ false ]

module _ (p : Platform) (lookup : AliasLookup) where
  unfoldable pub parse_avm_import : Parser BaseImport
  parse_avm_import = parse_tagged p avm_import_tx (parse_base_import avm_kind p lookup)

  unfoldable pub parse_avm_export : Parser BaseExport
  parse_avm_export = parse_tagged p avm_export_tx (parse_base_export avm_kind p lookup)

  unfoldable pub parse_pvm_import : Parser BaseImport
  parse_pvm_import = parse_tagged p pvm_import_tx (parse_base_import pvm_kind p lookup)

  -- An export from the P-chain has no locked outputs.
  unfoldable pub parse_pvm_export : Parser BaseExport
  parse_pvm_export input = do
    (rem, base_export) ← parse_tagged p pvm_export_tx (parse_base_export pvm_kind p lookup) input
    base_outputs ← iter (parse_transferable_output pvm_kind p) base_export.base_tx.outputs
    bail_if (any is_locked base_outputs) (error unexpected_type)
    outputs ← iter (parse_transferable_output pvm_kind p) base_export.outputs
    bail_if (any is_locked outputs) (error unexpected_type)
    ok (rem, base_export)

module _ (p : Platform) (wide : IsWide p) (lookup : AliasLookup) where
  pub parse_avm_import-Exact :
      Exact
        (parse_avm_import p lookup)
        (λ tx. to_be_bytes 4 avm_import_tx ++ encode_import avm_laws p wide lookup tx)
        (IsImport avm_laws p wide lookup)
  unfolding parse_avm_import
  parse_avm_import-Exact =
      parse_tagged-Exact p avm_import_tx (parse_base_import-Exact avm_laws p wide lookup)

  pub parse_avm_export-Exact :
      Exact
        (parse_avm_export p lookup)
        (λ tx. to_be_bytes 4 avm_export_tx ++ encode_export avm_laws p wide lookup tx)
        (IsExport avm_laws p wide lookup)
  unfolding parse_avm_export
  parse_avm_export-Exact =
      parse_tagged-Exact p avm_export_tx (parse_base_export-Exact avm_laws p wide lookup)

  pub parse_pvm_import-Exact :
      Exact
        (parse_pvm_import p lookup)
        (λ tx. to_be_bytes 4 pvm_import_tx ++ encode_import pvm_laws p wide lookup tx)
        (IsImport pvm_laws p wide lookup)
  unfolding parse_pvm_import
  parse_pvm_import-Exact =
      parse_tagged-Exact p pvm_import_tx (parse_base_import-Exact pvm_laws p wide lookup)

  pub record IsPvmExport (tx : BaseExport) : Type 0 where
    pub base_export : IsExport pvm_laws p wide lookup tx
    pub base_unlocked : All (λ o. is_locked o ≡ false) base_export.base_tx.outputs.objs
    pub unlocked : All (λ o. is_locked o ≡ false) base_export.outputs.objs

  pub parse_pvm_export-Exact :
      Exact
        (parse_pvm_export p lookup)
        (λ tx. to_be_bytes 4 pvm_export_tx ++ encode_export pvm_laws p wide lookup tx)
        IsPvmExport
  unfolding parse_pvm_export
  parse_pvm_export-Exact =
      let exact =
        parse_tagged-Exact p pvm_export_tx (parse_base_export-Exact pvm_laws p wide lookup) in
      record {
        complete = λ tx rest v.
            let base = v.base_export.base_tx.outputs in
            rw (
              exact.complete tx rest v.base_export,
              walk_outputs pvm_laws p wide tx.base_tx.outputs base,
              test_of_none is_locked base.objs v.base_unlocked,
              walk_outputs pvm_laws p wide tx.outputs v.base_export.outputs,
              test_of_none is_locked v.base_export.outputs.objs v.unlocked,
            );
        sound = λ input h. Exact-then exact input h _ λ tx r₁ v _ e.
            rw (walk_outputs pvm_laws p wide tx.base_tx.outputs v.base_tx.outputs) (
              Ensures-bail (any is_locked v.base_tx.outputs.objs) _ _ λ base_free.
                rw (walk_outputs pvm_laws p wide tx.outputs v.outputs) (
                  Ensures-bail (any is_locked v.outputs.objs) _ _ λ free. returns (
                    record {
                      base_export = v;
                      base_unlocked = none_of_test is_locked v.base_tx.outputs.objs base_free;
                      unlocked = none_of_test is_locked v.outputs.objs free;
                    },
                    e,
                  )));
      }
