-- ===== src/Tests/Parsers.antt =====
-- The theorems of Parser/RoundTrip and Parser/Sound, applied.
use ledger_avalanche.Prelude.{
  ◌+◌, ◌^◌, to_be_bytes, flatten, ◌≡◌, refl, [], ◌∷◌, ◌++◌, Bytes, IsBytes, arith,
}
use ledger_avalanche.Errors.{ok, Ensures}
use ledger_avalanche.Parser.BaseTx.{parse_base_tx}
use ledger_avalanche.Parser.BaseTx.Format.{encode_base_tx}
use ledger_avalanche.Parser.Export.{parse_base_export}
use ledger_avalanche.Parser.Export.Format.{encode_export}
use ledger_avalanche.Parser.Import.{parse_base_import}
use ledger_avalanche.Parser.Import.Format.{encode_import}
use ledger_avalanche.Parser.Inputs.{parse_transferable_input, encode_transferable_input}
use ledger_avalanche.Parser.Outputs.Chains.{avm_kind, avm_laws}
use ledger_avalanche.Parser.Outputs.Output.{encode_output}
use ledger_avalanche.Parser.Outputs.Variants.{parse_avm_output, parse_pvm_output, encode_pvm_output}
use ledger_avalanche.Parser.RoundTrip.{
  parse_avm_output-encode_output, parse_pvm_output-encode_pvm_output,
  parse_transferable_input-encode_transferable_input, parse_base_tx-encode_base_tx,
  parse_base_import-encode_import, parse_base_export-encode_export,
}
use ledger_avalanche.Parser.Sound.{
  parse_subnet_auth_sound, parse_avm_output_sound, parse_pvm_output_sound,
  parse_transferable_input_sound, parse_base_tx_sound, parse_base_import_sound,
  parse_base_export_sound,
}
use ledger_avalanche.Parser.Staking.{
  Validator, parse_validator, encode_validator, IsValidator, parse_validator-encode_validator,
  parse_validator_sound, parse_subnet_auth,
}
use ledger_avalanche.Prelude.Int.{pos}
use ledger_avalanche.Tests.Data.{
  are_bytes-IsBytes, owners_of, owners_of-IsOwners, repeat, repeat-IsBytes, transfer,
  transfer-IsAvmOutput, locked_output, locked_output-IsPvmOutput, input_of,
  input_of-IsTransferableInput, base_tx, base_tx-IsBaseTx, lookup, import_tx, import_tx-IsImport,
  export_tx, export_tx-IsExport,
}
use ledger_avalanche.Parser.Outputs.Owners.{parse_owners}
use ledger_avalanche.Parser.Outputs.Wrap.{parse_owners_wraps}
use ledger_avalanche.Parser.Wire.BaseTx.{BaseTxOnWire}
use ledger_avalanche.Parser.Wire.Inputs.{TransferableInputOnWire, SubnetAuthOnWire}
use ledger_avalanche.Parser.Wire.Moves.{ImportOnWire, ExportOnWire}
use ledger_avalanche.Parser.Wire.Chains.{AvmOutputOnWire, PvmOutputOnWire, parse_avm_output-Accepts}
use ledger_avalanche.Tests.Device.{host, host-IsWide, device, device_values}

parse_avm_output-encode_output_example :
    parse_avm_output host (encode_output (transfer 40 7) ++ repeat 3 9)
    ≡ ok (repeat 3 9, transfer 40 7)
parse_avm_output-encode_output_example =
    parse_avm_output-encode_output host host-IsWide (transfer 40 7) (repeat 3 9)
      (transfer-IsAvmOutput 40 7 (omega arith) (omega arith))

parse_pvm_output-encode_pvm_output_example :
    parse_pvm_output host (encode_pvm_output locked_output ++ repeat 3 9)
    ≡ ok (repeat 3 9, locked_output)
parse_pvm_output-encode_pvm_output_example =
    parse_pvm_output-encode_pvm_output host host-IsWide locked_output (repeat 3 9)
      locked_output-IsPvmOutput

parse_transferable_input-encode_transferable_input_example :
    parse_transferable_input host (encode_transferable_input (input_of 50) ++ repeat 3 9)
    ≡ ok (repeat 3 9, input_of 50)
parse_transferable_input-encode_transferable_input_example =
    parse_transferable_input-encode_transferable_input host host-IsWide (input_of 50) (repeat 3 9)
      (input_of-IsTransferableInput 50 (omega arith))

parse_base_tx-encode_base_tx_example :
    parse_base_tx avm_kind host (encode_base_tx avm_laws host host-IsWide base_tx ++ repeat 3 9)
    ≡ ok (repeat 3 9, base_tx)
parse_base_tx-encode_base_tx_example =
    parse_base_tx-encode_base_tx host host-IsWide avm_laws base_tx (repeat 3 9) base_tx-IsBaseTx

parse_base_import-encode_import_example :
    parse_base_import avm_kind host lookup
      (encode_import avm_laws host host-IsWide lookup import_tx ++ repeat 3 9)
    ≡ ok (repeat 3 9, import_tx)
parse_base_import-encode_import_example =
    parse_base_import-encode_import host host-IsWide avm_laws lookup import_tx (repeat 3 9)
      import_tx-IsImport

parse_base_export-encode_export_example :
    parse_base_export avm_kind host lookup
      (encode_export avm_laws host host-IsWide lookup export_tx ++ repeat 3 9)
    ≡ ok (repeat 3 9, export_tx)
parse_base_export-encode_export_example =
    parse_base_export-encode_export host host-IsWide avm_laws lookup export_tx (repeat 3 9)
      export_tx-IsExport

-- An output of 40 to one owner, on the wire.
abbrev output_bytes : Bytes
output_bytes =
    0 ∷ 0 ∷ 0 ∷ 7 ∷ (repeat 7 0 ++ (40 ∷ (repeat 11 0 ++ (1 ∷ 0 ∷ 0 ∷ 0 ∷ 1 ∷ repeat 20 7))))

output_bytes-IsBytes : IsBytes output_bytes
output_bytes-IsBytes = are_bytes-IsBytes output_bytes refl

-- An input of 50, an export and an import with nothing in them.
abbrev input_bytes : Bytes
input_bytes =
    repeat 32 2
    ++ (repeat 4 0
        ++ (repeat 32 1 ++ (0 ∷ 0 ∷ 0 ∷ 5 ∷ (repeat 7 0 ++ (50 ∷ 0 ∷ 0 ∷ 0 ∷ 1 ∷ repeat 4 0)))))

input_bytes-IsBytes : IsBytes input_bytes
input_bytes-IsBytes = are_bytes-IsBytes input_bytes refl

abbrev empty_bytes : Bytes
empty_bytes = 0 ∷ 0 ∷ 0 ∷ 1 ∷ (repeat 32 1 ++ repeat 48 0)

empty_bytes-IsBytes : IsBytes empty_bytes
empty_bytes-IsBytes = are_bytes-IsBytes empty_bytes refl

parse_avm_output_sound_example :
    Ensures
      (λ r. (bs : Bytes) × AvmOutputOnWire device r.1 bs × (output_bytes ≡ bs ++ r.0))
      (parse_avm_output device output_bytes)
parse_avm_output_sound_example = parse_avm_output_sound device output_bytes output_bytes-IsBytes

parse_pvm_output_sound_example :
    Ensures
      (λ r. (bs : Bytes) × PvmOutputOnWire device r.1 bs × (output_bytes ≡ bs ++ r.0))
      (parse_pvm_output device output_bytes)
parse_pvm_output_sound_example = parse_pvm_output_sound device output_bytes output_bytes-IsBytes

parse_transferable_input_sound_example :
    Ensures
      (λ r. (bs : Bytes) × TransferableInputOnWire device r.1 bs × (input_bytes ≡ bs ++ r.0))
      (parse_transferable_input device input_bytes)
parse_transferable_input_sound_example =
    parse_transferable_input_sound device input_bytes input_bytes-IsBytes

parse_base_tx_sound_example :
    Ensures
      (λ r.
        (bs : Bytes) × BaseTxOnWire device (AvmOutputOnWire device) r.1 bs
        × (repeat 12 0 ≡ bs ++ r.0))
      (parse_base_tx avm_kind device (repeat 12 0))
parse_base_tx_sound_example =
    parse_base_tx_sound device (repeat 12 0) (repeat-IsBytes 12 0 (omega arith)) avm_kind
      (parse_avm_output-Accepts device)

parse_base_import_sound_example :
    Ensures
      (λ r.
        (bs : Bytes) × ImportOnWire device lookup (AvmOutputOnWire device) r.1 bs
        × (empty_bytes ≡ bs ++ r.0))
      (parse_base_import avm_kind device lookup empty_bytes)
parse_base_import_sound_example =
    parse_base_import_sound device empty_bytes empty_bytes-IsBytes avm_kind
      (parse_avm_output-Accepts device) lookup

parse_base_export_sound_example :
    Ensures
      (λ r.
        (bs : Bytes) × ExportOnWire device lookup (AvmOutputOnWire device) r.1 bs
        × (empty_bytes ≡ bs ++ r.0))
      (parse_base_export avm_kind device lookup empty_bytes)
parse_base_export_sound_example =
    parse_base_export_sound device empty_bytes empty_bytes-IsBytes avm_kind
      (parse_avm_output-Accepts device) lookup

abbrev validator : Validator
validator = record { node_id = repeat 20 3; start_time = pos 10; endtime = pos 20; weight = 5 }

parse_validator-encode_validator_example :
    parse_validator host (encode_validator validator ++ repeat 3 9) ≡ ok (repeat 3 9, validator)
parse_validator-encode_validator_example =
    parse_validator-encode_validator host validator (repeat 3 9) (record {
      node_id = record { bytes = repeat-IsBytes 20 3 (omega arith); len = refl };
      start_time = (omega arith, omega arith);
      endtime = (omega arith, omega arith);
      weight = omega arith;
      ends_later = omega arith;
    })

abbrev validator_bytes : Bytes
validator_bytes = repeat 20 3 ++ (repeat 7 0 ++ (10 ∷ (repeat 7 0 ++ (20 ∷ repeat 8 1))))

parse_validator_sound_example :
    Ensures
      (λ r. IsValidator r.1 × (validator_bytes ≡ encode_validator r.1 ++ r.0))
      (parse_validator host validator_bytes)
parse_validator_sound_example =
    parse_validator_sound host validator_bytes (are_bytes-IsBytes validator_bytes refl)

abbrev subnet_auth_bytes : Bytes
subnet_auth_bytes = 0 ∷ 0 ∷ 0 ∷ 0x0a ∷ 0 ∷ 0 ∷ 0 ∷ 1 ∷ repeat 4 2

parse_subnet_auth_sound_example :
    Ensures
      (λ r. (bs : Bytes) × SubnetAuthOnWire device r.1 bs × (subnet_auth_bytes ≡ bs ++ r.0))
      (parse_subnet_auth device subnet_auth_bytes)
parse_subnet_auth_sound_example =
    parse_subnet_auth_sound device subnet_auth_bytes (are_bytes-IsBytes subnet_auth_bytes refl)
      (rw device_values (omega arith))

-- One address, and a count of 2 ^ 30 + 1.
parse_owners_wraps_example :
    parse_owners device (
      to_be_bytes 8 0
      ++ (to_be_bytes 4 1
          ++ (to_be_bytes 4 (2 ^ 30 + 1) ++ (flatten (repeat 20 7 ∷ []) ++ repeat 3 9))))
    ≡ ok (repeat 3 9, owners_of 7)
parse_owners_wraps_example =
    parse_owners_wraps device device_values (owners_of 7) (repeat 3 9)
      (owners_of-IsOwners 7 (omega arith)) (omega arith)
