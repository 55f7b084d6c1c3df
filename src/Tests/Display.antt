-- ===== src/Tests/Display.antt =====
-- The theorems on the display of a transaction and on its fee, applied.
use ledger_avalanche.Prelude.{◌≡◌, refl, false, true, arith}
use ledger_avalanche.Errors.{ok}
use ledger_avalanche.Parser.BaseTx.{
  BaseTxFields, base_outputs_num_items, base_output_with_item, disable_output_if,
  force_disable_output, output_idx_max,
}
use ledger_avalanche.Parser.BaseTx.Disable.{disable_output_if-bits, force_disable_output-bits}
use ledger_avalanche.Parser.BaseTx.Items.{
  base_outputs_num_items-eq-length, base_output_with_item-eq-get,
}
use ledger_avalanche.Parser.Bits.{bit_at}
use ledger_avalanche.Handlers.UiMessage.{ViewError}
use ledger_avalanche.Parser.BaseTx.LateLoop.{output_with_item, output_with_item-eq-get}
use ledger_avalanche.Parser.Export.{export_fee}
use ledger_avalanche.Parser.Export.Fee.{export_fee-eq-exact}
use ledger_avalanche.Parser.Import.{import_fee}
use ledger_avalanche.Parser.Import.Fee.{import_fee-eq-exact}
use ledger_avalanche.Parser.Inputs.{input_amount}
use ledger_avalanche.Parser.Outputs.Chains.{avm_kind, avm_laws}
use ledger_avalanche.Parser.Outputs.Output.{output_addresses, output_amount, output_num_items}
use ledger_avalanche.Parser.Outputs.Secp.{secp_transfer_num_items}
use ledger_avalanche.Parser.Outputs.Transferable.{amount, addresses}
use ledger_avalanche.Tests.Data.{
  outputs, alice, output_to, outputs-IsOutputs, inputs-IsInputs, base_tx, import_tx, export_tx,
}
use ledger_avalanche.Tests.Device.{host, host-IsWide}

-- Each of the two outputs has two items.
base_outputs_num_items-eq-length_example : base_outputs_num_items avm_kind host base_tx ≡ ok 4
unfolding bit_at output_num_items secp_transfer_num_items
base_outputs_num_items-eq-length_example =
    base_outputs_num_items-eq-length avm_laws host host-IsWide base_tx outputs-IsOutputs

base_output_with_item-eq-get_example :
    base_output_with_item avm_kind host 2 base_tx ≡ ok (output_to 9 8, 0)
unfolding bit_at output_num_items secp_transfer_num_items
base_output_with_item-eq-get_example =
    base_output_with_item-eq-get avm_laws host host-IsWide base_tx outputs-IsOutputs 2

-- The first output goes to alice.
force_disable_output-bits_example :
    (tx' : BaseTxFields) × (force_disable_output avm_kind host alice base_tx ≡ ok tx')
    × (bit_at tx'.renderable_out 0 ≡ false)
unfolding bit_at addresses output_addresses
force_disable_output-bits_example =
    force_disable_output-bits avm_laws host host-IsWide alice base_tx outputs-IsOutputs 0

disable_output_if-bits_example :
    (tx' : BaseTxFields) × (disable_output_if avm_kind host alice base_tx ≡ ok tx')
    × (bit_at tx'.renderable_out 1 ≡ true)
unfolding bit_at addresses output_addresses
disable_output_if-bits_example =
    disable_output_if-bits avm_laws host host-IsWide alice base_tx outputs-IsOutputs 1 refl
      (omega arith)

-- The search of the exports, whose loop counts before it compares.
output_with_item-eq-get_example :
    output_with_item avm_kind host ViewError.no_data output_idx_max outputs 2
    ≡ ok (output_to 9 8, 0)
unfolding bit_at output_num_items secp_transfer_num_items
output_with_item-eq-get_example =
    output_with_item-eq-get avm_laws host host-IsWide ViewError.no_data output_idx_max 2 outputs
      outputs-IsOutputs

import_fee-eq-exact_example : import_fee avm_kind host import_tx ≡ ok 151
unfolding input_amount amount output_amount
import_fee-eq-exact_example =
    import_fee-eq-exact avm_laws host host-IsWide import_tx inputs-IsInputs inputs-IsInputs
      outputs-IsOutputs 100 100 49 refl refl refl

export_fee-eq-exact_example : export_fee avm_kind host export_tx ≡ ok 2
unfolding input_amount amount output_amount
export_fee-eq-exact_example =
    export_fee-eq-exact avm_laws host host-IsWide export_tx inputs-IsInputs outputs-IsOutputs
      outputs-IsOutputs 100 49 49 refl refl refl
