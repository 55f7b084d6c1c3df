-- ===== src/Parser/BaseTx.antt =====
-- app/src/parser/transactions/base_tx_fields.rs: the fields that every transaction of the P-chain and
-- the X-chain has, the sums over them, and the outputs that the display shows.
pub mod Format
pub mod Amounts
pub mod Disable
pub mod ItemLoop
pub mod LateLoop
pub mod Items
use ledger_avalanche.Prelude.{
  ℕ, zero, suc, ◌+◌, ◌-◌, ◌^◌, ◌%◌, Bool, true, false, ◌&&◌, not, Option, some, none, List, [], ◌∷◌,
  Bytes, length, get_elem?, ltb, leb, ◌==◌, if◌then◌else◌,
}
use ledger_avalanche.Errors.{
  Result, ok, err, panic, Err, error, ParserError, from_nom_err, ◌>>=◌, ◌>>◌, bail_if, ok_or,
  map_err, apdu_unwrap, unexpected_error, operation_overflows, too_many_outputs, value_out_of_range,
  display_idx_out_of_range,
}
use ledger_avalanche.Platform.{Platform, Parser}
use ledger_avalanche.Parser.Ids.{parse_address}
use ledger_avalanche.Parser.Bits.{bit_at, flip_bit}
use ledger_avalanche.Parser.Inputs.{TransferableInput, parse_transferable_input, input_amount}
use ledger_avalanche.Parser.Objects.{ObjectList, new_into, iter, iterate_with, get_obj_if}
use ledger_avalanche.Parser.Outputs.Transferable.{
  OutputKind, TransferableOutput, parse_transferable_output, amount, addresses,
}

abbrev pub max_memo_len : ℕ
max_memo_len = 256

-- `OutputIdx` is `u64`: its bits and its maximum.
abbrev pub output_idx_bits : ℕ
output_idx_bits = 64

abbrev pub output_idx_max : ℕ
output_idx_max = 2 ^ 64 - 1

pub record BaseTxFields : Type 0 where
  pub outputs : ObjectList
  pub renderable_out : ℕ
  pub inputs : ObjectList
  pub memo : Bytes

abbrev pub bytes_eq : Bytes → Bytes → Bool
bytes_eq [] [] = true
bytes_eq (a ∷ as') (b ∷ bs) = a == b && bytes_eq as' bs
bytes_eq _ _ = false

-- `get_address_at` of the outputs: `Address::from_bytes_into(addresses.get(idx)?).ok()`.
unfoldable pub get_address_at : Platform → List Bytes → ℕ → Result Err (Option Bytes)
get_address_at p addrs idx = elim (get_elem? addrs idx) [
  | none ↦ ok none
  | some bytes ↦ elim (parse_address p bytes) [
    | ok (_, address) ↦ ok (some address)
    | err _ ↦ ok none
    | panic ↦ panic
  ]
]

-- `TransferableOutput::contain_address`; the first number counts the rounds that are left.
unfoldable pub contain_address : Platform → Bytes → List Bytes → ℕ → ℕ → Result Err Bool
contain_address p change addrs zero idx = ok false
contain_address p change addrs (suc rounds) idx = do
  found ← get_address_at p addrs idx
  address ← apdu_unwrap found
  elim (bytes_eq address change) [
    | true ↦ ok true
    | false ↦ contain_address p change addrs rounds (idx + 1)
  ]

-- `try_fold(0u64, |acc, x| acc.checked_add(x?).ok_or(OperationOverflows))` over the amounts.
unfoldable pub checked_add : ℕ → ℕ → Result ParserError ℕ
checked_add a b = if ltb (a + b) (2 ^ 64) then ok (a + b) else err operation_overflows

unfoldable pub checked_sub : ℕ → ℕ → Result ParserError ℕ
checked_sub a b = if leb b a then ok (a - b) else err operation_overflows

unfoldable pub sum_amounts : {A : Type 0} → (A → Option ℕ) → ℕ → List A → Result ParserError ℕ
sum_amounts amount acc [] = ok acc
sum_amounts amount acc (a ∷ rest) = do
  x ← ok_or (amount a) unexpected_error
  acc ← checked_add acc x
  sum_amounts amount acc rest

module _ {O : Type 0} (kind : OutputKind O) (p : Platform) where
  unfoldable pub parse_base_tx : Parser BaseTxFields
  parse_base_tx input = do
    (_, num_outputs) ← p.be_uint 4 input
    bail_if (ltb output_idx_bits num_outputs) (error too_many_outputs)
    (rem, outputs) ← new_into (parse_transferable_output kind p) p input
    (rem, inputs) ← new_into (parse_transferable_input p) p rem
    (rem, memo_len) ← p.be_uint 4 rem
    bail_if (ltb max_memo_len memo_len) (error value_out_of_range)
    (rem, memo) ← p.take memo_len rem
    ok (
      rem,
      record { outputs = outputs; renderable_out = output_idx_max; inputs = inputs; memo = memo },
    )

  unfoldable pub sum_inputs_amount : BaseTxFields → Result ParserError ℕ
  sum_inputs_amount tx = do
    inputs ← map_err from_nom_err (iter (parse_transferable_input p) tx.inputs)
    sum_amounts (λ i. input_amount i.input) 0 inputs

  unfoldable pub sum_outputs_amount : BaseTxFields → Result ParserError ℕ
  sum_outputs_amount tx = do
    outputs ← map_err from_nom_err (iter (parse_transferable_output kind p) tx.outputs)
    sum_amounts (amount kind) 0 outputs

  -- The closure of `force_disable_output`, with its `render` and `idx`.
  unfoldable pub disable_step :
      Bytes → Result Err (ℕ × ℕ) → TransferableOutput O → Result Err (ℕ × ℕ)
  disable_step change s o = do
    (render, idx) ← s
    hit ←
        if length (addresses kind o) == 1
        then contain_address p change (addresses kind o) (length (addresses kind o)) 0
        else ok false
    ok (if hit then flip_bit render idx else render, idx + 1)

  unfoldable pub disabled_mask : Bytes → ObjectList → ℕ → Result Err ℕ
  disabled_mask change outputs render = do
    s ←
        iterate_with (parse_transferable_output kind p) (disable_step change) (ok (render, 0))
          outputs
    (render, _) ← s
    ok render

  unfoldable pub force_disable_output : Bytes → BaseTxFields → Result Err BaseTxFields
  force_disable_output change tx = do
    render ← disabled_mask change tx.outputs tx.renderable_out
    ok (record tx { renderable_out = render })

  -- A single output is never hidden.
  unfoldable pub disable_output_if : Bytes → BaseTxFields → Result Err BaseTxFields
  disable_output_if change tx = do
    outputs ← iter (parse_transferable_output kind p) tx.outputs
    if leb (length outputs) 1 then ok tx else force_disable_output change tx

  -- The closure of `base_outputs_num_items`, with its `items` and `idx`.
  unfoldable pub count_step : ℕ → ℕ × ℕ → TransferableOutput O → ℕ × ℕ
  count_step mask (items, idx) o =
      (if bit_at mask idx then items + kind.num_items o.output else items, idx + 1)

  unfoldable pub base_outputs_num_items : BaseTxFields → Result Err ℕ
  base_outputs_num_items tx = do
    (items, _) ←
        iterate_with (parse_transferable_output kind p) (count_step tx.renderable_out) (0, 0)
          tx.outputs
    ok items

-- The locals of the closure in `base_output_with_item`.
pub record Cursor : Type 0 where
  pub count : ℕ
  pub obj_item_n : ℕ
  pub idx : ℕ

-- `for index in 0..n { obj_item_n = index; if count == item_n { return true } count += 1 }`
unfoldable pub item_loop : ℕ → ℕ → ℕ → Cursor → Cursor × Bool
item_loop item_n zero index c = (c, false)
item_loop item_n (suc rounds) index c = elim (c.count == item_n) [
  | true ↦ (record c { obj_item_n = index }, true)
  | false ↦
      item_loop item_n rounds (index + 1) (record c { obj_item_n = index; count = c.count + 1 })
]

module _ {O : Type 0} (kind : OutputKind O) (p : Platform) where
  unfoldable pub item_filter : ℕ → ℕ → Cursor → TransferableOutput O → Cursor × Bool
  item_filter mask item_n c o =
      let c' = record c { idx = c.idx + 1 } in
      if not (bit_at mask c.idx)
      then (c', false)
      else item_loop item_n (kind.num_items o.output) 0 c'

  -- The output that holds an item of the display, and the item's number in it, as a `u8`.
  unfoldable pub base_output_with_item :
      ℕ → BaseTxFields → Result ParserError (TransferableOutput O × ℕ)
  base_output_with_item item_n tx = do
    (found, c) ← map_err from_nom_err (
        get_obj_if (parse_transferable_output kind p) (item_filter tx.renderable_out item_n)
          (record { count = 0; obj_item_n = 0; idx = 0 }) tx.outputs)
    o ← ok_or found display_idx_out_of_range
    ok (o, c.obj_item_n % 256)
