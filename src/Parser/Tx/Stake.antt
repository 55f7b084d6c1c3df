-- ===== src/Parser/Tx/Stake.antt =====
-- add_validator.rs and add_delegator.rs in app/src/parser/transactions/pvm.
pub mod Sums
pub mod Format
pub mod Fee
use ledger_avalanche.Prelude.{
  ℕ, ◌+◌, Bool, not, Option, some, none, List, [], ◌∷◌, Bytes, length, ltb, ◌==◌,
}
use ledger_avalanche.Errors.{
  Result, ok, Err, error, ParserError, ◌>>=◌, ◌>>◌, bail_if, map_err, from_nom_err,
  too_many_outputs, invalid_staking_amount, display_idx_out_of_range,
}
use ledger_avalanche.Platform.{Platform, Parser}
use ledger_avalanche.Parser.BaseTx.{
  checked_add, checked_sub, sum_inputs_amount, sum_outputs_amount, output_idx_bits, output_idx_max,
  disabled_mask, force_disable_output, count_step, base_outputs_num_items,
}
use ledger_avalanche.Parser.Objects.{ObjectList, new_into, iter, iterate_with}
use ledger_avalanche.Parser.Outputs.Chains.{pvm_kind}
use ledger_avalanche.Parser.Outputs.Secp.{SecpOutputOwners, parse_secp_owners}
use ledger_avalanche.Parser.Outputs.Transferable.{
  TransferableOutput, parse_transferable_output, amount,
}
use ledger_avalanche.Parser.Outputs.Variants.{PvmOutput}
use ledger_avalanche.Parser.BaseTx.LateLoop.{output_with_item}
use ledger_avalanche.Parser.Staking.{Validator, parse_validator}
use ledger_avalanche.Parser.Tx.Head.{Head, parse_head}

abbrev pub pvm_add_validator : ℕ
pvm_add_validator = 0x0c

abbrev pub pvm_add_delegator : ℕ
pvm_add_delegator = 0x0e

-- The fields that `AddValidatorTx` and `AddDelegatorTx` share; the second has no others.
pub record Staking : Type 0 where
  pub head : Head
  pub validator : Validator
  pub renderable_out : ℕ
  pub stake : ObjectList
  pub rewards_owner : SecpOutputOwners

pub record AddValidator : Type 0 where
  pub staking : Staking
  pub shares : ℕ

-- `filter_map(|output| output.amount()).try_fold(0u64, |acc, x| acc.checked_add(x))`
unfoldable pub sum_present : {A : Type 0} → (A → Option ℕ) → ℕ → List A → Result ParserError ℕ
sum_present amount acc [] = ok acc
sum_present amount acc (a ∷ rest) = elim (amount a) [
  | none ↦ sum_present amount acc rest
  | some x ↦ checked_add acc x >>= λ acc'. sum_present amount acc' rest
]

module _ (p : Platform) where
  unfoldable pub sum_stake_outputs_amount : ObjectList → Result ParserError ℕ
  sum_stake_outputs_amount stake = do
    outputs ← map_err from_nom_err (iter (parse_transferable_output pvm_kind p) stake)
    sum_present (amount pvm_kind) 0 outputs

  unfoldable pub parse_staking : ℕ → Parser Staking
  parse_staking type_id input = do
    (rem, head) ← parse_head pvm_kind p type_id input
    (rem, validator) ← parse_validator p rem
    (_, num_outputs) ← p.be_uint 4 rem
    bail_if (ltb output_idx_bits num_outputs) (error too_many_outputs)
    (rem, stake) ← new_into (parse_transferable_output pvm_kind p) p rem
    amount ← map_err error (sum_stake_outputs_amount stake)
    bail_if (not (validator.weight == amount)) (error invalid_staking_amount)
    (rem, rewards_owner) ← parse_secp_owners p rem
    ok (
      rem,
      record {
        head = head;
        validator = validator;
        renderable_out = output_idx_max;
        stake = stake;
        rewards_owner = rewards_owner;
      },
    )

  unfoldable pub parse_add_delegator : Parser Staking
  parse_add_delegator = parse_staking pvm_add_delegator

  unfoldable pub parse_add_validator : Parser AddValidator
  parse_add_validator input = do
    (rem, staking) ← parse_staking pvm_add_validator input
    (rem, shares) ← p.be_uint 4 rem
    ok (rem, record { staking = staking; shares = shares })

  -- A single base output is hidden too.
  unfoldable pub staking_disable_output_if : Bytes → Staking → Result Err Staking
  staking_disable_output_if address tx = do
    base_tx ← force_disable_output pvm_kind p address tx.head.base_tx
    render ← disabled_mask pvm_kind p address tx.stake tx.renderable_out
    let head : Head = record { tx_header = tx.head.tx_header; base_tx = base_tx }
    ok (record tx { head = head; renderable_out = render })

  unfoldable pub staking_fee : Staking → Result ParserError ℕ
  staking_fee tx = do
    inputs ← sum_inputs_amount pvm_kind p tx.head.base_tx
    base_outputs ← sum_outputs_amount pvm_kind p tx.head.base_tx
    stake_outputs ← sum_stake_outputs_amount tx.stake
    total_outputs ← checked_add base_outputs stake_outputs
    checked_sub inputs total_outputs

  unfoldable pub num_stake_items : Staking → Result Err ℕ
  num_stake_items tx = do
    (items, _) ←
        iterate_with (parse_transferable_output pvm_kind p)
          (count_step pvm_kind p tx.renderable_out) (0, 0) tx.stake
    ok items

  unfoldable pub stake_output_with_item :
      Staking → ℕ → Result ParserError (TransferableOutput PvmOutput × ℕ)
  stake_output_with_item tx =
      output_with_item pvm_kind p display_idx_out_of_range tx.renderable_out tx.stake

  -- The type, the base outputs, four items of the validator, the owners, the stake and the fee.
  unfoldable pub add_delegator_num_items : Staking → Result Err ℕ
  add_delegator_num_items tx = do
    base ← base_outputs_num_items pvm_kind p tx.head.base_tx
    stake ← num_stake_items tx
    ok (1 + base + 4 + length tx.rewards_owner.addresses + stake + 1)

  -- One item more: the delegation fee.
  unfoldable pub add_validator_num_items : AddValidator → Result Err ℕ
  add_validator_num_items tx = do
    base ← base_outputs_num_items pvm_kind p tx.staking.head.base_tx
    stake ← num_stake_items tx.staking
    ok (1 + base + 4 + length tx.staking.rewards_owner.addresses + stake + 1 + 1)
