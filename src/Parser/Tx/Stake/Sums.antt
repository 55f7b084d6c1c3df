-- ===== src/Parser/Tx/Stake/Sums.antt =====
-- The sum of the amounts that are there, against the sum over ℕ.
use ledger_avalanche.Prelude.{
  ℕ, ◌+◌, ◌^◌, ◌<◌, ◌≡◌, ap, ◌∙◌, true, false, Option, some, none, List, [], ◌∷◌, ltb, arith,
  Bool-cases, Option-cases, inl, inr,
}
use ledger_avalanche.Platform.{Platform, IsWide}
use ledger_avalanche.Parser.BaseTx.{checked_add}
use ledger_avalanche.Parser.BaseTx.Amounts.{within_u64}
use ledger_avalanche.Parser.BaseTx.Format.{IsOutputs}
use ledger_avalanche.Parser.Objects.{ObjectList}
use ledger_avalanche.Parser.Outputs.Chains.{pvm_kind, pvm_laws}
use ledger_avalanche.Parser.Outputs.Transferable.{amount}
use ledger_avalanche.Parser.Tx.Head.{walk_outputs}
use ledger_avalanche.Parser.Tx.Stake.{sum_present, sum_stake_outputs_amount}

abbrev pub amount_or_zero : Option ℕ → ℕ
amount_or_zero none = 0
amount_or_zero (some x) = x

-- The sum over ℕ of the amounts that are there.
abbrev pub present_total : {A : Type 0} → (A → Option ℕ) → List A → ℕ
present_total value [] = 0
present_total value (a ∷ rest) = amount_or_zero (value a) + present_total value rest

too_much : (acc x u : ℕ) → ltb (acc + x) (2 ^ 64) ≡ false → ltb (acc + (x + u)) (2 ^ 64) ≡ false
too_much acc x u h = ground arith

fits : (n : ℕ) → ltb n (2 ^ 64) ≡ true → n < 2 ^ 64
fits n h = ground arith

pub sum_present-eq-total :
    {A : Type 0} (value : A → Option ℕ) (acc : ℕ) (items : List A)
    → acc < 2 ^ 64
    → sum_present value acc items ≡ within_u64 (acc + present_total value items)
unfolding sum_present checked_add
sum_present-eq-total value acc [] h = ground arith
sum_present-eq-total value acc (a ∷ rest) h = elim (Option-cases (value a)) [
  | inl e ↦
      rw (e, sum_present) (sum_present-eq-total value acc rest h ∙ ap within_u64 (omega arith))
  | inr (x, e) ↦ elim (Bool-cases (ltb (acc + x) (2 ^ 64))) [
    | inl small ↦
        rw (e, sum_present, small)
          (sum_present-eq-total value (acc + x) rest (fits (acc + x) small)
            ∙ ap within_u64 (omega arith))
    | inr large ↦ rw (e, sum_present, large, too_much acc x (present_total value rest) large)
  ]
]

-- On a platform where an u32 times a small length does not wrap around, and for a list of valid
-- outputs, `sum_stake_outputs_amount` is the sum over ℕ of the amounts that are there, or
-- `OperationOverflows` where it does not fit an `u64`.
pub sum_stake_outputs_amount-eq-total :
    (p : Platform) (wide : IsWide p) (stake : ObjectList) (outputs : IsOutputs pvm_laws stake)
    → sum_stake_outputs_amount p stake ≡ within_u64 (present_total (amount pvm_kind) outputs.objs)
unfolding sum_stake_outputs_amount
sum_stake_outputs_amount-eq-total p wide stake outputs =
    rw (walk_outputs pvm_laws p wide stake outputs) (
      sum_present-eq-total (amount pvm_kind) 0 outputs.objs (omega arith)
      ∙ ap within_u64 (omega arith))
