-- ===== src/Parser/Tx/Stake/Format.antt =====
-- The format of the staking transactions: the stake makes up the validator's weight.
use ledger_avalanche.Prelude.{
  ℕ, ◌^◌, ◌<◌, ◌≤◌, ◌≡◌, refl, sym, true, false, not, Bytes, IsU32, length, ltb, ◌==◌, ◌++◌,
  append_assoc, to_be_bytes, arith, Bool-cases, inl, inr,
}
use ledger_avalanche.Errors.{
  ok, error, map_err, returns, fails, Ensures, Ensures-bind, Ensures-bail,
}
use ledger_avalanche.Platform.{Platform, IsWide}
use ledger_avalanche.Codec.{Exact, Exact-then, reads, be_uint-Exact}
use ledger_avalanche.Parser.BaseTx.{output_idx_bits, output_idx_max}
use ledger_avalanche.Parser.BaseTx.Amounts.{within_u64}
use ledger_avalanche.Parser.BaseTx.Format.{
  IsOutputs, outputs-Exact, peek_count, count_lem, le_test, le_of_test,
}
use ledger_avalanche.Parser.Objects.Format.{encode_objects}
use ledger_avalanche.Parser.Outputs.Chains.{pvm_kind, pvm_laws}
use ledger_avalanche.Parser.Outputs.Secp.{IsSecpOwners, encode_secp_owners, parse_secp_owners-Exact}
use ledger_avalanche.Parser.Outputs.Transferable.{parse_transferable_output, amount}
use ledger_avalanche.Parser.Staking.{IsValidator, encode_validator, parse_validator-Exact}
use ledger_avalanche.Parser.Tx.Head.{IsHead, encode_head, parse_head-Exact}
use ledger_avalanche.Parser.Tx.Stake.{
  Staking, AddValidator, sum_stake_outputs_amount, parse_staking, parse_add_delegator,
  parse_add_validator, pvm_add_validator, pvm_add_delegator,
}
use ledger_avalanche.Parser.Tx.Stake.Sums.{present_total, sum_stake_outputs_amount-eq-total}

same_test : (n : ℕ) → not (n == n) ≡ false
same_test n = ground arith

same_of_test : (m n : ℕ) → not (m == n) ≡ false → m ≡ n
same_of_test m n h = ground arith

below_test : (n : ℕ) → n < 2 ^ 64 → ltb n (2 ^ 64) ≡ true
below_test n h = ground arith

within_u64-Ensures : (n : ℕ) → Ensures (λ m. m ≡ n) (map_err error (within_u64 n))
within_u64-Ensures n = elim (Bool-cases (ltb n (2 ^ 64))) [
  | inl e ↦ rw e (returns refl)
  | inr e ↦ rw e fails
]

module _ (p : Platform) (wide : IsWide p) where
  pub record IsStaking (tx : Staking) : Type 0 where
    pub head : IsHead pvm_laws p wide tx.head
    pub validator : IsValidator tx.validator
    pub stake : IsOutputs pvm_laws tx.stake
    pub few_outputs : length stake.objs ≤ output_idx_bits
    pub stake_is_weight : tx.validator.weight ≡ present_total (amount pvm_kind) stake.objs
    pub rewards_owner : IsSecpOwners tx.rewards_owner
    pub all_shown : tx.renderable_out ≡ output_idx_max

  unfoldable pub encode_staking : ℕ → Staking → Bytes
  encode_staking type_id tx =
      encode_head pvm_laws p wide type_id tx.head
      ++ (encode_validator tx.validator
          ++ (encode_objects (parse_transferable_output pvm_kind p) tx.stake
              ++ encode_secp_owners tx.rewards_owner))

  stake_sum :
      (tx : Staking) (v : IsStaking tx)
      → sum_stake_outputs_amount p tx.stake ≡ ok tx.validator.weight
  stake_sum tx v = rw (
    sum_stake_outputs_amount-eq-total p wide tx.stake v.stake,
    ← v.stake_is_weight,
    below_test tx.validator.weight v.validator.weight,
  )

  pub parse_staking-Exact :
      (type_id : ℕ) → Exact (parse_staking p type_id) (encode_staking type_id) IsStaking
  unfolding parse_staking encode_staking
  parse_staking-Exact type_id = record {
    complete = λ tx rest v.
        simp
          (
            append_assoc,
            reads (parse_head-Exact pvm_laws p wide type_id) tx.head v.head,
            reads (parse_validator-Exact p) tx.validator v.validator,
            peek_count pvm_laws p wide tx.stake v.stake,
            le_test (length v.stake.objs) output_idx_bits v.few_outputs,
            reads (outputs-Exact pvm_laws p wide) tx.stake v.stake,
            stake_sum tx v,
            same_test tx.validator.weight,
            reads (parse_secp_owners-Exact p wide) tx.rewards_owner v.rewards_owner,
          )
          λ i. ok (rest, record tx { renderable_out = sym v.all_shown i });
    sound = λ input h.
        Exact-then (parse_head-Exact pvm_laws p wide type_id) input h _ λ head r₁ vh h₁ e₁.
          Exact-then (parse_validator-Exact p) r₁ h₁ _ λ validator r₂ vv h₂ e₂.
            Exact-then (be_uint-Exact p 4) r₂ h₂ _ λ n r vn _ e₀.
              Ensures-bail (ltb output_idx_bits n) _ _ λ few.
                Exact-then (outputs-Exact pvm_laws p wide) r₂ h₂ _ λ stake r₃ vs h₃ e₃.
                  let same = count_lem pvm_laws p wide r₂ n r vn e₀ stake vs r₃ e₃ in
                  rw (sum_stake_outputs_amount-eq-total p wide stake vs) (
                    Ensures-bind (within_u64-Ensures (present_total (amount pvm_kind) vs.objs))
                      λ sum es. Ensures-bail (not (validator.weight == sum)) _ _ λ equal.
                        Exact-then (parse_secp_owners-Exact p wide) r₃ h₃ _ λ owner r₄ vo _ e₄.
                          returns (
                            record {
                              head = vh;
                              validator = vv;
                              stake = vs;
                              few_outputs = rw (← same) (le_of_test n output_idx_bits few);
                              stake_is_weight = rw (← es) (same_of_test validator.weight sum equal);
                              rewards_owner = vo;
                              all_shown = refl;
                            },
                            simp (e₁, e₂, e₃, e₄, append_assoc),
                          ));
  }

  pub parse_add_delegator-Exact :
      Exact (parse_add_delegator p) (encode_staking pvm_add_delegator) IsStaking
  unfolding parse_add_delegator
  parse_add_delegator-Exact = parse_staking-Exact pvm_add_delegator

  pub record IsAddValidator (tx : AddValidator) : Type 0 where
    pub staking : IsStaking tx.staking
    pub shares : IsU32 tx.shares

  unfoldable pub encode_add_validator : AddValidator → Bytes
  encode_add_validator tx = encode_staking pvm_add_validator tx.staking ++ to_be_bytes 4 tx.shares

  pub parse_add_validator-Exact : Exact (parse_add_validator p) encode_add_validator IsAddValidator
  unfolding parse_add_validator encode_add_validator
  parse_add_validator-Exact = record {
    complete = λ tx rest v. simp (
      append_assoc,
      reads (parse_staking-Exact pvm_add_validator) tx.staking v.staking,
      reads (be_uint-Exact p 4) tx.shares v.shares,
    );
    sound = λ input h.
        Exact-then (parse_staking-Exact pvm_add_validator) input h _ λ staking r₁ vs h₁ e₁.
          Exact-then (be_uint-Exact p 4) r₁ h₁ _ λ shares r₂ vn _ e₂.
            returns (record { staking = vs; shares = vn }, simp (e₁, e₂, append_assoc));
  }
