-- ===== src/Parser/Tx/Subnets.antt =====
-- create_subnet_tx.rs and add_subnet_validator.rs in
-- app/src/parser/transactions/pvm.
use ledger_avalanche.Prelude.{ℕ, Bytes, ◌++◌, append_assoc}
use ledger_avalanche.Errors.{ok, ◌>>=◌, returns}
use ledger_avalanche.Platform.{Platform, Parser, IsWide}
use ledger_avalanche.Codec.{Exact, Exact-then, reads, IsArray}
use ledger_avalanche.Parser.Ids.{subnet_id_len, parse_subnet_id, parse_subnet_id-Exact}
use ledger_avalanche.Parser.Outputs.Chains.{pvm_kind, pvm_laws}
use ledger_avalanche.Parser.Outputs.Secp.{
  SecpOutputOwners, IsSecpOwners, parse_secp_owners, encode_secp_owners, parse_secp_owners-Exact,
}
use ledger_avalanche.Parser.Staking.{
  Validator, parse_validator, encode_validator, IsValidator, parse_validator-Exact, SubnetAuth,
  parse_subnet_auth, encode_subnet_auth, IsSubnetAuth, parse_subnet_auth-Exact,
}
use ledger_avalanche.Parser.Tx.Head.{Head, parse_head, IsHead, encode_head, parse_head-Exact}

abbrev pub pvm_create_subnet : ℕ
pvm_create_subnet = 0x10

abbrev pub pvm_add_subnet_validator : ℕ
pvm_add_subnet_validator = 0x0d

pub record CreateSubnet : Type 0 where
  pub head : Head
  pub owners : SecpOutputOwners

pub record AddSubnetValidator : Type 0 where
  pub head : Head
  pub validator : Validator
  pub subnet_id : Bytes
  pub subnet_auth : SubnetAuth

module _ (p : Platform) where
  unfoldable pub parse_create_subnet : Parser CreateSubnet
  parse_create_subnet input = do
    (rem, head) ← parse_head pvm_kind p pvm_create_subnet input
    (rem, owners) ← parse_secp_owners p rem
    ok (rem, record { head = head; owners = owners })

  unfoldable pub parse_add_subnet_validator : Parser AddSubnetValidator
  parse_add_subnet_validator input = do
    (rem, head) ← parse_head pvm_kind p pvm_add_subnet_validator input
    (rem, validator) ← parse_validator p rem
    (rem, subnet_id) ← parse_subnet_id p rem
    (rem, subnet_auth) ← parse_subnet_auth p rem
    ok (
      rem,
      record {
        head = head;
        validator = validator;
        subnet_id = subnet_id;
        subnet_auth = subnet_auth;
      },
    )

module _ (p : Platform) (wide : IsWide p) where
  pub record IsCreateSubnet (tx : CreateSubnet) : Type 0 where
    pub head : IsHead pvm_laws p wide tx.head
    pub owners : IsSecpOwners tx.owners

  unfoldable pub encode_create_subnet : CreateSubnet → Bytes
  encode_create_subnet tx =
      encode_head pvm_laws p wide pvm_create_subnet tx.head ++ encode_secp_owners tx.owners

  pub parse_create_subnet-Exact : Exact (parse_create_subnet p) encode_create_subnet IsCreateSubnet
  unfolding parse_create_subnet encode_create_subnet
  parse_create_subnet-Exact = record {
    complete = λ tx rest v. simp (
      append_assoc,
      reads (parse_head-Exact pvm_laws p wide pvm_create_subnet) tx.head v.head,
      reads (parse_secp_owners-Exact p wide) tx.owners v.owners,
    );
    sound = λ input h.
        Exact-then (parse_head-Exact pvm_laws p wide pvm_create_subnet) input h _
          λ head r₁ vh h₁ e₁.
            Exact-then (parse_secp_owners-Exact p wide) r₁ h₁ _ λ owners r₂ vo _ e₂.
              returns (record { head = vh; owners = vo }, simp (e₁, e₂, append_assoc));
  }

  pub record IsAddSubnetValidator (tx : AddSubnetValidator) : Type 0 where
    pub head : IsHead pvm_laws p wide tx.head
    pub validator : IsValidator tx.validator
    pub subnet_id : IsArray subnet_id_len tx.subnet_id
    pub subnet_auth : IsSubnetAuth tx.subnet_auth

  unfoldable pub encode_add_subnet_validator : AddSubnetValidator → Bytes
  encode_add_subnet_validator tx =
      encode_head pvm_laws p wide pvm_add_subnet_validator tx.head
      ++ (encode_validator tx.validator ++ (tx.subnet_id ++ encode_subnet_auth tx.subnet_auth))

  pub parse_add_subnet_validator-Exact :
      Exact (parse_add_subnet_validator p) encode_add_subnet_validator IsAddSubnetValidator
  unfolding parse_add_subnet_validator encode_add_subnet_validator
  parse_add_subnet_validator-Exact = record {
    complete = λ tx rest v. simp (
      append_assoc,
      reads (parse_head-Exact pvm_laws p wide pvm_add_subnet_validator) tx.head v.head,
      reads (parse_validator-Exact p) tx.validator v.validator,
      reads (parse_subnet_id-Exact p) tx.subnet_id v.subnet_id,
      reads (parse_subnet_auth-Exact p wide) tx.subnet_auth v.subnet_auth,
    );
    sound = λ input h.
        Exact-then (parse_head-Exact pvm_laws p wide pvm_add_subnet_validator) input h _
          λ head r₁ vh h₁ e₁. Exact-then (parse_validator-Exact p) r₁ h₁ _ λ validator r₂ vv h₂ e₂.
            Exact-then (parse_subnet_id-Exact p) r₂ h₂ _ λ subnet_id r₃ vs h₃ e₃.
              Exact-then (parse_subnet_auth-Exact p wide) r₃ h₃ _ λ subnet_auth r₄ va _ e₄.
                returns (
                  record { head = vh; validator = vv; subnet_id = vs; subnet_auth = va },
                  simp (e₁, e₂, e₃, e₄, append_assoc),
                );
  }
