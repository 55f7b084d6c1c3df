-- ===== src/Parser/Tx/Blockchain.antt =====
-- create_chain_tx.rs in app/src/parser/transactions/pvm.
use ledger_avalanche.Prelude.{
  ℕ, refl, some, Bytes, IsBytes, IsU32, List, length, flatten, ◌++◌, ◌^◌, ◌<◌, append_assoc,
  to_be_bytes, arith,
}
use ledger_avalanche.Errors.{
  ok, error, invalid_ascii_value, ◌>>=◌, ◌>>◌, bail_if, apdu_unwrap, returns, Ensures-bail,
}
use ledger_avalanche.Platform.{Platform, Parser, IsWide}
use ledger_avalanche.Codec.{
  Exact, Exact-then, reads, be_uint-Exact, take-Exact, take_array, take_array-Exact, IsArray,
  take_arrays, take_arrays-Exact, IsArrays,
}
use ledger_avalanche.Parser.Ids.{subnet_id_len, parse_subnet_id, parse_subnet_id-Exact}
use ledger_avalanche.Parser.Outputs.Chains.{pvm_kind, pvm_laws}
use ledger_avalanche.Parser.Staking.{
  SubnetAuth, parse_subnet_auth, encode_subnet_auth, IsSubnetAuth, parse_subnet_auth-Exact,
}
use ledger_avalanche.Parser.Tx.Ascii.{any_high, IsAscii}
use ledger_avalanche.Parser.Tx.Head.{Head, parse_head, IsHead, encode_head, parse_head-Exact}

abbrev pub pvm_create_chain : ℕ
pvm_create_chain = 0x0f

abbrev pub vm_id_len : ℕ
vm_id_len = 32

abbrev pub fx_id_len : ℕ
fx_id_len = 32

pub record CreateChain : Type 0 where
  pub head : Head
  pub subnet_id : Bytes
  pub chain_name : Bytes
  pub vm_id : Bytes
  pub fx_id : List Bytes
  pub genesis_data : Bytes
  pub subnet_auth : SubnetAuth

module _ (p : Platform) where
  unfoldable pub parse_create_chain : Parser CreateChain
  parse_create_chain input = do
    (rem, head) ← parse_head pvm_kind p pvm_create_chain input
    (rem, subnet_id) ← parse_subnet_id p rem
    (rem, chain_name_len) ← p.be_uint 2 rem
    (rem, chain_name) ← p.take chain_name_len rem
    bail_if (any_high chain_name) (error invalid_ascii_value)
    (rem, vm_id) ← take_array p vm_id_len rem
    (rem, num_fx_id) ← p.be_uint 4 rem
    (rem, cast) ← take_arrays p num_fx_id fx_id_len rem
    fx_id ← apdu_unwrap cast
    (rem, genesis_data_len) ← p.be_uint 4 rem
    (rem, genesis_data) ← p.take genesis_data_len rem
    (rem, subnet_auth) ← parse_subnet_auth p rem
    ok (
      rem,
      record {
        head = head;
        subnet_id = subnet_id;
        chain_name = chain_name;
        vm_id = vm_id;
        fx_id = fx_id;
        genesis_data = genesis_data;
        subnet_auth = subnet_auth;
      },
    )

module _ (p : Platform) (wide : IsWide p) where
  pub record IsCreateChain (tx : CreateChain) : Type 0 where
    pub head : IsHead pvm_laws p wide tx.head
    pub subnet_id : IsArray subnet_id_len tx.subnet_id
    pub name_bytes : IsBytes tx.chain_name
    pub name_fits : length tx.chain_name < 256 ^ 2
    pub name_ascii : IsAscii tx.chain_name
    pub vm_id : IsArray vm_id_len tx.vm_id
    pub fx_count : IsU32 (length tx.fx_id)
    pub fx_id : IsArrays fx_id_len tx.fx_id
    pub genesis_bytes : IsBytes tx.genesis_data
    pub genesis_fits : IsU32 (length tx.genesis_data)
    pub subnet_auth : IsSubnetAuth tx.subnet_auth

  unfoldable pub encode_create_chain : CreateChain → Bytes
  encode_create_chain tx =
      encode_head pvm_laws p wide pvm_create_chain tx.head
      ++ (tx.subnet_id
          ++ (to_be_bytes 2 (length tx.chain_name)
              ++ (tx.chain_name
                  ++ (tx.vm_id
                      ++ (to_be_bytes 4 (length tx.fx_id)
                          ++ (flatten tx.fx_id
                              ++ (to_be_bytes 4 (length tx.genesis_data)
                                  ++ (tx.genesis_data ++ encode_subnet_auth tx.subnet_auth))))))))

  pub parse_create_chain-Exact : Exact (parse_create_chain p) encode_create_chain IsCreateChain
  unfolding parse_create_chain encode_create_chain
  parse_create_chain-Exact = record {
    complete = λ tx rest v. simp (
      append_assoc,
      reads (parse_head-Exact pvm_laws p wide pvm_create_chain) tx.head v.head,
      reads (parse_subnet_id-Exact p) tx.subnet_id v.subnet_id,
      reads (be_uint-Exact p 2) (length tx.chain_name) v.name_fits,
      reads (take-Exact p (length tx.chain_name)) tx.chain_name (v.name_bytes, refl),
      v.name_ascii,
      reads (take_array-Exact p vm_id_len) tx.vm_id v.vm_id,
      reads (be_uint-Exact p 4) (length tx.fx_id) v.fx_count,
      reads
          (take_arrays-Exact p wide (length tx.fx_id) fx_id_len v.fx_count (omega arith)
            (omega arith))
          (some tx.fx_id) (tx.fx_id, refl, v.fx_id, refl),
      reads (be_uint-Exact p 4) (length tx.genesis_data) v.genesis_fits,
      reads (take-Exact p (length tx.genesis_data)) tx.genesis_data (v.genesis_bytes, refl),
      reads (parse_subnet_auth-Exact p wide) tx.subnet_auth v.subnet_auth,
    );
    sound = λ input h.
        Exact-then (parse_head-Exact pvm_laws p wide pvm_create_chain) input h _ λ head r₁ vh h₁ e₁.
          Exact-then (parse_subnet_id-Exact p) r₁ h₁ _ λ subnet_id r₂ vs h₂ e₂.
            Exact-then (be_uint-Exact p 2) r₂ h₂ _ λ n r₃ vn h₃ e₃.
              Exact-then (take-Exact p n) r₃ h₃ _ λ name r₄ (nb, nl) h₄ e₄.
                Ensures-bail (any_high name) _ _ λ ascii.
                  Exact-then (take_array-Exact p vm_id_len) r₄ h₄ _ λ vm_id r₅ vv h₅ e₅.
                    Exact-then (be_uint-Exact p 4) r₅ h₅ _ λ count r₆ vc h₆ e₆.
                      Exact-then
                        (take_arrays-Exact p wide count fx_id_len vc (omega arith) (omega arith)) r₆
                        h₆ _
                        λ cast r₇ (fx, ec, vf, len) h₇ e₇. rw ec (
                          Exact-then (be_uint-Exact p 4) r₇ h₇ _ λ g r₈ vg h₈ e₈.
                            Exact-then (take-Exact p g) r₈ h₈ _ λ genesis r₉ (gb, gl) h₉ e₉.
                              Exact-then (parse_subnet_auth-Exact p wide) r₉ h₉ _ λ auth r va _ e.
                                returns (
                                  record {
                                    head = vh;
                                    subnet_id = vs;
                                    name_bytes = nb;
                                    name_fits = rw nl vn;
                                    name_ascii = ascii;
                                    vm_id = vv;
                                    fx_count = rw len vc;
                                    fx_id = vf;
                                    genesis_bytes = gb;
                                    genesis_fits = rw gl vg;
                                    subnet_auth = va;
                                  },
                                  simp (
                                    e₁, e₂, e₃, e₄, nl, e₅, e₆, e₇, ec, len, e₈, e₉, gl, e,
                                    append_assoc,
                                  ),
                                ));
  }
