-- ===== src/Parser/Network.antt =====
-- app/src/parser/network_info.rs and app/src/parser/transactions/tx_header.rs. The lookup of a chain's
-- alias is generated from app/vendor/chainIDs.json at build time, and is a parameter.
use ledger_avalanche.Prelude.{
  ℕ, ◌≡◌, ◌≢◌, refl, Bool, true, false, Option, some, none, [], ◌∷◌, ◌++◌, Bytes, IsU32,
  to_be_bytes, ◌==◌, if◌then◌else◌, append_assoc,
}
use ledger_avalanche.Errors.{
  Result, ok, err, panic, error, map_err, ParserError, ◌>>=◌, returns, fails, Ensures,
  Ensures-panic, Ensures-if, Ensures-bind, invalid_network_id, invalid_chain_id,
}
use ledger_avalanche.Platform.{Platform, Parser}
use ledger_avalanche.Codec.{
  Exact, Exact-then, reads, be_uint-Exact, take_array, take_array-Exact, IsArray,
}

pub data NetworkId : Type 0 where
  mainnet fuji local : NetworkId

pub data ChainId : Type 0 where
  p_chain x_chain c_chain : ChainId

pub record NetworkInfo : Type 0 where
  pub network_id : NetworkId
  pub chain_id : ChainId

unfoldable pub network_id_try_from : ℕ → Result ParserError NetworkId
network_id_try_from n =
    if n == 1
    then ok mainnet
    else if n == 5
    then ok fuji
    else if n == 12345
    then ok local
    else err invalid_network_id

-- `NetworkId::hrp`, in ASCII.
unfoldable pub network_hrp : NetworkId → Bytes
network_hrp mainnet = b'a' ∷ b'v' ∷ b'a' ∷ b'x' ∷ []
network_hrp fuji = b'f' ∷ b'u' ∷ b'j' ∷ b'i' ∷ []
network_hrp local = b'l' ∷ b'o' ∷ b'c' ∷ b'a' ∷ b'l' ∷ []

abbrev pub chain_id_eq : ChainId → ChainId → Bool
chain_id_eq p_chain p_chain = true
chain_id_eq x_chain x_chain = true
chain_id_eq c_chain c_chain = true
chain_id_eq _ _ = false

chain_of_alias : Option Bytes → Result ParserError ChainId
chain_of_alias (some (c ∷ [])) =
    if c == b'X'
    then ok x_chain
    else if c == b'P'
    then ok p_chain
    else if c == b'C'
    then ok c_chain
    else err invalid_chain_id
chain_of_alias _ = err invalid_chain_id

-- `chain_alias_lookup`
abbrev pub AliasLookup : Type 0
AliasLookup = Bytes → Option Bytes

unfoldable pub chain_id_try_from : AliasLookup → Bytes → Result ParserError ChainId
unfolding chain_of_alias
chain_id_try_from lookup blockchain_id = chain_of_alias (lookup blockchain_id)

unfoldable pub network_info_try_from : AliasLookup → ℕ → Bytes → Result ParserError NetworkInfo
network_info_try_from lookup network_id blockchain_id = do
  network ← network_id_try_from network_id
  chain ← chain_id_try_from lookup blockchain_id
  ok (record { network_id = network; chain_id = chain })

pub record Header : Type 0 where
  pub network_id : ℕ
  pub blockchain_id : Bytes

abbrev pub blockchain_id_len : ℕ
blockchain_id_len = 32

unfoldable pub parse_header : Platform → Parser Header
parse_header p input = do
  (rem, network_id) ← p.be_uint 4 input
  (rem, blockchain_id) ← take_array p blockchain_id_len rem
  ok (rem, record { network_id = network_id; blockchain_id = blockchain_id })

-- `Header::chain_id` and `Header::hrp`
unfoldable pub header_chain_id : AliasLookup → Header → Result ParserError ChainId
header_chain_id lookup h = chain_id_try_from lookup h.blockchain_id

unfoldable pub header_hrp : AliasLookup → Header → Result ParserError Bytes
header_hrp lookup h = do
  info ← network_info_try_from lookup h.network_id h.blockchain_id
  ok (network_hrp info.network_id)

unfoldable pub encode_header : Header → Bytes
encode_header h = to_be_bytes 4 h.network_id ++ h.blockchain_id

pub record IsHeader (h : Header) : Type 0 where
  pub network_id : IsU32 h.network_id
  pub blockchain_id : IsArray blockchain_id_len h.blockchain_id

pub parse_header-Exact : (p : Platform) → Exact (parse_header p) encode_header IsHeader
unfolding parse_header encode_header
parse_header-Exact p = record {
  complete = λ h rest v. simp (
    append_assoc,
    reads (be_uint-Exact p 4) h.network_id v.network_id,
    reads (take_array-Exact p blockchain_id_len) h.blockchain_id v.blockchain_id,
  );
  sound = λ input h. Exact-then (be_uint-Exact p 4) input h _ λ network_id r₁ vn h₁ e₁.
      Exact-then (take_array-Exact p blockchain_id_len) r₁ h₁ _ λ blockchain_id r₂ vb _ e₂.
        returns (record { network_id = vn; blockchain_id = vb }, simp (e₁, e₂, append_assoc));
}

-- The two chains of a transfer between chains: both are known, and they differ.
pub record AreOtherChains (lookup : AliasLookup) (h : Header) (other : Bytes) : Type 0 where
  pub here : ChainId
  pub there : ChainId
  pub here_is : header_chain_id lookup h ≡ ok here
  pub there_is : chain_id_try_from lookup other ≡ ok there
  pub differ : chain_id_eq there here ≡ false

pub not_panic :
    {A : Type 0} (r : Result ParserError A)
    → (r ≢ panic)
    → Ensures (λ a. r ≡ ok a) (map_err error r)
not_panic (ok a) h = returns refl
not_panic (err e) h = fails
not_panic panic h = absurd (h refl)

chain_of_alias-panic : (a : Option Bytes) → chain_of_alias a ≢ panic
unfolding chain_of_alias
chain_of_alias-panic none = cc
chain_of_alias-panic (some []) = cc
chain_of_alias-panic (some (c ∷ [])) = Ensures-panic {P = λ _. Unit {0}} (
    Ensures-if (c == b'X') (λ _. returns tt)
      λ _.
        Ensures-if (c == b'P') (λ _. returns tt)
          λ _. Ensures-if (c == b'C') (λ _. returns tt) (λ _. fails))
chain_of_alias-panic (some (c ∷ d ∷ rest)) = cc

pub chain_id-Ensures :
    (lookup : AliasLookup) (id : Bytes)
    → Ensures
        (λ c. chain_id_try_from lookup id ≡ ok c)
        (map_err error (chain_id_try_from lookup id))
unfolding chain_id_try_from
chain_id-Ensures lookup id =
    not_panic (chain_of_alias (lookup id)) (chain_of_alias-panic (lookup id))

any_result : {A : Type 0} (r : Result ParserError A) → r ≢ panic → Ensures {0, 0} (λ _. Unit) r
any_result (ok a) h = returns tt
any_result (err e) h = fails
any_result panic h = absurd (h refl)

network_id-Ensures : (n : ℕ) → Ensures {0, 0} (λ _. Unit) (network_id_try_from n)
unfolding network_id_try_from
network_id-Ensures n =
    Ensures-if (n == 1) (λ _. returns tt)
      λ _.
        Ensures-if (n == 5) (λ _. returns tt)
          λ _. Ensures-if (n == 12345) (λ _. returns tt) (λ _. fails)

pub network_info-Ensures :
    (lookup : AliasLookup) (n : ℕ) (id : Bytes)
    → Ensures
        (λ i. network_info_try_from lookup n id ≡ ok i)
        (map_err error (network_info_try_from lookup n id))
unfolding network_info_try_from chain_id_try_from
network_info-Ensures lookup n id = not_panic _ (
    Ensures-panic {P = λ _. Unit {0}} (
      Ensures-bind (network_id-Ensures n) λ _ _.
        Ensures-bind (any_result (chain_of_alias (lookup id)) (chain_of_alias-panic (lookup id)))
          λ _ _. returns tt))
