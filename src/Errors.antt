-- ===== src/Errors.antt =====
-- app/src/parser/error.rs, app/src/utils/apdu_unwrap.rs: the errors of the parser, the outcome of a
-- call, and postconditions on it.
use ledger_avalanche.Prelude.{
  ◌≡◌, refl, ◌≢◌, Option, none, some, subst, Bool, true, false, if◌then◌else◌,
}

pub data ParserError : Type 0 where
  no_data display_idx_out_of_range display_page_out_of_range unexpected_error invalid_hash_mode
        invalid_signature invalid_pubkey_encoding invalid_address_version invalid_address_length
        invalid_type_id invalid_codec invalid_threshold invalid_network_id invalid_chain_id
        invalid_ascii_value invalid_timestamp invalid_staking_amount unexpected_type
        invalid_transaction_type operation_overflows unexpected_buffer_end unexpected_number_items
        unexpected_field value_out_of_range invalid_address invalid_path too_many_outputs
        invalid_avax_message unexpected_data invalid_eth_message invalid_eth_selector
        invalid_asset_call nft_info_not_provided invalid_contract_address :
      ParserError

-- nom's error kinds that the source names; `other` stands for the rest of them.
pub data ErrorKind : Type 0 where
  eof permutation too_large tag other : ErrorKind

-- `From<ErrorKind> for ParserError`, which is `ParseError::from_error_kind` too.
unfoldable pub from_error_kind : ErrorKind → ParserError
from_error_kind eof = unexpected_buffer_end
from_error_kind permutation = unexpected_type
from_error_kind too_large = value_out_of_range
from_error_kind tag = invalid_type_id
from_error_kind other = unexpected_error

-- `nom::Err`.
pub data Err : Type 0 where
  error : ParserError → Err
  failure : ParserError → Err
  incomplete : Err

-- `From<nom::Err<ParserError>> for ParserError`.
unfoldable pub from_nom_err : Err → ParserError
from_nom_err (error e) = e
from_nom_err (failure e) = e
from_nom_err incomplete = unexpected_buffer_end

-- A Rust `Result`, or a panic in place of it.
pub data Result {ℓ} (E : Type 0) (A : Type ℓ) : Type ℓ where
  ok : A → Result E A
  err : E → Result E A
  panic : Result E A

infixl 5 ◌>>=◌ ◌>>◌
abbrev pub ◌>>=◌ {ℓ κ} :
    {E : Type 0} {A : Type ℓ} {B : Type κ} → Result E A → (A → Result E B) → Result E B
ok a >>= f = f a
err e >>= f = err e
panic >>= f = panic

abbrev pub ◌>>◌ {ℓ} : {E : Type 0} {B : Type ℓ} → Result E (Unit {0}) → Result E B → Result E B
m >> k = m >>= λ _. k

-- An early `return Err(e)` where the test holds.
abbrev pub bail_if : {E : Type 0} → Bool → E → Result E (Unit {0})
bail_if true e = err e
bail_if false e = ok tt

abbrev pub map_err {ℓ} : {E F : Type 0} {A : Type ℓ} → (E → F) → Result E A → Result F A
map_err f (ok a) = ok a
map_err f (err e) = err (f e)
map_err f panic = panic

abbrev pub ok_or {ℓ} : {E : Type 0} {A : Type ℓ} → Option A → E → Result E A
ok_or (some a) e = ok a
ok_or none e = err e

-- `ApduPanic::apdu_unwrap` of an `Option`, and of a `Result`.
abbrev pub apdu_unwrap {ℓ} : {E : Type 0} {A : Type ℓ} → Option A → Result E A
apdu_unwrap (some a) = ok a
apdu_unwrap none = panic

abbrev pub apdu_unwrap_result {ℓ} : {E F : Type 0} {A : Type ℓ} → Result E A → Result F A
apdu_unwrap_result (ok a) = ok a
apdu_unwrap_result (err e) = panic
apdu_unwrap_result panic = panic

-- The call does not panic, and `P` holds of what it returns.
pub data Ensures {ℓ κ} {E : Type 0} {A : Type ℓ} (P : A → Type κ) : Result E A → Type (ℓ ⊔ κ) where
  returns : {a : A} → P a → Ensures P (ok a)
  fails : {e : E} → Ensures P (err e)

module _ {ℓ κ} {E : Type 0} {A : Type ℓ} {P : A → Type κ} where
  pub Ensures-ok : {r : Result E A} {a : A} → Ensures P r → r ≡ ok a → P a
  Ensures-ok (returns h) e = subst P (cc) h
  Ensures-ok fails e = cc

  pub Ensures-panic : {r : Result E A} → Ensures P r → r ≢ panic
  Ensures-panic (returns h) = cc
  Ensures-panic fails = cc

  pub Ensures-bind {ℓ' κ'} :
      {B : Type ℓ'} {Q : B → Type κ'} {r : Result E A} {f : A → Result E B}
      → Ensures P r
      → ((a : A) → P a → Ensures Q (f a))
      → Ensures Q (r >>= f)
  Ensures-bind (returns {a} h) k = k a h
  Ensures-bind fails k = fails

  pub Ensures-weaken {κ'} :
      {Q : A → Type κ'} {r : Result E A} → Ensures P r → ((a : A) → P a → Q a) → Ensures Q r
  Ensures-weaken (returns {a} h) k = returns (k a h)
  Ensures-weaken fails k = fails

  pub Ensures-map_err :
      {F : Type 0} (f : E → F) {r : Result E A} → Ensures P r → Ensures P (map_err f r)
  Ensures-map_err f (returns h) = returns h
  Ensures-map_err f fails = fails

pub Ensures-bail {ℓ κ} :
    {E : Type 0} {B : Type ℓ} {Q : B → Type κ} (test : Bool) (e : E) (f : Unit {0} → Result E B)
    → (test ≡ false → Ensures Q (f tt))
    → Ensures Q (bail_if test e >>= f)
Ensures-bail true e f k = fails
Ensures-bail false e f k = k refl

pub Ensures-if {ℓ κ} :
    {E : Type 0} {A : Type ℓ} {P : A → Type κ} (b : Bool) {x y : Result E A}
    → (b ≡ true → Ensures P x)
    → (b ≡ false → Ensures P y)
    → Ensures P (if b then x else y)
Ensures-if true hx hy = hx refl
Ensures-if false hx hy = hy refl
