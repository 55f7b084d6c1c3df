-- ===== src/Parser/Tx/Transaction/Types.antt =====
-- The types of transactions, their ids, and the chains they fit: what `Transaction__Type::try_from` of
-- app/src/parser/transactions.rs decides.
use ledger_avalanche.Prelude.{ℕ, ◌≡◌, refl, Bool, true, false, ◌&&◌, ◌==◌, IsU32, arith}
use ledger_avalanche.Errors.{ok, returns, fails, Ensures, Ensures-if}
use ledger_avalanche.Parser.Coreth.{evm_export_tx, evm_import_tx}
use ledger_avalanche.Parser.Network.{ChainId, p_chain, x_chain, c_chain, chain_id_eq}
use ledger_avalanche.Parser.Tx.Assets.{avm_operation_tx, avm_create_asset_tx}
use ledger_avalanche.Parser.Tx.Moves.{avm_import_tx, avm_export_tx, pvm_import_tx, pvm_export_tx}
use ledger_avalanche.Parser.Tx.Stake.{pvm_add_validator, pvm_add_delegator}
use ledger_avalanche.Parser.Tx.Blockchain.{pvm_create_chain}
use ledger_avalanche.Parser.Tx.Subnets.{pvm_create_subnet, pvm_add_subnet_validator}
use ledger_avalanche.Parser.Tx.Transaction.{TransactionType, transaction_type}
use ledger_avalanche.Parser.Tx.Transfer.{transfer_tx}

abbrev pub type_id : TransactionType → ℕ
type_id TransactionType.x_import = avm_import_tx
type_id TransactionType.x_export = avm_export_tx
type_id TransactionType.x_operation = avm_operation_tx
type_id TransactionType.p_import = pvm_import_tx
type_id TransactionType.p_export = pvm_export_tx
type_id TransactionType.c_import = evm_import_tx
type_id TransactionType.c_export = evm_export_tx
type_id TransactionType.transfer = transfer_tx
type_id TransactionType.x_asset = avm_create_asset_tx
type_id TransactionType.validator = pvm_add_validator
type_id TransactionType.delegator = pvm_add_delegator
type_id TransactionType.create_chain = pvm_create_chain
type_id TransactionType.create_subnet = pvm_create_subnet
type_id TransactionType.subnet_validator = pvm_add_subnet_validator

-- The imports and exports of the C-chain are of that chain only, and a transfer, whose id is that of such
-- an import, is of another; a new asset is of the X-chain. The others are taken on any chain.
abbrev pub FitsChain : TransactionType → ChainId → Type 0
FitsChain TransactionType.c_import c = chain_id_eq c c_chain ≡ true
FitsChain TransactionType.c_export c = chain_id_eq c c_chain ≡ true
FitsChain TransactionType.transfer c = chain_id_eq c c_chain ≡ false
FitsChain TransactionType.x_asset c = chain_id_eq c x_chain ≡ true
FitsChain _ c = Unit

pub small_id : (t : TransactionType) → IsU32 (type_id t)
small_id TransactionType.x_import = omega arith
small_id TransactionType.x_export = omega arith
small_id TransactionType.x_operation = omega arith
small_id TransactionType.p_import = omega arith
small_id TransactionType.p_export = omega arith
small_id TransactionType.c_import = omega arith
small_id TransactionType.c_export = omega arith
small_id TransactionType.transfer = omega arith
small_id TransactionType.x_asset = omega arith
small_id TransactionType.validator = omega arith
small_id TransactionType.delegator = omega arith
small_id TransactionType.create_chain = omega arith
small_id TransactionType.create_subnet = omega arith
small_id TransactionType.subnet_validator = omega arith

not_c : (c : ChainId) → chain_id_eq c x_chain ≡ true → chain_id_eq c c_chain ≡ false
not_c p_chain h = cc
not_c x_chain h = refl
not_c c_chain h = cc

pub transaction_type-type_id :
    (t : TransactionType) (c : ChainId) → FitsChain t c → transaction_type (type_id t) c ≡ ok t
unfolding transaction_type
transaction_type-type_id TransactionType.x_import c h = refl
transaction_type-type_id TransactionType.x_export c h = refl
transaction_type-type_id TransactionType.x_operation c h = refl
transaction_type-type_id TransactionType.p_import c h = refl
transaction_type-type_id TransactionType.p_export c h = refl
transaction_type-type_id TransactionType.c_import c h = rw h
transaction_type-type_id TransactionType.c_export c h = rw h
transaction_type-type_id TransactionType.transfer c h = rw h
transaction_type-type_id TransactionType.x_asset c h = rw (not_c c h, h)
transaction_type-type_id TransactionType.validator c h = refl
transaction_type-type_id TransactionType.delegator c h = refl
transaction_type-type_id TransactionType.create_chain c h = refl
transaction_type-type_id TransactionType.create_subnet c h = refl
transaction_type-type_id TransactionType.subnet_validator c h = refl

same : (n m : ℕ) → (n == m) ≡ true → n ≡ m
same n m h = ground arith

both : (n m : ℕ) (b : Bool) → ((n == m) && b) ≡ true → (n ≡ m) × (b ≡ true)
both n m true h = (ground arith, refl)
both n m false h = ground arith

other_chain :
    (n m : ℕ) (b : Bool) → ((n == m) && b) ≡ false → (n == m) ≡ true → (n ≡ m) × (b ≡ false)
other_chain n m true h e = ground arith
other_chain n m false h e = (ground arith, refl)

pub transaction_type-Ensures :
    (n : ℕ) (c : ChainId) → Ensures (λ t. (n ≡ type_id t) × FitsChain t c) (transaction_type n c)
unfolding transaction_type
transaction_type-Ensures n c =
    Ensures-if (n == pvm_export_tx) (λ e. returns (same n pvm_export_tx e, tt))
      λ _.
        Ensures-if (n == pvm_import_tx) (λ e. returns (same n pvm_import_tx e, tt))
          λ _.
            Ensures-if (n == avm_export_tx) (λ e. returns (same n avm_export_tx e, tt))
              λ _.
                Ensures-if (n == avm_import_tx) (λ e. returns (same n avm_import_tx e, tt))
                  λ _.
                    Ensures-if (n == avm_operation_tx)
                      (λ e. returns (same n avm_operation_tx e, tt))
                      λ _.
                        Ensures-if ((n == evm_export_tx) && chain_id_eq c c_chain)
                          (λ e. returns (both n evm_export_tx (chain_id_eq c c_chain) e))
                          λ _.
                            Ensures-if ((n == evm_import_tx) && chain_id_eq c c_chain)
                              (λ e. returns (both n evm_import_tx (chain_id_eq c c_chain) e))
                              λ elsewhere.
                                Ensures-if (n == transfer_tx)
                                  (λ e.
                                    returns (
                                      other_chain n transfer_tx (chain_id_eq c c_chain) elsewhere
                                        e))
                                  λ _.
                                    Ensures-if ((n == avm_create_asset_tx) && chain_id_eq c x_chain)
                                      (λ e.
                                        returns
                                          (both n avm_create_asset_tx (chain_id_eq c x_chain) e))
                                      λ _.
                                        Ensures-if (n == pvm_create_chain)
                                          (λ e. returns (same n pvm_create_chain e, tt))
                                          λ _.
                                            Ensures-if (n == pvm_add_delegator)
                                              (λ e. returns (same n pvm_add_delegator e, tt))
                                              λ _.
                                                Ensures-if (n == pvm_create_subnet)
                                                  (λ e. returns (same n pvm_create_subnet e, tt))
                                                  λ _.
                                                    Ensures-if (n == pvm_add_validator)
                                                      (λ e.
                                                        returns (same n pvm_add_validator e, tt))
                                                      λ _.
                                                        Ensures-if (n == pvm_add_subnet_validator)
                                                          (λ e.
                                                            returns
                                                            (same n pvm_add_subnet_validator e, tt))
                                                          λ _. fails
