-- ===== src/Parser/Tx/Transaction/Format.antt =====
-- The format of a transaction of app/src/parser/transactions.rs behind its codec.
use ledger_avalanche.Prelude.{ℕ, ◌≡◌, ◌≢◌, refl, sym, ap, ◌∙◌, Bytes, IsBytes, ◌++◌, append_assoc}
use ledger_avalanche.Errors.{
  Result, ok, err, panic, Err, error, ParserError, ◌>>=◌, map_err, returns, fails, Ensures,
  Ensures-bind, Ensures-weaken, Ensures-map_err, Ensures-panic,
}
use ledger_avalanche.Platform.{Platform, IsWide}
use ledger_avalanche.Codec.{Exact, Exact-then, Exact-map, reads, be_uint-Exact, take_array-Exact}
use ledger_avalanche.Parser.Coreth.Format.{parse_evm_export-Exact, parse_evm_import-Exact}
use ledger_avalanche.Parser.Network.{
  AliasLookup, encode_header, NetworkInfo, network_info_try_from, blockchain_id_len,
  network_info-Ensures,
}
use ledger_avalanche.Parser.Tx.Assets.Format.{parse_operation_tx-Exact, parse_create_asset-Exact}
use ledger_avalanche.Parser.Tx.Moves.{
  parse_avm_import-Exact, parse_avm_export-Exact, parse_pvm_import-Exact, parse_pvm_export-Exact,
}
use ledger_avalanche.Parser.Tx.Stake.Format.{parse_add_validator-Exact, parse_add_delegator-Exact}
use ledger_avalanche.Parser.Tx.Blockchain.{parse_create_chain-Exact}
use ledger_avalanche.Parser.Tx.Subnets.{parse_create_subnet-Exact, parse_add_subnet_validator-Exact}
use ledger_avalanche.Parser.Tx.Transaction.{
  TransactionType, Transaction, peek_transaction_info, parse_of_type, parse_transaction,
}
use ledger_avalanche.Parser.Tx.Transaction.Openings.{
  header_of, type_of, encode_transaction, IsOfType, header_of-IsHeader, type_of-IsOfType, opening,
}
use ledger_avalanche.Parser.Tx.Transaction.Types.{
  type_id, FitsChain, small_id, transaction_type-type_id, transaction_type-Ensures,
}
use ledger_avalanche.Parser.Tx.Transfer.{parse_transfer-Exact}

outcome : {A : Type 0} (r : Result Err A) → r ≢ panic → Ensures (λ a. r ≡ ok a) r
outcome (ok a) h = returns refl
outcome (err e) h = fails
outcome panic h = absurd (h refl)

info_known :
    (m n : ℕ) (r : Result ParserError NetworkInfo) (info : NetworkInfo)
    → ◌>>=◌ {B = ℕ × NetworkInfo} (map_err error r) (λ i. ok (m, i)) ≡ ok (n, info)
    → r ≡ ok info
info_known m n (ok i) info e = cc
info_known m n (err _) info e = cc
info_known m n panic info e = cc

module _ (p : Platform) (wide : IsWide p) (lookup : AliasLookup) where
  parse_of_type-Exact :
      (t : TransactionType)
      → Exact
          (parse_of_type p lookup t)
          (encode_transaction p wide lookup)
          (IsOfType p wide lookup t)
  unfolding parse_of_type encode_transaction
  parse_of_type-Exact TransactionType.x_import =
      Exact-map (parse_avm_import-Exact p wide lookup) Transaction.x_import
        (encode_transaction p wide lookup) (IsOfType p wide lookup TransactionType.x_import)
        (λ _. refl) (λ _ v. v)
        (elim [ Transaction.x_import tx ↦ λ v. (tx, refl, v) | _ ↦ λ v. absurd v ])
  parse_of_type-Exact TransactionType.x_export =
      Exact-map (parse_avm_export-Exact p wide lookup) Transaction.x_export
        (encode_transaction p wide lookup) (IsOfType p wide lookup TransactionType.x_export)
        (λ _. refl) (λ _ v. v)
        (elim [ Transaction.x_export tx ↦ λ v. (tx, refl, v) | _ ↦ λ v. absurd v ])
  parse_of_type-Exact TransactionType.x_operation =
      Exact-map (parse_operation_tx-Exact p wide lookup) Transaction.x_operation
        (encode_transaction p wide lookup) (IsOfType p wide lookup TransactionType.x_operation)
        (λ _. refl) (λ _ v. v)
        (elim [ Transaction.x_operation tx ↦ λ v. (tx, refl, v) | _ ↦ λ v. absurd v ])
  parse_of_type-Exact TransactionType.p_import =
      Exact-map (parse_pvm_import-Exact p wide lookup) Transaction.p_import
        (encode_transaction p wide lookup) (IsOfType p wide lookup TransactionType.p_import)
        (λ _. refl) (λ _ v. v)
        (elim [ Transaction.p_import tx ↦ λ v. (tx, refl, v) | _ ↦ λ v. absurd v ])
  parse_of_type-Exact TransactionType.p_export =
      Exact-map (parse_pvm_export-Exact p wide lookup) Transaction.p_export
        (encode_transaction p wide lookup) (IsOfType p wide lookup TransactionType.p_export)
        (λ _. refl) (λ _ v. v)
        (elim [ Transaction.p_export tx ↦ λ v. (tx, refl, v) | _ ↦ λ v. absurd v ])
  parse_of_type-Exact TransactionType.c_import =
      Exact-map (parse_evm_import-Exact p wide lookup) Transaction.c_import
        (encode_transaction p wide lookup) (IsOfType p wide lookup TransactionType.c_import)
        (λ _. refl) (λ _ v. v)
        (elim [ Transaction.c_import tx ↦ λ v. (tx, refl, v) | _ ↦ λ v. absurd v ])
  parse_of_type-Exact TransactionType.c_export =
      Exact-map (parse_evm_export-Exact p wide lookup) Transaction.c_export
        (encode_transaction p wide lookup) (IsOfType p wide lookup TransactionType.c_export)
        (λ _. refl) (λ _ v. v)
        (elim [ Transaction.c_export tx ↦ λ v. (tx, refl, v) | _ ↦ λ v. absurd v ])
  parse_of_type-Exact TransactionType.transfer =
      Exact-map (parse_transfer-Exact p wide) Transaction.transfer
        (encode_transaction p wide lookup) (IsOfType p wide lookup TransactionType.transfer)
        (λ _. refl) (λ _ v. v)
        (elim [ Transaction.transfer tx ↦ λ v. (tx, refl, v) | _ ↦ λ v. absurd v ])
  parse_of_type-Exact TransactionType.x_asset =
      Exact-map (parse_create_asset-Exact p wide lookup) Transaction.x_asset
        (encode_transaction p wide lookup) (IsOfType p wide lookup TransactionType.x_asset)
        (λ _. refl) (λ _ v. v)
        (elim [ Transaction.x_asset tx ↦ λ v. (tx, refl, v) | _ ↦ λ v. absurd v ])
  parse_of_type-Exact TransactionType.validator =
      Exact-map (parse_add_validator-Exact p wide) Transaction.validator
        (encode_transaction p wide lookup) (IsOfType p wide lookup TransactionType.validator)
        (λ _. refl) (λ _ v. v)
        (elim [ Transaction.validator tx ↦ λ v. (tx, refl, v) | _ ↦ λ v. absurd v ])
  parse_of_type-Exact TransactionType.delegator =
      Exact-map (parse_add_delegator-Exact p wide) Transaction.delegator
        (encode_transaction p wide lookup) (IsOfType p wide lookup TransactionType.delegator)
        (λ _. refl) (λ _ v. v)
        (elim [ Transaction.delegator tx ↦ λ v. (tx, refl, v) | _ ↦ λ v. absurd v ])
  parse_of_type-Exact TransactionType.create_chain =
      Exact-map (parse_create_chain-Exact p wide) Transaction.create_chain
        (encode_transaction p wide lookup) (IsOfType p wide lookup TransactionType.create_chain)
        (λ _. refl) (λ _ v. v)
        (elim [ Transaction.create_chain tx ↦ λ v. (tx, refl, v) | _ ↦ λ v. absurd v ])
  parse_of_type-Exact TransactionType.create_subnet =
      Exact-map (parse_create_subnet-Exact p wide) Transaction.create_subnet
        (encode_transaction p wide lookup) (IsOfType p wide lookup TransactionType.create_subnet)
        (λ _. refl) (λ _ v. v)
        (elim [ Transaction.create_subnet tx ↦ λ v. (tx, refl, v) | _ ↦ λ v. absurd v ])
  parse_of_type-Exact TransactionType.subnet_validator =
      Exact-map (parse_add_subnet_validator-Exact p wide) Transaction.subnet_validator
        (encode_transaction p wide lookup) (IsOfType p wide lookup TransactionType.subnet_validator)
        (λ _. refl) (λ _ v. v)
        (elim [ Transaction.subnet_validator tx ↦ λ v. (tx, refl, v) | _ ↦ λ v. absurd v ])

  -- The transaction is of a type, its network and its chain are known, and the type fits the chain.
  pub record IsTransaction (tx : Transaction) : Type 0 where
    pub type : TransactionType
    pub valid : IsOfType p wide lookup type tx
    pub info : NetworkInfo
    pub network :
        network_info_try_from lookup (header_of tx).network_id (header_of tx).blockchain_id
        ≡ ok info
    pub fits : FitsChain type info.chain_id

  -- What is read ahead of a transaction's encoding.
  peeked :
      (t : TransactionType) (tx : Transaction) (rest : Bytes)
      → IsOfType p wide lookup t tx
      → peek_transaction_info p lookup (encode_transaction p wide lookup tx ++ rest) ≡ (
          map_err error
            (network_info_try_from lookup (header_of tx).network_id (header_of tx).blockchain_id)
          >>= λ info. ok (type_id t, info))
  unfolding peek_transaction_info encode_header
  peeked t tx rest v =
      let (more, e) = opening p wide lookup tx in
      let h = header_of-IsHeader p wide lookup t tx v in
      rw (e, type_of-IsOfType p wide lookup t tx v)
        (simp (
          append_assoc,
          reads (be_uint-Exact p 4) (type_id (type_of tx)) (small_id (type_of tx)),
          reads (be_uint-Exact p 4) (header_of tx).network_id h.network_id,
          reads (take_array-Exact p blockchain_id_len) (header_of tx).blockchain_id h.blockchain_id,
        ))

  peek-Ensures :
      (input : Bytes)
      → IsBytes input
      → Ensures
          (λ r. peek_transaction_info p lookup input ≡ ok r)
          (peek_transaction_info p lookup input)
  unfolding peek_transaction_info
  peek-Ensures input h = outcome _ (
      Ensures-panic {P = λ _. Unit {0}} (
        Exact-then (be_uint-Exact p 4) input h _ λ _ r₁ _ h₁ _.
          Exact-then (be_uint-Exact p 4) r₁ h₁ _ λ network_id r₂ _ h₂ _.
            Exact-then (take_array-Exact p blockchain_id_len) r₂ h₂ _ λ blockchain_id _ _ _ _.
              Ensures-bind (network_info-Ensures lookup network_id blockchain_id)
                λ _ _. returns tt))

  pub parse_transaction-Exact :
      Exact (parse_transaction p lookup) (encode_transaction p wide lookup) IsTransaction
  unfolding parse_transaction
  parse_transaction-Exact = record {
    complete = λ tx rest v. rw (
      peeked v.type tx rest v.valid,
      v.network,
      transaction_type-type_id v.type v.info.chain_id v.fits,
      (parse_of_type-Exact v.type).complete tx rest v.valid,
    );
    sound = λ input h. Ensures-bind (peek-Ensures input h) λ (n, info) ep.
        Ensures-bind (Ensures-map_err error (transaction_type-Ensures n info.chain_id))
          λ t (et, fits).
            Ensures-weaken ((parse_of_type-Exact t).sound input h) λ (rest, tx) (v, e). (
              record {
                type = t;
                valid = v;
                info = info;
                network =
                    info_known (type_id t) n _ info
                      (sym (peeked t tx rest v) ∙ ap (peek_transaction_info p lookup) (sym e) ∙ ep);
                fits = fits;
              },
              e,
            );
  }
