-- ===== src/Parser/Tx/Transaction/Message.antt =====
-- `Transaction::new_into` of app/src/parser/transactions.rs: the codec and the transaction.
use ledger_avalanche.Prelude.{
  ℕ, ◌≡◌, subst, false, not, ◌==◌, Bytes, IsByte, IsBytes, All-append_split, ◌++◌, to_be_bytes,
  arith,
}
use ledger_avalanche.Errors.{
  ok, from_nom_err, returns, Ensures, Ensures-bind, Ensures-bail, Ensures-map_err,
}
use ledger_avalanche.Platform.{Platform, IsWide}
use ledger_avalanche.Codec.{reads, be_uint-Exact}
use ledger_avalanche.Parser.Network.{AliasLookup}
use ledger_avalanche.Parser.Tx.Transaction.{Transaction, new_transaction}
use ledger_avalanche.Parser.Tx.Transaction.Format.{IsTransaction, parse_transaction-Exact}
use ledger_avalanche.Parser.Tx.Transaction.Openings.{encode_transaction}

codec_of_test : (n : ℕ) → not (n == 0) ≡ false → n ≡ 0
codec_of_test n h = ground arith

module _ (p : Platform) (wide : IsWide p) (lookup : AliasLookup) where
  -- On a platform where an u32 times a small length does not wrap around, `Transaction::new_into`
  -- reads a valid transaction of any type back from the codec 0 and its encoding, whatever bytes follow
  -- it, if its network and its chain are known and its type fits the chain.
  pub new_transaction-encode_transaction :
      (tx : Transaction) (rest : Bytes)
      → IsTransaction p wide lookup tx
      → new_transaction p lookup (to_be_bytes 2 0 ++ (encode_transaction p wide lookup tx ++ rest))
        ≡ ok tx
  unfolding new_transaction
  new_transaction-encode_transaction tx rest v = rw (
    reads (be_uint-Exact p 2) 0 (omega arith) (encode_transaction p wide lookup tx ++ rest),
    reads (parse_transaction-Exact p wide lookup) tx v rest,
  )

  -- Where `usize` has 2 ^ 37 values or more, which 32 bits do not give and 64 bits do, and for any
  -- bytes, `Transaction::new_into` does not panic, and what it returns is a valid transaction of
  -- some type, whose network and chain are known and whose type fits the chain, and the bytes are
  -- the codec 0, the encoding of it, and a rest.
  pub new_transaction_sound :
      (input : Bytes)
      → IsBytes input
      → Ensures
          (λ tx.
            IsTransaction p wide lookup tx
            × ((rest : Bytes) × (input
                  ≡ to_be_bytes 2 0 ++ (encode_transaction p wide lookup tx ++ rest))))
          (new_transaction p lookup input)
  unfolding new_transaction
  new_transaction_sound input h =
      Ensures-bind (Ensures-map_err from_nom_err ((be_uint-Exact p 2).sound input h))
        λ (rem, codec) (_, e₁). Ensures-bail (not (codec == 0)) _ _ λ zero_codec.
          let hr = (All-append_split IsByte (to_be_bytes 2 codec) rem (subst IsBytes e₁ h)).1 in
          Ensures-bind
            (Ensures-map_err from_nom_err ((parse_transaction-Exact p wide lookup).sound rem hr))
            λ (rest, tx) (v, e₂). returns (v, (rest, simp (e₁, codec_of_test codec zero_codec, e₂)))
