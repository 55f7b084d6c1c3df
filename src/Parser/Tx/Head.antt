-- ===== src/Parser/Tx/Head.antt =====
-- What every P-chain and X-chain transaction starts with: its type id, tx_header.rs and
-- base_tx_fields.rs in app/src/parser/transactions; and checks on the outputs.
use ledger_avalanche.Prelude.{
  ℕ, ◌≡◌, refl, Bool, true, false, ◌||◌, List, [], ◌∷◌, ◌++◌, append_assoc, Bytes, All, to_be_bytes,
  Bool-cases, inl, inr,
}
use ledger_avalanche.Errors.{ok, ◌>>=◌, returns, Ensures-weaken}
use ledger_avalanche.Platform.{Platform, Parser, IsWide}
use ledger_avalanche.Codec.{Exact, Exact-then, reads, tag-Exact}
use ledger_avalanche.Parser.BaseTx.{BaseTxFields, parse_base_tx}
use ledger_avalanche.Parser.BaseTx.Format.{
  IsBaseTx, encode_base_tx, parse_base_tx-Exact, IsOutputs, transferable_output_some_bytes,
}
use ledger_avalanche.Parser.Network.{
  Header, parse_header, encode_header, IsHeader, parse_header-Exact,
}
use ledger_avalanche.Parser.Objects.{ObjectList, iter}
use ledger_avalanche.Parser.Objects.Walk.{iter-eq-objects}
use ledger_avalanche.Parser.Outputs.Transferable.{
  OutputKind, OutputLaws, parse_transferable_output, parse_transferable_output-Exact,
}

pub record Head : Type 0 where
  pub tx_header : Header
  pub base_tx : BaseTxFields

-- `outputs.iter().any(..)`
unfoldable pub any : {A : Type 0} → (A → Bool) → List A → Bool
any test [] = false
any test (a ∷ rest) = test a || any test rest

pub none_of_test :
    {A : Type 0} (test : A → Bool) (xs : List A)
    → any test xs ≡ false
    → All (λ a. test a ≡ false) xs
unfolding any
none_of_test test [] h = tt
none_of_test test (a ∷ rest) h = elim (Bool-cases (test a)) [
  | inl e ↦ absurd (wrong (rw e at h))
  | inr e ↦ (e, none_of_test test rest (rw e at h))
]
  where
    wrong : true ≡ false → ⊥
    wrong e = cc

pub test_of_none :
    {A : Type 0} (test : A → Bool) (xs : List A)
    → All (λ a. test a ≡ false) xs
    → any test xs ≡ false
unfolding any
test_of_none test [] h = refl
test_of_none test (a ∷ rest) h = rw h.0 (test_of_none test rest h.1)

-- `tag(TYPE_ID.to_be_bytes())`, and what the transaction holds behind it.
unfoldable pub parse_tagged : {A : Type 0} → Platform → ℕ → Parser A → Parser A
parse_tagged p type_id parse input = do (rem, _) ← p.tag (to_be_bytes 4 type_id) input; parse rem

pub parse_tagged-Exact :
    {A : Type 0} {parse : Parser A} {encode : A → Bytes} {Valid : A → Type 0} (p : Platform)
    (type_id : ℕ)
    → Exact parse encode Valid
    → Exact (parse_tagged p type_id parse) (λ a. to_be_bytes 4 type_id ++ encode a) Valid
unfolding parse_tagged
parse_tagged-Exact p type_id exact = record {
  complete = λ a rest v.
      simp (append_assoc, reads (tag-Exact p (to_be_bytes 4 type_id)) _ refl, reads exact a v);
  sound = λ input h. Exact-then (tag-Exact p (to_be_bytes 4 type_id)) input h _ λ t r₁ et h₁ e₁.
      Ensures-weaken (exact.sound r₁ h₁) λ r (v, e). (v, simp (e₁, et, e, append_assoc));
}

module _ {O : Type 0} (kind : OutputKind O) (p : Platform) (type_id : ℕ) where
  -- The first steps of `from_bytes_into` of a transaction.
  unfoldable pub parse_head : Parser Head
  parse_head input = do
    (rem, _) ← p.tag (to_be_bytes 4 type_id) input
    (rem, tx_header) ← parse_header p rem
    (rem, base_tx) ← parse_base_tx kind p rem
    ok (rem, record { tx_header = tx_header; base_tx = base_tx })

module _ {O : Type 0} {kind : OutputKind O} (laws : OutputLaws O kind) (p : Platform)
    (wide : IsWide p) where
  pub record IsHead (head : Head) : Type 0 where
    pub tx_header : IsHeader head.tx_header
    pub base_tx : IsBaseTx laws head.base_tx

  unfoldable pub encode_head : ℕ → Head → Bytes
  encode_head type_id head =
      to_be_bytes 4 type_id
      ++ (encode_header head.tx_header ++ encode_base_tx laws p wide head.base_tx)

  pub parse_head-Exact :
      (type_id : ℕ) → Exact (parse_head kind p type_id) (encode_head type_id) IsHead
  unfolding parse_head encode_head
  parse_head-Exact type_id = record {
    complete = λ head rest v. simp (
      append_assoc,
      reads (tag-Exact p (to_be_bytes 4 type_id)) _ refl,
      reads (parse_header-Exact p) head.tx_header v.tx_header,
      reads (parse_base_tx-Exact laws p wide) head.base_tx v.base_tx,
    );
    sound = λ input h. Exact-then (tag-Exact p (to_be_bytes 4 type_id)) input h _ λ t r₁ et h₁ e₁.
        Exact-then (parse_header-Exact p) r₁ h₁ _ λ tx_header r₂ vh h₂ e₂.
          Exact-then (parse_base_tx-Exact laws p wide) r₂ h₂ _ λ base_tx r₃ vb _ e₃.
            returns (record { tx_header = vh; base_tx = vb }, simp (e₁, et, e₂, e₃, append_assoc));
  }

  -- The outputs that a walk over a valid list yields.
  pub walk_outputs :
      (list : ObjectList) (v : IsOutputs laws list)
      → iter (parse_transferable_output kind p) list ≡ ok v.objs
  walk_outputs list v =
      iter-eq-objects (parse_transferable_output-Exact laws p wide)
        (transferable_output_some_bytes laws) list v.objs v.valid v.bytes
