-- ===== src/Parser/Outputs/Variants.antt =====
-- The outputs of the X-chain and of the P-chain: app/src/parser/avm_output.rs and
-- app/src/parser/pvm_output.rs, which look at the type id ahead of the output.
use ledger_avalanche.Prelude.{
  ℕ, ◌+◌, ◌≡◌, ◌≢◌, refl, Option, some, none, Bytes, ◌++◌, ◌==◌, if◌then◌else◌, to_be_bytes, IsU32,
  append_assoc, arith, ◌<◌, length, length-append, length-to_be_bytes,
}
use ledger_avalanche.Prelude.Int.{ℤ, IsI64, i64_to_u64}
use ledger_avalanche.Errors.{
  Result, ok, err, error, Err, ◌>>=◌, invalid_type_id, returns, fails, Ensures, Ensures-if,
  Ensures-bind, Ensures-weaken,
}
use ledger_avalanche.Platform.{Platform, Parser, IsWide}
use ledger_avalanche.Codec.{
  Exact, Exact-then, reads, be_uint-Exact, be_i64-Exact, parse_locked, encode_locked, IsLocked,
  parse_locked_sound, parse_locked_complete,
}
use ledger_avalanche.Parser.Outputs.Secp.{
  secp_transfer_type_id, secp_mint_type_id, secp_owners_type_id, encode_secp_transfer,
  encode_secp_mint, encode_secp_owners,
}
use ledger_avalanche.Parser.Outputs.Nft.{
  nft_transfer_type_id, nft_mint_type_id, encode_nft_transfer, encode_nft_mint,
}
use ledger_avalanche.Parser.Outputs.Output.{
  Output, OutputType, parse_output, parse_output-Exact, encode_output, IsOutput, output_num_items,
}

-- `AvmOutput::parse_output_type`, the choice of the variant by the type id.
unfoldable pub avm_output_type : ℕ → Result Err OutputType
avm_output_type n =
    if n == secp_transfer_type_id
    then ok OutputType.secp_transfer
    else if n == secp_mint_type_id
    then ok OutputType.secp_mint
    else if n == nft_transfer_type_id
    then ok OutputType.nft_transfer
    else if n == nft_mint_type_id
    then ok OutputType.nft_mint
    else err (error invalid_type_id)

unfoldable pub parse_avm_output : Platform → Parser Output
parse_avm_output p input = do
  (_, variant_type) ← p.be_uint 4 input
  variant ← avm_output_type variant_type
  parse_output p variant input

-- `PvmOutput::parse_output_type`
unfoldable pub pvm_output_type : ℕ → Result Err OutputType
pvm_output_type n =
    if n == secp_transfer_type_id
    then ok OutputType.secp_transfer
    else if n == secp_owners_type_id
    then ok OutputType.secp_owners
    else err (error invalid_type_id)

pub record PvmOutput : Type 0 where
  pub locktime : Option ℤ
  pub output : Output

abbrev pub locked_output_tag : ℕ
locked_output_tag = 0x16

unfoldable pub parse_pvm_output : Platform → Parser PvmOutput
parse_pvm_output p input = do
  (rem, locktime) ← parse_locked p.be_i64 p locked_output_tag input
  (_, variant_type) ← p.be_uint 4 rem
  variant ← pvm_output_type variant_type
  (rem, output) ← parse_output p variant rem
  ok (rem, record { locktime = locktime; output = output })

-- `PvmOutput::num_items`: one more item where the output is locked.
unfoldable pub pvm_num_items : PvmOutput → ℕ
pvm_num_items o = elim o.locktime [
  | some _ ↦ output_num_items o.output + 1
  | none ↦ output_num_items o.output
]

abbrev pub type_id : OutputType → ℕ
type_id OutputType.secp_transfer = secp_transfer_type_id
type_id OutputType.secp_mint = secp_mint_type_id
type_id OutputType.nft_transfer = nft_transfer_type_id
type_id OutputType.nft_mint = nft_mint_type_id
type_id OutputType.secp_owners = secp_owners_type_id

-- The variants of each chain.
abbrev pub IsAvmType : OutputType → Type 0
IsAvmType OutputType.secp_owners = ⊥
IsAvmType _ = Unit

abbrev pub IsPvmType : OutputType → Type 0
IsPvmType OutputType.secp_transfer = Unit
IsPvmType OutputType.secp_owners = Unit
IsPvmType _ = ⊥

abbrev pub IsAvmOutput : Output → Type 0
IsAvmOutput o = (t : OutputType) × IsAvmType t × IsOutput t o

unfoldable pub encode_pvm_output : PvmOutput → Bytes
encode_pvm_output o =
    encode_locked (λ z. to_be_bytes 8 (i64_to_u64 z)) locked_output_tag o.locktime
    ++ encode_output o.output

pub record IsPvmOutput (o : PvmOutput) : Type 0 where
  pub locktime : IsLocked IsI64 o.locktime
  pub variant : OutputType
  pub variant_fits : IsPvmType variant
  pub output : IsOutput variant o.output

tag_some_bytes : (id : ℕ) (body : Bytes) → 0 < length (to_be_bytes 4 id ++ body)
tag_some_bytes id body = rw (length-append, length-to_be_bytes) (omega arith)

pub avm_output_some_bytes : (o : Output) → IsAvmOutput o → 0 < length (encode_output o)
unfolding encode_output encode_secp_transfer encode_secp_mint encode_nft_transfer encode_nft_mint
    encode_secp_owners
avm_output_some_bytes (Output.secp_transfer o) v = tag_some_bytes secp_transfer_type_id _
avm_output_some_bytes (Output.secp_mint o) v = tag_some_bytes secp_mint_type_id _
avm_output_some_bytes (Output.nft_transfer o) v = tag_some_bytes nft_transfer_type_id _
avm_output_some_bytes (Output.nft_mint o) v = tag_some_bytes nft_mint_type_id _
avm_output_some_bytes (Output.secp_owners o) v = tag_some_bytes secp_owners_type_id _

module _ (p : Platform) where
  pub peek_tag :
      (id : ℕ) (body rest : Bytes)
      → IsU32 id
      → (r : Bytes) × (p.be_uint 4 ((to_be_bytes 4 id ++ body) ++ rest) ≡ ok (r, id))
  peek_tag id body rest h =
      (body ++ rest, rw append_assoc (reads (be_uint-Exact p 4) id h (body ++ rest)))

  pub peek :
      (t : OutputType) (o : Output) (rest : Bytes)
      → IsOutput t o
      → (r : Bytes) × (p.be_uint 4 (encode_output o ++ rest) ≡ ok (r, type_id t))
  unfolding encode_output encode_secp_transfer encode_secp_mint encode_nft_transfer encode_nft_mint
      encode_secp_owners
  peek OutputType.secp_transfer (Output.secp_transfer o) rest v =
      peek_tag secp_transfer_type_id _ rest (omega arith)
  peek OutputType.secp_mint (Output.secp_mint o) rest v =
      peek_tag secp_mint_type_id _ rest (omega arith)
  peek OutputType.nft_transfer (Output.nft_transfer o) rest v =
      peek_tag nft_transfer_type_id _ rest (omega arith)
  peek OutputType.nft_mint (Output.nft_mint o) rest v =
      peek_tag nft_mint_type_id _ rest (omega arith)
  peek OutputType.secp_owners (Output.secp_owners o) rest v =
      peek_tag secp_owners_type_id _ rest (omega arith)
  peek _ _ rest v = absurd v

  avm_output_type_id : (t : OutputType) → IsAvmType t → avm_output_type (type_id t) ≡ ok t
  unfolding avm_output_type
  avm_output_type_id OutputType.secp_owners h = absurd h
  avm_output_type_id _ h = refl

  pvm_output_type_id : (t : OutputType) → IsPvmType t → pvm_output_type (type_id t) ≡ ok t
  unfolding pvm_output_type
  pvm_output_type_id OutputType.secp_transfer h = refl
  pvm_output_type_id OutputType.secp_owners h = refl
  pvm_output_type_id _ h = absurd h

  pvm_type_ne_lock : (t : OutputType) → IsPvmType t → type_id t ≢ locked_output_tag
  pvm_type_ne_lock OutputType.secp_transfer h = omega arith
  pvm_type_ne_lock OutputType.secp_owners h = omega arith
  pvm_type_ne_lock _ h = absurd h

  pub avm_output_type-Ensures : (n : ℕ) → Ensures IsAvmType (avm_output_type n)
  unfolding avm_output_type
  avm_output_type-Ensures n =
      Ensures-if (n == secp_transfer_type_id) (λ _. returns tt)
        λ _.
          Ensures-if (n == secp_mint_type_id) (λ _. returns tt)
            λ _.
              Ensures-if (n == nft_transfer_type_id) (λ _. returns tt)
                λ _. Ensures-if (n == nft_mint_type_id) (λ _. returns tt) (λ _. fails)

  pub pvm_output_type-Ensures : (n : ℕ) → Ensures IsPvmType (pvm_output_type n)
  unfolding pvm_output_type
  pvm_output_type-Ensures n =
      Ensures-if (n == secp_transfer_type_id) (λ _. returns tt)
        λ _. Ensures-if (n == secp_owners_type_id) (λ _. returns tt) (λ _. fails)

  module _ (wide : IsWide p) where
    pub parse_avm_output-Exact : Exact (parse_avm_output p) encode_output IsAvmOutput
    unfolding parse_avm_output
    parse_avm_output-Exact = record {
      complete = λ o rest (t, at, v).
          rw ((peek t o rest v).1, avm_output_type_id t at)
            ((parse_output-Exact p wide t).complete o rest v);
      sound = λ input h. Exact-then (be_uint-Exact p 4) input h _ λ n _ _ _ _.
          Ensures-bind (avm_output_type-Ensures n) λ t at.
            Ensures-weaken ((parse_output-Exact p wide t).sound input h)
              λ (rest, o) (v, e). ((t, at, v), e);
    }

    parse_pvm_output_complete :
        (o : PvmOutput) (rest : Bytes)
        → IsPvmOutput o
        → parse_pvm_output p (encode_pvm_output o ++ rest) ≡ ok (rest, o)
    unfolding parse_pvm_output encode_pvm_output
    parse_pvm_output_complete o rest v =
        let body = encode_output o.output ++ rest in
        let (r, peeked) = peek v.variant o.output rest v.output in
        let unlocked =
          parse_locked_complete (be_i64-Exact p) p locked_output_tag o.locktime (type_id v.variant)
            body r v.locktime (omega arith) (pvm_type_ne_lock v.variant v.variant_fits) peeked in
        rw (
          append_assoc,
          unlocked,
          peeked,
          pvm_output_type_id v.variant v.variant_fits,
          (parse_output-Exact p wide v.variant).complete o.output rest v.output,
        )

    pub parse_pvm_output-Exact : Exact (parse_pvm_output p) encode_pvm_output IsPvmOutput
    unfolding parse_pvm_output encode_pvm_output
    parse_pvm_output-Exact = record {
      complete = parse_pvm_output_complete;
      sound = λ input h.
          Ensures-bind (parse_locked_sound (be_i64-Exact p) p locked_output_tag input h)
            λ (rem, locktime) (vl, hr, e₁). Exact-then (be_uint-Exact p 4) rem hr _ λ n _ _ _ _.
              Ensures-bind (pvm_output_type-Ensures n) λ t pt.
                Exact-then (parse_output-Exact p wide t) rem hr _ λ o rest vo _ e₂. returns (
                  record { locktime = vl; variant = t; variant_fits = pt; output = vo },
                  simp (e₁, e₂, append_assoc),
                );
    }
