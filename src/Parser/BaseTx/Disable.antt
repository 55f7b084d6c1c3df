-- ===== src/Parser/BaseTx/Disable.antt =====
-- The outputs that `disable_output_if` takes off the display, bit by bit.
use ledger_avalanche.Prelude.{
  ℕ, zero, suc, ◌+◌, ◌<◌, ◌≡◌, refl, sym, ap, ◌∙◌, Bool, true, false, not, some, List, [], ◌∷◌,
  append-nil, Bytes, length, ltb, leb, ◌&&◌, ◌==◌, if◌then◌else◌, All, arith, Bool-cases, inl, inr,
}
use ledger_avalanche.Errors.{Result, ok, Err}
use ledger_avalanche.Platform.{Platform, IsWide}
use ledger_avalanche.Codec.{IsArray, IsArrays, reads}
use ledger_avalanche.Parser.Ids.{address_len, parse_address, parse_address-Exact}
use ledger_avalanche.Parser.Bits.{bit_at, flip_bit, bit_at-flip_bit, bit_at_max}
use ledger_avalanche.Parser.Objects.Walk.{iterate_with-eq-foldl, iter-eq-objects}
use ledger_avalanche.Parser.Outputs.Transferable.{
  OutputKind, OutputLaws, TransferableOutput, IsTransferableOutput, parse_transferable_output-Exact,
  addresses,
}
use ledger_avalanche.Parser.BaseTx.{
  BaseTxFields, bytes_eq, get_address_at, contain_address, disable_step, disabled_mask,
  force_disable_output, disable_output_if, output_idx_max, output_idx_bits,
}
use ledger_avalanche.Parser.BaseTx.Format.{IsOutputs, transferable_output_some_bytes}
use mathlib.Core.List.{foldl}

-- The change address is the only owner.
abbrev pub is_sole_owner : Bytes → List Bytes → Bool
is_sole_owner change (a ∷ []) = bytes_eq a change
is_sole_owner change _ = false

abbrev pub toggled : Bool → Bool → Bool
toggled h b = if h then not b else b

several : (n : ℕ) → (suc (suc n) == 1) ≡ false
several n = ground arith

abbrev branch : Bool → Result Err Bool
branch b = elim b [ true ↦ ok true | false ↦ ok false ]

settle : (b : Bool) → branch b ≡ ok b
settle true = refl
settle false = refl

alone : (p : Platform) (a : Bytes) → IsArray address_len a → parse_address p a ≡ ok ([], a)
alone p a v = ap (parse_address p) (sym (append-nil a)) ∙ reads (parse_address-Exact p) a v []

sole_address :
    (p : Platform) (a : Bytes) → IsArray address_len a → get_address_at p (a ∷ []) 0 ≡ ok (some a)
unfolding get_address_at
sole_address p a v = rw (get_address_at, alone p a v)

hit_lem :
    (p : Platform) (change : Bytes) (addrs : List Bytes)
    → IsArrays address_len addrs
    → (if length addrs == 1 then contain_address p change addrs (length addrs) 0 else ok false)
      ≡ ok (is_sole_owner change addrs)
unfolding contain_address
hit_lem p change [] v = refl
hit_lem p change (a ∷ []) v =
    rw (sole_address p a (record { bytes = v.0.0; len = v.0.1 })) (settle (bytes_eq a change))
hit_lem p change (a ∷ b ∷ rest) v = rw (several (length rest))

other_bit : (idx j : ℕ) → j < idx → (idx == j) ≡ false
other_bit idx j h = ground arith

same_bit : (i : ℕ) → (i == i) ≡ true
same_bit i = ground arith

-- One step changes the bit at `idx` only.
step_below :
    (h : Bool) (render idx j : ℕ)
    → j < idx
    → bit_at (if h then flip_bit render idx else render) j ≡ bit_at render j
step_below true render idx j lt = bit_at-flip_bit render idx j ∙ rw (other_bit idx j lt)
step_below false render idx j lt = refl

step_above :
    (h : Bool) (render idx i : ℕ)
    → bit_at (if h then flip_bit render idx else render) (idx + 1 + i) ≡ bit_at render (idx + 1 + i)
step_above true render idx i = bit_at-flip_bit render idx (idx + 1 + i) ∙ rw (past idx i)
  where
    past : (idx i : ℕ) → (idx == (idx + 1 + i)) ≡ false
    past idx i = ground arith
step_above false render idx i = refl

step_here :
    (h : Bool) (render idx : ℕ)
    → bit_at (if h then flip_bit render idx else render) idx ≡ toggled h (bit_at render idx)
step_here true render idx = bit_at-flip_bit render idx idx ∙ rw (same_bit idx)
step_here false render idx = refl

module _ {O : Type 0} (kind : OutputKind O) (p : Platform) (change : Bytes) where
  abbrev hides : TransferableOutput O → Bool
  hides o = is_sole_owner change (addresses kind o)

  -- The bits after the walk over the outputs.
  abbrev flips : ℕ → List (TransferableOutput O) → ℕ → ℕ
  flips idx [] render = render
  flips idx (o ∷ rest) render =
      flips (idx + 1) rest (if hides o then flip_bit render idx else render)

  -- Whether the output at a place, if there is one, belongs to the change address alone.
  abbrev pub hides_at : List (TransferableOutput O) → ℕ → Bool
  hides_at [] i = false
  hides_at (o ∷ rest) zero = hides o
  hides_at (o ∷ rest) (suc i) = hides_at rest i

  flips_below :
      (idx : ℕ) (objs : List (TransferableOutput O)) (render j : ℕ)
      → j < idx
      → bit_at (flips idx objs render) j ≡ bit_at render j
  flips_below idx [] render j h = refl
  flips_below idx (o ∷ rest) render j h =
      flips_below (idx + 1) rest (if hides o then flip_bit render idx else render) j
        (omega (arith, h))
      ∙ step_below (hides o) render idx j h

  flips_bits :
      (idx : ℕ) (objs : List (TransferableOutput O)) (render i : ℕ)
      → bit_at (flips idx objs render) (idx + i)
        ≡ toggled (hides_at objs i) (bit_at render (idx + i))
  flips_bits idx [] render i = refl
  flips_bits idx (o ∷ rest) render zero =
      flips_below (idx + 1) rest (if hides o then flip_bit render idx else render) (idx + 0)
        (omega arith)
      ∙ ap (bit_at (if hides o then flip_bit render idx else render)) (omega arith)
      ∙ step_here (hides o) render idx
      ∙ ap (λ j. toggled (hides o) (bit_at render j)) (omega arith)
  flips_bits idx (o ∷ rest) render (suc i) =
      ap (bit_at (flips (idx + 1) rest (if hides o then flip_bit render idx else render)))
        (omega arith)
      ∙ flips_bits (idx + 1) rest (if hides o then flip_bit render idx else render) i
      ∙ ap (toggled (hides_at rest i)) (step_above (hides o) render idx i)
      ∙ ap (λ j. toggled (hides_at rest i) (bit_at render j)) (omega arith)

  disable_step_lem :
      (render idx : ℕ) (o : TransferableOutput O)
      → IsArrays address_len (addresses kind o)
      → disable_step kind p change (ok (render, idx)) o
        ≡ ok (if hides o then flip_bit render idx else render, idx + 1)
  unfolding disable_step
  disable_step_lem render idx o v = rw (hit_lem p change (addresses kind o) v)

  walk :
      (objs : List (TransferableOutput O)) (render idx : ℕ)
      → All (λ o. IsArrays address_len (addresses kind o)) objs
      → foldl (disable_step kind p change) (ok (render, idx)) objs
        ≡ ok (flips idx objs render, idx + length objs)
  walk [] render idx v = ap (λ n. ok (render, n)) (omega arith)
  walk (o ∷ rest) render idx v =
      ap (λ s. foldl (disable_step kind p change) s rest) (disable_step_lem render idx o v.0)
      ∙ walk rest (if hides o then flip_bit render idx else render) (idx + 1) v.1
      ∙ ap (λ n. ok (flips (idx + 1) rest (if hides o then flip_bit render idx else render), n))
          (omega arith)

module _ {O : Type 0} {kind : OutputKind O} (laws : OutputLaws O kind) (p : Platform)
    (wide : IsWide p) (change : Bytes) (tx : BaseTxFields)
    (outputs : IsOutputs laws tx.outputs) where
  whole_addresses :
      (objs : List (TransferableOutput O))
      → All (IsTransferableOutput laws) objs
      → All (λ o. IsArrays address_len (addresses kind o)) objs
  unfolding addresses
  whole_addresses [] v = tt
  whole_addresses (o ∷ rest) v = (laws.addresses o.output v.0.output, whole_addresses rest v.1)

  -- On a platform where an u32 times a small length does not wrap around, and for a list of valid
  -- outputs, `force_disable_output` returns, and it toggles a bit where the output at that place
  -- has the change address for its only address, and leaves it otherwise.
  pub force_disable_output-bits :
      (i : ℕ)
      → (tx' : BaseTxFields) × (force_disable_output kind p change tx ≡ ok tx')
        × (bit_at tx'.renderable_out i
            ≡ toggled (hides_at kind p change outputs.objs i) (bit_at tx.renderable_out i))
  unfolding force_disable_output disabled_mask
  force_disable_output-bits i = (
    record tx { renderable_out = flips kind p change 0 outputs.objs tx.renderable_out },
    rw (
      iterate_with-eq-foldl (parse_transferable_output-Exact laws p wide)
          (transferable_output_some_bytes laws) tx.outputs outputs.objs outputs.valid outputs.bytes
          (disable_step kind p change) (ok (tx.renderable_out, 0)),
      walk kind p change outputs.objs tx.renderable_out 0
          (whole_addresses outputs.objs outputs.valid),
    ),
    ap (bit_at (flips kind p change 0 outputs.objs tx.renderable_out)) (omega arith)
        ∙ flips_bits kind p change 0 outputs.objs tx.renderable_out i
        ∙ ap (λ j. toggled (hides_at kind p change outputs.objs i) (bit_at tx.renderable_out j))
            (omega arith),
  )

  many : (n : ℕ) → leb n 1 ≡ not (ltb 1 n)
  many n = ground arith

  fresh_toggle : (h b : Bool) → b ≡ true → toggled h b ≡ not h
  fresh_toggle true b e = ap not e
  fresh_toggle false b e = e

  -- On a platform where an u32 times a small length does not wrap around, for a list of valid
  -- outputs, and where all 64 bits are set as parsing sets them, `disable_output_if` returns, and a
  -- bit below 64 is then clear exactly where there are several outputs and the one at that place
  -- has the change address for its only address.
  pub disable_output_if-bits :
      (i : ℕ)
      → tx.renderable_out ≡ output_idx_max
      → i < output_idx_bits
      → (tx' : BaseTxFields) × (disable_output_if kind p change tx ≡ ok tx')
        × (bit_at tx'.renderable_out i
            ≡ not (ltb 1 (length outputs.objs) && hides_at kind p change outputs.objs i))
  unfolding disable_output_if
  disable_output_if-bits i all_shown h =
      let counted =
        iter-eq-objects (parse_transferable_output-Exact laws p wide)
          (transferable_output_some_bytes laws) tx.outputs outputs.objs outputs.valid
          outputs.bytes in
      let set : bit_at tx.renderable_out i ≡ true =
        ap (λ w. bit_at w i) all_shown ∙ bit_at_max 64 i h in
      let (tx', e, bits) = force_disable_output-bits i in
      elim (Bool-cases (ltb 1 (length outputs.objs))) [
        | inl several ↦ (
          tx',
          rw (counted, many (length outputs.objs), several) e,
          rw several (bits ∙ fresh_toggle (hides_at kind p change outputs.objs i) _ set),
        )
        | inr single ↦ (tx, rw (counted, many (length outputs.objs), single), rw single set)
      ]
