-- ===== src/Parser/BaseTx/LateLoop.antt =====
-- The search for an item's output in app/src/parser/transactions/base_export.rs and in
-- app/src/parser/transactions/pvm/add_validator.rs, whose loop counts before it compares, beside that of
-- base_tx_fields.rs.
use ledger_avalanche.Prelude.{
  ℕ, zero, suc, ◌+◌, ◌≡◌, refl, ap, ◌∙◌, Bool, true, false, not, Option, some, none, List, [], ◌∷◌,
  get_elem?, ◌==◌, ◌%◌, if◌then◌else◌, arith, Bool-cases, inl, inr,
}
use ledger_avalanche.Errors.{Result, ok, err, ◌>>=◌, map_err, ok_or}
use ledger_avalanche.Platform.{Platform, IsWide}
use ledger_avalanche.Parser.Bits.{bit_at}
use ledger_avalanche.Parser.Objects.{ObjectList, get_obj_if}
use ledger_avalanche.Parser.Objects.Walk.{find, get_obj_if-eq-find}
use ledger_avalanche.Parser.Outputs.Transferable.{
  OutputKind, OutputLaws, TransferableOutput, parse_transferable_output,
  parse_transferable_output-Exact,
}
use ledger_avalanche.Parser.BaseTx.{Cursor, item_loop, item_filter}
use ledger_avalanche.Parser.BaseTx.Format.{IsOutputs, transferable_output_some_bytes}
use ledger_avalanche.Parser.BaseTx.Items.{display, Answers, find_lem}
use ledger_avalanche.Parser.BaseTx.ItemLoop.{find_stop, find_skip}

-- `for index in 0..n { count += 1; obj_item_n = index; if count == item_n + 1 { return true } }`
unfoldable pub late_loop : ℕ → ℕ → ℕ → Cursor → Cursor × Bool
late_loop item_n zero index c = (c, false)
late_loop item_n (suc rounds) index c = elim (c.count + 1 == (item_n + 1)) [
  | true ↦ (record c { count = c.count + 1; obj_item_n = index }, true)
  | false ↦
      late_loop item_n rounds (index + 1) (record c { count = c.count + 1; obj_item_n = index })
]

module _ {O : Type 0} (kind : OutputKind O) (p : Platform) where
  unfoldable pub late_filter : ℕ → ℕ → Cursor → TransferableOutput O → Cursor × Bool
  late_filter mask item_n c o =
      let c' = record c { idx = c.idx + 1 } in
      if not (bit_at mask c.idx)
      then (c', false)
      else late_loop item_n (kind.num_items o.output) 0 c'

  -- The output that holds an item, if there is one, and the item's number in it, as a `u8`.
  unfoldable pub output_with_item :
      {E : Type 0} → E → ℕ → ObjectList → ℕ → Result E (TransferableOutput O × ℕ)
  output_with_item e mask outputs item_n = do
    (found, c) ←
        map_err (λ _. e)
          (get_obj_if (parse_transferable_output kind p) (late_filter mask item_n)
            (record { count = 0; obj_item_n = 0; idx = 0 }) outputs)
    o ← ok_or found e
    ok (o, c.obj_item_n % 256)

-- The count is one more where the loop ends early.
abbrev counted : Cursor × Bool → Cursor × Bool
counted (c, true) = (record c { count = c.count + 1 }, true)
counted (c, false) = (c, false)

same_test : (a b : ℕ) → (a + 1 == (b + 1)) ≡ (a == b)
same_test a b = ground arith

late_loop-item_loop :
    (item_n rounds index : ℕ) (c : Cursor)
    → late_loop item_n rounds index c ≡ counted (item_loop item_n rounds index c)
unfolding late_loop item_loop
late_loop-item_loop item_n zero index c = refl
late_loop-item_loop item_n (suc rounds) index c = elim (Bool-cases (c.count == item_n)) [
  | inl e ↦ rw (late_loop, item_loop, same_test c.count item_n, e) refl
  | inr e ↦
      rw (late_loop, item_loop, same_test c.count item_n, e)
        (late_loop-item_loop item_n rounds (index + 1)
          (record c { count = c.count + 1; obj_item_n = index }))
]

module _ {O : Type 0} (kind : OutputKind O) (p : Platform) (mask item_n : ℕ) where
  late_filter-item_filter :
      (c : Cursor) (o : TransferableOutput O)
      → late_filter kind p mask item_n c o ≡ counted (item_filter kind p mask item_n c o)
  unfolding late_filter item_filter
  late_filter-item_filter c o = elim (Bool-cases (bit_at mask c.idx)) [
    | inl e ↦
        rw e (late_loop-item_loop item_n (kind.num_items o.output) 0 (record c { idx = c.idx + 1 }))
    | inr e ↦ rw e refl
  ]

  -- Both find the same output and the same number.
  abbrev Agree : (r s : Option (TransferableOutput O) × Cursor) → Type 0
  Agree r s = (r.0 ≡ s.0) × (r.1.obj_item_n ≡ s.1.obj_item_n)

  find_step :
      (c : Cursor) (o : TransferableOutput O) (rest : List (TransferableOutput O))
      (r : Cursor × Bool)
      → item_filter kind p mask item_n c o ≡ r
      → Agree
          (find (late_filter kind p mask item_n) r.0 rest)
          (find (item_filter kind p mask item_n) r.0 rest)
      → Agree
          (find (late_filter kind p mask item_n) c (o ∷ rest))
          (find (item_filter kind p mask item_n) c (o ∷ rest))
  find_step c o rest (s, true) e h =
      rw
        (
          find_stop (late_filter kind p mask item_n) c (record s { count = s.count + 1 }) o rest
              (late_filter-item_filter c o ∙ ap counted e),
          find_stop (item_filter kind p mask item_n) c s o rest e,
        )
        (refl, refl)
  find_step c o rest (s, false) e h =
      rw
        (
          find_skip (late_filter kind p mask item_n) c s o rest
              (late_filter-item_filter c o ∙ ap counted e),
          find_skip (item_filter kind p mask item_n) c s o rest e,
        )
        h

  agree :
      (objs : List (TransferableOutput O)) (c : Cursor)
      → Agree
          (find (late_filter kind p mask item_n) c objs)
          (find (item_filter kind p mask item_n) c objs)
  agree [] c = (refl, refl)
  agree (o ∷ rest) c =
      find_step c o rest (item_filter kind p mask item_n c o) refl
        (agree rest (item_filter kind p mask item_n c o).0)

-- The answer, read off the list of the items.
abbrev pub late_result :
    {E O : Type 0} → E → Option (TransferableOutput O × ℕ) → Result E (TransferableOutput O × ℕ)
late_result e none = err e
late_result e (some (o, k)) = ok (o, k % 256)

module _ {O : Type 0} {kind : OutputKind O} (laws : OutputLaws O kind) (p : Platform)
    (wide : IsWide p) {E : Type 0} (e : E) (mask item_n : ℕ) where
  late_answer :
      (g : Option (TransferableOutput O × ℕ)) (r s : Option (TransferableOutput O) × Cursor)
      → Answers kind p mask item_n g s
      → Agree kind p mask item_n r s
      → (ok_or r.0 e >>= λ o. ok (o, r.1.obj_item_n % 256)) ≡ late_result e g
  late_answer none r s h (same, _) = rw (same, h)
  late_answer (some (o, k)) r s h (same, number) = rw (same, h.0, number, h.1)

  -- On a platform where an u32 times a small length does not wrap around, and for a list of valid
  -- outputs, the search finds the output and the number that stand at the item's place in the list of
  -- the items, and errs past its end.
  pub output_with_item-eq-get :
      (list : ObjectList) (outputs : IsOutputs laws list)
      → output_with_item kind p e mask list item_n
        ≡ late_result e (get_elem? (display kind p mask 0 outputs.objs) item_n)
  unfolding output_with_item
  output_with_item-eq-get list outputs =
      let start : Cursor = record { count = 0; obj_item_n = 0; idx = 0 } in
      rw
        (get_obj_if-eq-find (parse_transferable_output-Exact laws p wide)
          (transferable_output_some_bytes laws) list outputs.objs outputs.valid outputs.bytes
          (late_filter kind p mask item_n) start)
        (late_answer (get_elem? (display kind p mask 0 outputs.objs) item_n)
          (find (late_filter kind p mask item_n) start outputs.objs)
          (find (item_filter kind p mask item_n) start outputs.objs)
          (find_lem kind p mask item_n outputs.objs start item_n (omega arith))
          (agree kind p mask item_n outputs.objs start))
