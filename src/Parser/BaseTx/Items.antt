-- ===== src/Parser/BaseTx/Items.antt =====
-- The items that the display shows for the outputs: `base_outputs_num_items` counts them, and
-- `base_output_with_item` finds each, against the plain list of them.
use ledger_avalanche.Prelude.{
  subst, ℕ, ◌+◌, ◌-◌, ◌%◌, ◌≤◌, ◌<◌, ◌≡◌, refl, sym, ap, ◌∙◌, Bool, true, false, Option, some, none,
  List, [], ◌∷◌, ◌++◌, length, length-append, get_elem?, if◌then◌else◌, arith, Bool-cases, inl, inr,
}
use ledger_avalanche.Errors.{Result, ok, err, ParserError, ◌>>=◌, display_idx_out_of_range, ok_or}
use ledger_avalanche.Platform.{Platform, IsWide}
use ledger_avalanche.Parser.Bits.{bit_at}
use ledger_avalanche.Parser.Objects.Walk.{find, iterate_with-eq-foldl, get_obj_if-eq-find}
use ledger_avalanche.Parser.Outputs.Transferable.{
  OutputKind, OutputLaws, TransferableOutput, parse_transferable_output-Exact,
}
use ledger_avalanche.Parser.BaseTx.{
  BaseTxFields, Cursor, count_step, base_outputs_num_items, item_loop, item_filter,
  base_output_with_item,
}
use ledger_avalanche.Parser.BaseTx.ItemLoop.{
  numbered, length-numbered, get_elem?-numbered, get_elem?-past, item_loop_hit, item_loop_miss,
  find_stop, find_skip,
}
use ledger_avalanche.Parser.BaseTx.Format.{IsOutputs, transferable_output_some_bytes}
use mathlib.Core.List.{foldl}
use native.Mathlib.Decide.{dec_lt}

module _ {O : Type 0} (kind : OutputKind O) (p : Platform) (mask : ℕ) where
  -- The outputs whose bit is set, each with the numbers of its items.
  abbrev pub display : ℕ → List (TransferableOutput O) → List (TransferableOutput O × ℕ)
  display idx [] = []
  display idx (o ∷ rest) =
      (if bit_at mask idx then numbered o 0 (kind.num_items o.output) else [])
      ++ display (idx + 1) rest

  display_shown :
      (idx : ℕ) (o : TransferableOutput O) (rest : List (TransferableOutput O))
      → bit_at mask idx ≡ true
      → display idx (o ∷ rest) ≡ numbered o 0 (kind.num_items o.output) ++ display (idx + 1) rest
  display_shown idx o rest e =
      ap (λ b. (if b then numbered o 0 (kind.num_items o.output) else []) ++ display (idx + 1) rest)
        e

  display_hidden :
      (idx : ℕ) (o : TransferableOutput O) (rest : List (TransferableOutput O))
      → bit_at mask idx ≡ false
      → display idx (o ∷ rest) ≡ display (idx + 1) rest
  display_hidden idx o rest e =
      ap (λ b. (if b then numbered o 0 (kind.num_items o.output) else []) ++ display (idx + 1) rest)
        e

  length-shown :
      (b : Bool) (items n r : ℕ) (o : TransferableOutput O)
      → (if b then items + n else items) + r
        ≡ items + (length (if b then numbered o 0 n else []) + r)
  length-shown true items n r o = omega (arith, length-numbered o 0 n)
  length-shown false items n r o = omega arith

  count_all :
      (items idx : ℕ) (objs : List (TransferableOutput O))
      → (foldl (count_step kind p mask) (items, idx) objs).0 ≡ items + length (display idx objs)
  unfolding count_step
  count_all items idx [] = omega arith
  count_all items idx (o ∷ rest) =
      count_all (if bit_at mask idx then items + kind.num_items o.output else items) (idx + 1) rest
      ∙ length-shown (bit_at mask idx) items (kind.num_items o.output)
          (length (display (idx + 1) rest)) o
      ∙ ap (λ n. items + n)
          (sym (
            length-append (if bit_at mask idx then numbered o 0 (kind.num_items o.output) else [])
              (display (idx + 1) rest)))

  filter_hidden :
      (item_n : ℕ) (c : Cursor) (o : TransferableOutput O)
      → bit_at mask c.idx ≡ false
      → item_filter kind p mask item_n c o ≡ (record c { idx = c.idx + 1 }, false)
  unfolding item_filter
  filter_hidden item_n c o e = rw e

  filter_shown :
      (item_n : ℕ) (c : Cursor) (o : TransferableOutput O)
      → bit_at mask c.idx ≡ true
      → item_filter kind p mask item_n c o
        ≡ item_loop item_n (kind.num_items o.output) 0 (record c { idx = c.idx + 1 })
  unfolding item_filter
  filter_shown item_n c o e = rw e

module _ {O : Type 0} (kind : OutputKind O) (p : Platform) (mask item_n : ℕ) where
  abbrev filter : Cursor → TransferableOutput O → Cursor × Bool
  filter = item_filter kind p mask item_n

  -- A round of `find` over an output that is shown, which ends at one of its items or passes them
  -- all.
  find_inside :
      (x : TransferableOutput O) (rest : List (TransferableOutput O)) (c : Cursor) (d : ℕ)
      → bit_at mask c.idx ≡ true
      → d < kind.num_items x.output
      → c.count + d ≡ item_n
      → find filter c (x ∷ rest)
        ≡ (some x, record { count = item_n; obj_item_n = d; idx = c.idx + 1 })
  find_inside x rest c d shown lt h =
      find_stop filter c (record { count = item_n; obj_item_n = 0 + d; idx = c.idx + 1 }) x rest
        (filter_shown kind p mask item_n c x shown
          ∙ item_loop_hit item_n (kind.num_items x.output) 0 d (record c { idx = c.idx + 1 }) lt h)
      ∙ ap (λ n. (some x, record { count = item_n; obj_item_n = n; idx = c.idx + 1 })) (omega arith)

  find_past :
      (x : TransferableOutput O) (rest : List (TransferableOutput O)) (c : Cursor)
      → bit_at mask c.idx ≡ true
      → c.count + kind.num_items x.output ≤ item_n
      → (m : ℕ) × (find filter c (x ∷ rest)
          ≡ find filter
              (record {
                count = c.count + kind.num_items x.output;
                obj_item_n = m;
                idx = c.idx + 1;
              })
              rest)
  find_past x rest c shown h =
      let (m, e) =
        item_loop_miss item_n (kind.num_items x.output) 0 (record c { idx = c.idx + 1 }) h in
      (
        m,
        find_skip filter c
            (record { count = c.count + kind.num_items x.output; obj_item_n = m; idx = c.idx + 1 })
            x rest (filter_shown kind p mask item_n c x shown ∙ e),
      )

  find_hidden :
      (x : TransferableOutput O) (rest : List (TransferableOutput O)) (c : Cursor)
      → bit_at mask c.idx ≡ false
      → find filter c (x ∷ rest) ≡ find filter (record c { idx = c.idx + 1 }) rest
  find_hidden x rest c hidden =
      find_skip filter c (record c { idx = c.idx + 1 }) x rest
        (filter_hidden kind p mask item_n c x hidden)

  -- What `find` answers, read off the display's item `d`.
  abbrev pub Answers :
      Option (TransferableOutput O × ℕ) → Option (TransferableOutput O) × Cursor → Type 0
  Answers none (found, c) = found ≡ none
  Answers (some (o, k)) (found, c) = (found ≡ some o) × (c.obj_item_n ≡ k)

  pub find_lem :
      (objs : List (TransferableOutput O)) (c : Cursor) (d : ℕ)
      → c.count + d ≡ item_n
      → Answers (get_elem? (display kind p mask c.idx objs) d) (find filter c objs)
  find_lem [] c d h = refl
  find_lem (x ∷ rest) c d h = elim (Bool-cases (bit_at mask c.idx)) [
    | inl shown ↦ elim (dec_lt d (kind.num_items x.output)) [
      | yes lt ↦
          subst (λ l. Answers (get_elem? l d) (find filter c (x ∷ rest)))
            (sym (display_shown kind p mask c.idx x rest shown))
            (subst (λ g. Answers g (find filter c (x ∷ rest)))
              (sym (
                get_elem?-numbered x 0 (kind.num_items x.output) d
                  (display kind p mask (c.idx + 1) rest) lt))
              (subst (Answers (some (x, 0 + d))) (sym (find_inside x rest c d shown lt h))
                (refl, omega arith)))
      | no ge ↦
          let (m, e) = find_past x rest c shown (omega arith) in
          subst (λ l. Answers (get_elem? l d) (find filter c (x ∷ rest)))
            (sym (display_shown kind p mask c.idx x rest shown))
            (subst (λ g. Answers g (find filter c (x ∷ rest)))
              (sym (
                get_elem?-past x (kind.num_items x.output) d (display kind p mask (c.idx + 1) rest)
                  (omega arith)))
              (subst
                (Answers
                  (get_elem? (display kind p mask (c.idx + 1) rest) (d - kind.num_items x.output)))
                (sym e)
                (find_lem rest
                  (record {
                    count = c.count + kind.num_items x.output;
                    obj_item_n = m;
                    idx = c.idx + 1;
                  })
                  (d - kind.num_items x.output) (omega arith))))
    ]
    | inr hidden ↦
        subst (λ l. Answers (get_elem? l d) (find filter c (x ∷ rest)))
          (sym (display_hidden kind p mask c.idx x rest hidden))
          (subst (Answers (get_elem? (display kind p mask (c.idx + 1) rest) d))
            (sym (find_hidden x rest c hidden)) (find_lem rest (record c { idx = c.idx + 1 }) d h))
  ]

-- The answer of `base_output_with_item`, read off the list of the items.
abbrev pub item_result :
    {O : Type 0} → Option (TransferableOutput O × ℕ) → Result ParserError (TransferableOutput O × ℕ)
item_result none = err display_idx_out_of_range
item_result (some (o, k)) = ok (o, k % 256)

module _ {O : Type 0} {kind : OutputKind O} (laws : OutputLaws O kind) (p : Platform)
    (wide : IsWide p) (tx : BaseTxFields) (outputs : IsOutputs laws tx.outputs) where
  abbrev shown_items : List (TransferableOutput O × ℕ)
  shown_items = display kind p tx.renderable_out 0 outputs.objs

  -- On a platform where an u32 times a small length does not wrap around, and for a list of valid
  -- outputs, `base_outputs_num_items` is the length of the list of the items: those of each output
  -- whose bit is set, in order.
  pub base_outputs_num_items-eq-length : base_outputs_num_items kind p tx ≡ ok (length shown_items)
  unfolding base_outputs_num_items
  base_outputs_num_items-eq-length =
      rw
        (iterate_with-eq-foldl (parse_transferable_output-Exact laws p wide)
          (transferable_output_some_bytes laws) tx.outputs outputs.objs outputs.valid outputs.bytes
          (count_step kind p tx.renderable_out) (0, 0))
        (ap ok (count_all kind p tx.renderable_out 0 0 outputs.objs ∙ omega arith))

  item_answer :
      (g : Option (TransferableOutput O × ℕ)) (r : Option (TransferableOutput O) × Cursor)
      → Answers kind p 0 0 g r
      → (ok_or r.0 display_idx_out_of_range >>= λ o. ok (o, r.1.obj_item_n % 256)) ≡ item_result g
  item_answer none (found, c) h = rw h
  item_answer (some (o, k)) (found, c) h = rw (h.0, h.1)

  -- On a platform where an u32 times a small length does not wrap around, and for a list of valid
  -- outputs, `base_output_with_item` gives the output and the number (as an `u8`) that stand at the
  -- item's place in the list of the items, and `DisplayIdxOutOfRange` past its end.
  pub base_output_with_item-eq-get :
      (item_n : ℕ)
      → base_output_with_item kind p item_n tx ≡ item_result (get_elem? shown_items item_n)
  unfolding base_output_with_item
  base_output_with_item-eq-get item_n =
      rw
        (get_obj_if-eq-find (parse_transferable_output-Exact laws p wide)
          (transferable_output_some_bytes laws) tx.outputs outputs.objs outputs.valid outputs.bytes
          (item_filter kind p tx.renderable_out item_n)
          (record { count = 0; obj_item_n = 0; idx = 0 }))
        (item_answer (get_elem? shown_items item_n)
          (find (item_filter kind p tx.renderable_out item_n)
            (record { count = 0; obj_item_n = 0; idx = 0 }) outputs.objs)
          (find_lem kind p tx.renderable_out item_n outputs.objs
            (record { count = 0; obj_item_n = 0; idx = 0 }) item_n (omega arith)))
