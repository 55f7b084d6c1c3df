-- ===== src/Parser/Decimal/Swaps.antt =====
-- The second loop of `num_to_str` of app/src/parser/utils.rs: swaps from the ends turn the text around.
use ledger_avalanche.Prelude.{
  ℕ, zero, suc, ◌+◌, ◌-◌, ◌≤◌, ◌<◌, ◌≡◌, refl, sym, ap, ap₂, subst, ◌∙◌, true, false, some, [], ◌∷◌,
  ◌++◌, append_assoc, reverse, reverse-append, reverse_cons, snoc_cases, inl, inr, Bytes, length,
  length-append, get_elem?, set, get_elem?-append_length, set-append_length, ltb, arith,
}
use ledger_avalanche.Errors.{ok}
use ledger_avalanche.Parser.Decimal.{swap, reverse_digits}

swap_lem :
    (i j : ℕ) {a b : ℕ} (output : Bytes)
    → get_elem? output i ≡ some a
    → get_elem? output j ≡ some b
    → swap i j output ≡ ok (set (set output i b) j a)
unfolding swap
swap_lem i j output h k = rw (swap, h, k)

swap_self :
    (pre post : Bytes) (x : ℕ)
    → swap (length pre) (length pre) (pre ++ (x ∷ post)) ≡ ok (pre ++ (x ∷ post))
swap_self pre post x =
    let found = get_elem?-append_length pre post x in
    swap_lem _ _ _ found found
    ∙ ap ok (
        ap (λ o. set o (length pre) x) (set-append_length pre post x x)
        ∙ set-append_length pre post x x)

-- The place behind `pre` and `x`, and what stands there.
module _ (pre m post : Bytes) (x : ℕ) where
  far : ℕ
  far = length pre + suc (length m)

  far_length : length (pre ++ (x ∷ m)) ≡ length pre + suc (length m)
  far_length = length-append pre (x ∷ m)

  get_far :
      (y : ℕ) → get_elem? (pre ++ (x ∷ (m ++ (y ∷ post)))) (length pre + suc (length m)) ≡ some y
  get_far y =
      ap₂ get_elem? (sym (append_assoc pre (x ∷ m) (y ∷ post))) (sym far_length)
      ∙ get_elem?-append_length (pre ++ (x ∷ m)) post y

  set_far :
      (y v : ℕ)
      → set (pre ++ (x ∷ (m ++ (y ∷ post)))) (length pre + suc (length m)) v
        ≡ pre ++ (x ∷ (m ++ (v ∷ post)))
  set_far y v =
      ap₂ (λ o i. set o i v) (sym (append_assoc pre (x ∷ m) (y ∷ post))) (sym far_length)
      ∙ set-append_length (pre ++ (x ∷ m)) post y v
      ∙ append_assoc pre (x ∷ m) (v ∷ post)

swap_ends :
    (pre m post : Bytes) (x y : ℕ)
    → swap (length pre) (length pre + suc (length m)) (pre ++ (x ∷ (m ++ (y ∷ post))))
      ≡ ok (pre ++ (y ∷ (m ++ (x ∷ post))))
swap_ends pre m post x y =
    swap_lem _ _ _ (get_elem?-append_length pre (m ++ (y ∷ post)) x) (get_far pre m post x y)
    ∙ ap ok (
        ap (λ o. set o (length pre + suc (length m)) x)
          (set-append_length pre (m ++ (y ∷ post)) x y)
        ∙ set_far pre m post y y x)

stop :
    (rounds idx offset : ℕ) (output : Bytes)
    → offset ≤ idx
    → reverse_digits rounds idx offset output ≡ ok output
unfolding reverse_digits
stop zero idx offset output h = refl
stop (suc rounds) idx offset output h = rw (past h)
  where
    past : offset ≤ idx → ltb idx offset ≡ false
    past h = ground arith

go_on :
    (rounds idx offset : ℕ) (output : Bytes) {swapped : Bytes}
    → idx < offset
    → swap idx (offset - 1) output ≡ ok swapped
    → reverse_digits (suc rounds) idx offset output
      ≡ reverse_digits rounds (idx + 1) (offset - 1) swapped
unfolding reverse_digits
go_on rounds idx offset output h e = rw (reverse_digits, inside h, e)
  where
    inside : idx < offset → ltb idx offset ≡ true
    inside h = ground arith

same_digits :
    (rounds : ℕ) {i i' j j' : ℕ} {output output' : Bytes}
    → i ≡ i'
    → j ≡ j'
    → output ≡ output'
    → reverse_digits rounds i j output ≡ reverse_digits rounds i' j' output'
same_digits rounds p q r = cc

turned :
    (x y : ℕ) (pre m post : Bytes)
    → (pre ++ (y ∷ [])) ++ (reverse m ++ (x ∷ post))
      ≡ pre ++ (reverse (x ∷ (m ++ (y ∷ []))) ++ post)
turned x y pre m post =
    append_assoc pre (y ∷ []) (reverse m ++ (x ∷ post))
    ∙ ap (λ o. pre ++ o)
        (sym (
          ap (λ o. o ++ post)
            (reverse_cons x (m ++ (y ∷ [])) ∙ ap (λ o. o ++ (x ∷ [])) (reverse-append m (y ∷ [])))
          ∙ append_assoc ((y ∷ []) ++ reverse m) (x ∷ []) post))

-- The rounds turn around what stands between the places.
abbrev pub Turns : ℕ → Bytes → Bytes → Bytes → Type 0
Turns rounds pre mid post =
    reverse_digits rounds (length pre) (length pre + length mid) (pre ++ (mid ++ post))
    ≡ ok (pre ++ (reverse mid ++ post))

module _ (rounds : ℕ) (pre post : Bytes) (x : ℕ) where
  one : {mid : Bytes} → [] ≡ mid → Turns (suc rounds) pre (x ∷ mid) post
  one e =
      subst (λ mid. Turns (suc rounds) pre (x ∷ mid) post) e
        (go_on rounds (length pre) (length pre + 1) _ (omega arith)
            (ap (λ j. swap (length pre) j (pre ++ (x ∷ post))) (omega arith) ∙ swap_self pre post x)
          ∙ stop rounds _ _ _ (omega arith))

  ends :
      (mid m : Bytes) (y : ℕ)
      → mid ≡ m ++ (y ∷ [])
      → Turns rounds (pre ++ (y ∷ [])) m (x ∷ post)
      → Turns (suc rounds) pre (x ∷ mid) post
  ends mid m y e inner =
      let ms : length mid ≡ length m + 1 = ap length e ∙ length-append m (y ∷ []) in
      let swapped : swap (length pre) (length pre + suc (length mid) - 1)
            (pre ++ (x ∷ (mid ++ post)))
          ≡ ok (pre ++ (y ∷ (m ++ (x ∷ post)))) =
        ap₂ (λ j o. swap (length pre) j (pre ++ (x ∷ o))) (omega (arith, ms))
          (ap (λ o. o ++ post) e ∙ append_assoc m (y ∷ []) post)
        ∙ swap_ends pre m post x y in
      go_on rounds (length pre) (length pre + suc (length mid)) _ (omega arith) swapped
      ∙ same_digits rounds (omega (arith, length-append pre (y ∷ [])))
          (omega (arith, ms, length-append pre (y ∷ [])))
          (sym (append_assoc pre (y ∷ []) (m ++ (x ∷ post))))
      ∙ inner
      ∙ ap ok (turned x y pre m post)
      ∙ ap (λ z. ok (pre ++ (reverse (x ∷ z) ++ post))) (sym e)

pub reverse_digits-reverse :
    (rounds : ℕ) (pre mid post : Bytes) → length mid ≤ rounds → Turns rounds pre mid post
reverse_digits-reverse rounds pre [] post h = stop rounds _ _ _ (omega arith)
reverse_digits-reverse zero pre (x ∷ mid) post h = absurd (omega (arith, h))
reverse_digits-reverse (suc rounds) pre (x ∷ mid) post h = elim (snoc_cases mid) [
  | inl e ↦ one rounds pre post x (sym e)
  | inr (m, y, e) ↦ ends rounds pre post x mid m y e (
      reverse_digits-reverse rounds (pre ++ (y ∷ [])) m (x ∷ post)
        (omega (arith, h, ap length e, length-append m (y ∷ []))))
]
