-- ===== src/Parser/BaseTx/ItemLoop.antt =====
-- The numbers of an output's items, and the loop of `base_output_with_item` over them.
use ledger_avalanche.Prelude.{
  ℕ, zero, suc, ◌+◌, ◌-◌, ◌≤◌, ◌<◌, ◌≡◌, refl, ap, ◌∙◌, Bool, true, false, some, List, [], ◌∷◌,
  ◌++◌, length, get_elem?, arith,
}
use ledger_avalanche.Parser.BaseTx.{Cursor, item_loop}
use ledger_avalanche.Parser.Objects.Walk.{find}

module _ {A : Type 0} where
  -- An object with each number from `first` on, `n` of them.
  abbrev pub numbered : A → ℕ → ℕ → List (A × ℕ)
  numbered a first zero = []
  numbered a first (suc n) = (a, first) ∷ numbered a (first + 1) n

  pub length-numbered : (a : A) (first n : ℕ) → length (numbered a first n) ≡ n
  length-numbered a first zero = refl
  length-numbered a first (suc n) = omega (arith, length-numbered a (first + 1) n)

  pub get_elem?-numbered :
      (a : A) (first n d : ℕ) (rest : List (A × ℕ))
      → d < n
      → get_elem? (numbered a first n ++ rest) d ≡ some (a, first + d)
  get_elem?-numbered a first zero d rest h = absurd (omega arith)
  get_elem?-numbered a first (suc n) zero rest h = ap (λ k. some (a, k)) (omega arith)
  get_elem?-numbered a first (suc n) (suc d) rest h =
      get_elem?-numbered a (first + 1) n d rest (omega arith) ∙ ap (λ k. some (a, k)) (omega arith)

  get_elem?-behind :
      (a : A) (first n d : ℕ) (rest : List (A × ℕ))
      → get_elem? (numbered a first n ++ rest) (n + d) ≡ get_elem? rest d
  get_elem?-behind a first zero d rest = ap (get_elem? rest) (omega arith)
  get_elem?-behind a first (suc n) d rest =
      ap (get_elem? (numbered a first (suc n) ++ rest)) (shift n d)
      ∙ get_elem?-behind a (first + 1) n d rest
    where
      shift : (n d : ℕ) → suc n + d ≡ suc (n + d)
      shift n d = omega arith

  pub get_elem?-past :
      (a : A) (n d : ℕ) (rest : List (A × ℕ))
      → n ≤ d
      → get_elem? (numbered a 0 n ++ rest) d ≡ get_elem? rest (d - n)
  get_elem?-past a n d rest h =
      ap (get_elem? (numbered a 0 n ++ rest)) (omega (arith, h))
      ∙ get_elem?-behind a 0 n (d - n) rest

pub item_loop_hit :
    (item_n rounds index d : ℕ) (c : Cursor)
    → d < rounds
    → c.count + d ≡ item_n
    → item_loop item_n rounds index c ≡ (record c { count = item_n; obj_item_n = index + d }, true)
unfolding item_loop
item_loop_hit item_n zero index d c h e = absurd (omega arith)
item_loop_hit item_n (suc rounds) index zero c h e = ground arith
item_loop_hit item_n (suc rounds) index (suc d) c h e = ground (
  arith,
  item_loop_hit item_n rounds (index + 1) d (record c { obj_item_n = index; count = c.count + 1 }),
)

pub item_loop_miss :
    (item_n rounds index : ℕ) (c : Cursor)
    → c.count + rounds ≤ item_n
    → (m : ℕ) × (item_loop item_n rounds index c
        ≡ (record c { count = c.count + rounds; obj_item_n = m }, false))
unfolding item_loop
item_loop_miss item_n zero index c h = (c.obj_item_n, ground arith)
item_loop_miss item_n (suc rounds) index c h =
    let (m, e) =
      item_loop_miss item_n rounds (index + 1)
        (record c { obj_item_n = index; count = c.count + 1 }) (omega arith) in
    (m, ground (arith, e))

module _ {A S : Type 0} (f : S → A → S × Bool) where
  pub find_stop :
      (s s' : S) (a : A) (objs : List A) → f s a ≡ (s', true) → find f s (a ∷ objs) ≡ (some a, s')
  find_stop s s' a objs e = ap (λ r. elim r.1 [ true ↦ (some a, r.0) | false ↦ find f r.0 objs ]) e

  pub find_skip :
      (s s' : S) (a : A) (objs : List A)
      → f s a ≡ (s', false)
      → find f s (a ∷ objs) ≡ find f s' objs
  find_skip s s' a objs e = ap (λ r. elim r.1 [ true ↦ (some a, r.0) | false ↦ find f r.0 objs ]) e
