-- ===== src/Parser/Objects/Walk.antt =====
-- A walk over an object list visits the objects whose encodings make up its bytes, in order. It
-- neither panics nor runs out of fuel.
use ledger_avalanche.Prelude.{
  ℕ, zero, suc, ◌+◌, ◌-◌, ◌≤◌, ◌<◌, ◌≡◌, ap, ◌∙◌, Bool, true, false, Option, some, none, List, [],
  ◌∷◌, ◌++◌, map, append_assoc, Bytes, All, length, length-append, drop-append_length, ltb, ◌==◌,
  flatten, arith, Bool-cases, inl, inr,
}
use ledger_avalanche.Errors.{ok}
use ledger_avalanche.Platform.{Parser}
use ledger_avalanche.Codec.{Exact}
use ledger_avalanche.Parser.Objects.{
  ObjectList, parse_into, parse_next, iterate_loop, find_loop, collect_loop, iterate_with,
  get_obj_if, iter,
}
use mathlib.Core.List.{foldl}

-- The first item at which the closure says so, and the closure's state by then.
abbrev pub find : {A S : Type 0} → (S → A → S × Bool) → S → List A → Option A × S
find f s [] = (none, s)
find f s (a ∷ objs) = elim (f s a).1 [ true ↦ (some a, (f s a).0) | false ↦ find f (f s a).0 objs ]

module _ {A : Type 0} {object : Parser A} {encode : A → Bytes} {Valid : A → Type 0}
    (exact : Exact object encode Valid)
    (some_bytes : (a : A) → Valid a → 0 < length (encode a)) where
  abbrev run : List A → Bytes
  run objs = flatten (map encode objs)

  in_range : (before after : Bytes) → ltb (length (before ++ after)) (length before) ≡ false
  in_range before after = rw (length-append before after) (ground arith)

  not_empty : (n m : ℕ) → 0 < n → (n + m == 0) ≡ false
  not_empty n m h = ground arith

  left_behind : (b e r : ℕ) → b + (e + r) - r ≡ b + e
  left_behind b e r = omega arith

  -- The cursor stands behind `before`.
  abbrev cursor : Bytes → Bytes → ObjectList
  cursor before after = record { bytes = before ++ after; read = length before }

  parse_into_end : (before : Bytes) → parse_into object (cursor before []) ≡ ok none
  unfolding parse_into
  parse_into_end before = rw (in_range before [], drop-append_length before [])

  parse_into_object :
      (before after : Bytes) (a : A)
      → Valid a
      → parse_into object (cursor before (encode a ++ after))
        ≡ ok (some (a, length (before ++ encode a)))
  unfolding parse_into
  parse_into_object before after a v =
      rw
        (
          in_range before (encode a ++ after),
          drop-append_length before (encode a ++ after),
          length-append before (encode a ++ after),
          length-append (encode a) after,
          not_empty (length (encode a)) (length after) (some_bytes a v),
          exact.complete a after v,
          length-append before (encode a),
        )
        (ap (λ n. ok (some (a, n)))
          (left_behind (length before) (length (encode a)) (length after)))

  parse_next_end :
      (before : Bytes) → parse_next object (cursor before []) ≡ ok (cursor before [], none)
  unfolding parse_next
  parse_next_end before = rw (parse_into_end before)

  parse_next_object :
      (before after : Bytes) (a : A)
      → Valid a
      → parse_next object (cursor before (encode a ++ after))
        ≡ ok (cursor (before ++ encode a) after, some a)
  unfolding parse_next
  parse_next_object before after a v =
      rw (parse_into_object before after a v, append_assoc before (encode a) after)

  iterate_loop-run :
      {S : Type 0} (f : S → A → S) (fuel : ℕ) (before : Bytes) (objs : List A) (s : S)
      → All Valid objs
      → length objs < fuel
      → iterate_loop object f fuel (cursor before (run objs)) s ≡ ok (foldl f s objs)
  unfolding iterate_loop
  iterate_loop-run f zero before objs s v h = absurd (omega arith)
  iterate_loop-run f (suc fuel) before [] s v h = rw (parse_next_end before)
  iterate_loop-run f (suc fuel) before (a ∷ objs) s v h =
      rw (parse_next_object before (run objs) a v.0)
        (iterate_loop-run f fuel (before ++ encode a) objs (f s a) v.1 (omega arith))

  find_loop-run :
      {S : Type 0} (f : S → A → S × Bool) (fuel : ℕ) (before : Bytes) (objs : List A) (s : S)
      → All Valid objs
      → length objs < fuel
      → find_loop object f fuel (cursor before (run objs)) s ≡ ok (find f s objs)
  unfolding find_loop
  find_loop-run f zero before objs s v h = absurd (omega arith)
  find_loop-run f (suc fuel) before [] s v h = rw (parse_next_end before)
  find_loop-run f (suc fuel) before (a ∷ objs) s v h = elim (Bool-cases (f s a).1) [
    | inl e ↦ rw (parse_next_object before (run objs) a v.0, e, find)
    | inr e ↦
        rw (parse_next_object before (run objs) a v.0, e, find)
          (find_loop-run f fuel (before ++ encode a) objs (f s a).0 v.1 (omega arith))
  ]

  collect_loop-run :
      (fuel : ℕ) (before : Bytes) (objs : List A)
      → All Valid objs
      → length objs < fuel
      → collect_loop object fuel (cursor before (run objs)) ≡ ok objs
  unfolding collect_loop
  collect_loop-run zero before objs v h = absurd (omega arith)
  collect_loop-run (suc fuel) before [] v h = rw (parse_next_end before)
  collect_loop-run (suc fuel) before (a ∷ objs) v h = rw (
    parse_next_object before (run objs) a v.0,
    collect_loop-run fuel (before ++ encode a) objs v.1 (omega arith),
  )

  -- Each object takes a byte at least.
  length-le-run : (objs : List A) → All Valid objs → length objs ≤ length (run objs)
  length-le-run [] v = omega arith
  length-le-run (a ∷ objs) v =
      omega (arith, length-append (encode a) (run objs), some_bytes a v.0, length-le-run objs v.1)

  module _ (list : ObjectList) (objs : List A) (v : All Valid objs)
      (e : list.bytes ≡ run objs) where
    enough_fuel : length objs < suc (length list.bytes)
    enough_fuel = omega (arith, length-le-run objs v, ap length e)

    -- From any cursor, `iterate_with` folds over the objects in order.
    pub iterate_with-eq-foldl :
        {S : Type 0} (f : S → A → S) (s : S) → iterate_with object f s list ≡ ok (foldl f s objs)
    unfolding iterate_with
    iterate_with-eq-foldl f s =
        ap
          (λ bs.
            iterate_loop object f (suc (length list.bytes)) (record { bytes = bs; read = 0 }) s)
          e
        ∙ iterate_loop-run f (suc (length list.bytes)) [] objs s v enough_fuel

    -- `get_obj_if` finds the first object at which the closure answers true.
    pub get_obj_if-eq-find :
        {S : Type 0} (f : S → A → S × Bool) (s : S)
        → get_obj_if object f s list ≡ ok (find f s objs)
    unfolding get_obj_if
    get_obj_if-eq-find f s =
        ap (λ bs. find_loop object f (suc (length list.bytes)) (record { bytes = bs; read = 0 }) s)
          e
        ∙ find_loop-run f (suc (length list.bytes)) [] objs s v enough_fuel

    pub iter-eq-objects : iter object list ≡ ok objs
    unfolding iter
    iter-eq-objects =
        ap (λ bs. collect_loop object (suc (length list.bytes)) (record { bytes = bs; read = 0 })) e
        ∙ collect_loop-run (suc (length list.bytes)) [] objs v enough_fuel
