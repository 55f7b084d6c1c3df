-- ===== src/Parser/Objects/Format.antt =====
-- The format of an object list: the number of objects as a big-endian u32, and the objects.
use ledger_avalanche.Prelude.{
  ℕ, zero, suc, ◌-◌, ◌<◌, ◌≡◌, refl, sym, ap, ap₂, ◌∙◌, false, List, [], ◌∷◌, ◌++◌, map,
  append_assoc, Bytes, IsBytes, IsU32, All, length, length-append, to_be_bytes, ◌==◌,
  length-to_be_bytes, flatten, arith,
}
use ledger_avalanche.Errors.{ok, returns, Ensures, Ensures-bind, Ensures-bail, Ensures-weaken}
use ledger_avalanche.Platform.{Platform, Parser}
use ledger_avalanche.Codec.{Exact, Exact-then, reads, be_uint-Exact}
use ledger_avalanche.Parser.Objects.{ObjectList, parse_objects, new_into_with_len, new_into, iter}
use ledger_avalanche.Parser.Objects.Walk.{iter-eq-objects}

-- The objects that the iterator yields; none where it panics.
unfoldable pub objects : {A : Type 0} → Parser A → ObjectList → List A
objects object list = elim (iter object list) [ ok objs ↦ objs | _ ↦ [] ]

-- The bytes are those of valid objects, few enough for the count, and the cursor is at the start.
pub record IsObjectList {A : Type 0} (encode : A → Bytes) (Valid : A → Type 0) (list : ObjectList)
    : Type 0 where
  pub objs : List A
  pub valid : All Valid objs
  pub bytes : list.bytes ≡ flatten (map encode objs)
  pub count : IsU32 (length objs)
  pub at_start : list.read ≡ 0

unfoldable pub encode_objects : {A : Type 0} → Parser A → ObjectList → Bytes
encode_objects object list = to_be_bytes 4 (length (objects object list)) ++ list.bytes

module _ {A : Type 0} {object : Parser A} {encode : A → Bytes} {Valid : A → Type 0}
    (exact : Exact object encode Valid)
    (some_bytes : (a : A) → Valid a → 0 < length (encode a)) where
  parse_objects_complete :
      (objs : List A) (rest : Bytes)
      → All Valid objs
      → parse_objects object (length objs) (flatten (map encode objs) ++ rest) ≡ ok rest
  unfolding parse_objects
  parse_objects_complete [] rest v = refl
  parse_objects_complete (a ∷ objs) rest v =
      rw (append_assoc, exact.complete a (flatten (map encode objs) ++ rest) v.0)
        (parse_objects_complete objs rest v.1)

  parse_objects_sound :
      (n : ℕ) (input : Bytes)
      → IsBytes input
      → Ensures
          (λ left.
            (objs : List A) × All Valid objs
            × (length objs ≡ n)
            × (input ≡ flatten (map encode objs) ++ left))
          (parse_objects object n input)
  unfolding parse_objects
  parse_objects_sound zero input h = returns ([], tt, refl, refl)
  parse_objects_sound (suc n) input h = Exact-then exact input h _ λ a r va hr e.
      Ensures-weaken (parse_objects_sound n r hr)
        λ left (objs, v, len, er). (a ∷ objs, (va, v), ap suc len, simp (e, er, append_assoc))

  cut_length : (xs ys : Bytes) → length (xs ++ ys) - length ys ≡ length xs
  cut_length xs ys = omega (arith, length-append xs ys)

  pub objects_lem :
      (list : ObjectList) (valid : IsObjectList encode Valid list)
      → objects object list ≡ valid.objs
  unfolding objects
  objects_lem list valid =
      rw (objects, iter-eq-objects exact some_bytes list valid.objs valid.valid valid.bytes)

  module _ (p : Platform) where
    take_front : (xs ys : Bytes) → p.take (length (xs ++ ys) - length ys) (xs ++ ys) ≡ ok (ys, xs)
    take_front xs ys = p.take_ok _ xs ys (sym (cut_length xs ys))

    pub new_into_with_len_sound :
        (n : ℕ) (input : Bytes)
        → IsBytes input
        → Ensures
            (λ r.
              (objs : List A) × All Valid objs
              × (length objs ≡ n)
              × (r.1.bytes ≡ flatten (map encode objs))
              × (r.1.read ≡ 0)
              × (input ≡ r.1.bytes ++ r.0))
            (new_into_with_len object p n input)
    unfolding new_into_with_len
    new_into_with_len_sound n input h =
        Ensures-bind (parse_objects_sound n input h) λ left (objs, v, len, e).
          rw (e, take_front (flatten (map encode objs)) left)
            (returns (objs, v, len, refl, refl, refl))

    abbrev run_bytes : List A → Bytes
    run_bytes objs = to_be_bytes 4 (length objs) ++ flatten (map encode objs)

    count_first : (n : ℕ) (xs : Bytes) → (length (to_be_bytes 4 n ++ xs) == 0) ≡ false
    count_first n xs =
        rw (length-append (to_be_bytes 4 n) xs, length-to_be_bytes 4 n) (ground arith)

    new_into_run :
        (objs : List A) (rest : Bytes)
        → All Valid objs
        → IsU32 (length objs)
        → new_into object p (run_bytes objs ++ rest)
          ≡ ok (rest, record { bytes = flatten (map encode objs); read = 0 })
    unfolding new_into new_into_with_len
    new_into_run objs rest v count = rw (
      append_assoc,
      count_first (length objs) (flatten (map encode objs) ++ rest),
      reads (be_uint-Exact p 4) (length objs) count (flatten (map encode objs) ++ rest),
      parse_objects_complete objs rest v,
      take_front (flatten (map encode objs)) rest,
    )

    pub new_into-Exact :
        Exact (new_into object p) (encode_objects object) (IsObjectList encode Valid)
    unfolding new_into new_into_with_len encode_objects
    new_into-Exact = record {
      complete = λ list rest valid.
          let same : encode_objects object list ≡ run_bytes valid.objs =
            ap₂ (λ (n : ℕ) (bs : Bytes). to_be_bytes 4 n ++ bs) (ap length (objects_lem list valid))
              valid.bytes in
          ap (λ bs. new_into object p (bs ++ rest)) same
          ∙ new_into_run valid.objs rest valid.valid valid.count
          ∙ λ i. ok (rest, record { bytes = sym valid.bytes i; read = sym valid.at_start i });
      sound = λ input h. Ensures-bail (length input == 0) _ _ λ _.
          Exact-then (be_uint-Exact p 4) input h _ λ n r vn hr e.
            Ensures-weaken (new_into_with_len_sound n r hr)
              λ (rest, list) (objs, v, len, eb, er, ei).
                let valid : IsObjectList encode Valid list = record {
                  objs = objs;
                  valid = v;
                  bytes = eb;
                  count = rw len vn;
                  at_start = er;
                } in
                (valid, simp (e, objects_lem list valid, len, ei, append_assoc));
    }
