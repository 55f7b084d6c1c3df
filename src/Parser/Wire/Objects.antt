-- ===== src/Parser/Wire/Objects.antt =====
-- Object lists of app/src/parser/object_list.rs on any width of `usize`.
use ledger_avalanche.Prelude.{
  ℕ, zero, suc, ◌-◌, ◌^◌, ◌<◌, ◌≡◌, refl, ap, ◌∙◌, List, [], ◌∷◌, ◌++◌, append_assoc, Bytes,
  IsBytes, IsU32, length, length-append, to_be_bytes, ◌==◌, arith,
}
use ledger_avalanche.Errors.{returns, Ensures, Ensures-bind, Ensures-bail, Ensures-weaken}
use ledger_avalanche.Platform.{Platform, Parser}
use ledger_avalanche.Codec.{Accepts, Accepts-then, Exact-then, reads, be_uint-Exact}
use ledger_avalanche.Parser.Objects.{ObjectList, parse_objects, new_into_with_len, new_into}

-- The bytes of the objects, one after the other.
abbrev pub ObjectsOnWire : {A : Type 0} → (A → Bytes → Type 0) → List A → Bytes → Type 0
ObjectsOnWire OnWire [] bs = bs ≡ []
ObjectsOnWire OnWire (a ∷ objs) bs =
    (front : Bytes) × (back : Bytes) × OnWire a front
    × ObjectsOnWire OnWire objs back
    × (bs ≡ front ++ back)

-- The list keeps the bytes of its objects, with the cursor at the start; ahead of them is their number.
pub record ListOnWire {A : Type 0} (OnWire : A → Bytes → Type 0) (list : ObjectList) (bs : Bytes)
    : Type 0 where
  pub objs : List A
  pub count : IsU32 (length objs)
  pub objects : ObjectsOnWire OnWire objs list.bytes
  pub at_start : list.read ≡ 0
  pub bytes_are : bs ≡ to_be_bytes 4 (length objs) ++ list.bytes

module _ {A : Type 0} {object : Parser A} {OnWire : A → Bytes → Type 0}
    (accepts : Accepts object OnWire) where
  parse_objects_reads :
      (n : ℕ) (input : Bytes)
      → IsBytes input
      → Ensures
          (λ left.
            (objs : List A) × (bs : Bytes) × ObjectsOnWire OnWire objs bs
            × (length objs ≡ n)
            × (input ≡ bs ++ left))
          (parse_objects object n input)
  unfolding parse_objects
  parse_objects_reads zero input h = returns ([], [], refl, refl, refl)
  parse_objects_reads (suc n) input h = Accepts-then accepts input h _ λ a front r va hr e.
      Ensures-weaken (parse_objects_reads n r hr) λ left (objs, back, v, len, er). (
        a ∷ objs,
        front ++ back,
        (front, back, va, v, refl),
        ap suc len,
        simp (e, er, append_assoc),
      )

  cut_length : (xs ys : Bytes) → length xs ≡ length (xs ++ ys) - length ys
  cut_length xs ys = omega (arith, length-append xs ys)

  pub new_into-Accepts : (p : Platform) → Accepts (new_into object p) (ListOnWire OnWire)
  unfolding new_into new_into_with_len
  new_into-Accepts p = record {
    reads_off = λ input h. Ensures-bail (length input == 0) _ _ λ _.
        Exact-then (be_uint-Exact p 4) input h _ λ n r vn hr e.
          Ensures-bind (parse_objects_reads n r hr) λ left (objs, bs, v, len, er).
            rw (er, p.take_ok (length (bs ++ left) - length left) bs left (cut_length bs left))
              (returns (
                to_be_bytes 4 (length objs) ++ bs,
                record {
                  objs = objs;
                  count = rw len vn;
                  objects = v;
                  at_start = refl;
                  bytes_are = refl;
                },
                simp (e, er, len, append_assoc),
              ));
  }

-- A count that was read ahead is the number of the objects.
pub count_ahead :
    {A : Type 0} {OnWire : A → Bytes → Type 0} (p : Platform) (input : Bytes) (n : ℕ) (r : Bytes)
    → n < 256 ^ 4
    → input ≡ to_be_bytes 4 n ++ r
    → (list : ObjectList) (bs rest : Bytes) (v : ListOnWire OnWire list bs) → input ≡ bs ++ rest
    → n ≡ length v.objs
count_ahead p input n r vn e₀ list bs rest v e₁ =
    let again = reads (be_uint-Exact p 4) n vn r in
    let counted = reads (be_uint-Exact p 4) (length v.objs) v.count (list.bytes ++ rest) in
    let whole : input ≡ to_be_bytes 4 (length v.objs) ++ (list.bytes ++ rest) =
      e₁
      ∙ ap (λ xs. xs ++ rest) v.bytes_are
      ∙ append_assoc (to_be_bytes 4 (length v.objs)) list.bytes rest in
    cc (again, counted, e₀, whole)
