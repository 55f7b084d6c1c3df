-- ===== src/Parser/Coreth/Limited.antt =====
-- An object list whose count is read ahead and bounded, as the outputs in export_tx.rs and import_tx.rs
-- of app/src/parser/coreth are.
use ledger_avalanche.Prelude.{
  ℕ, ◌^◌, ◌≤◌, ◌<◌, ◌≡◌, ap, Bytes, length, ltb, ◌++◌, to_be_bytes, append_assoc,
}
use ledger_avalanche.Errors.{
  ok, error, ◌>>=◌, ◌>>◌, bail_if, too_many_outputs, Ensures-bail, Ensures-weaken,
}
use ledger_avalanche.Platform.{Platform, Parser}
use ledger_avalanche.Codec.{Exact, Exact-then, reads, be_uint-Exact}
use ledger_avalanche.Parser.BaseTx.{output_idx_bits}
use ledger_avalanche.Parser.BaseTx.Format.{le_test, le_of_test}
use ledger_avalanche.Parser.Objects.{ObjectList, new_into}
use ledger_avalanche.Parser.Objects.Format.{
  IsObjectList, encode_objects, objects_lem, new_into-Exact,
}

unfoldable pub parse_limited : {A : Type 0} → Parser A → Platform → Parser ObjectList
parse_limited object p input = do
  (_, num_outputs) ← p.be_uint 4 input
  bail_if (ltb output_idx_bits num_outputs) (error too_many_outputs)
  new_into object p input

pub record IsLimited {A : Type 0} (encode : A → Bytes) (Valid : A → Type 0) (list : ObjectList)
    : Type 0 where
  pub all : IsObjectList encode Valid list
  pub few : length all.objs ≤ output_idx_bits

module _ {A : Type 0} {object : Parser A} {encode : A → Bytes} {Valid : A → Type 0}
    (exact : Exact object encode Valid) (some_bytes : (a : A) → Valid a → 0 < length (encode a))
    (p : Platform) where
  peek_len :
      (list : ObjectList) (v : IsObjectList encode Valid list) (rest : Bytes)
      → p.be_uint 4 (encode_objects object list ++ rest) ≡ ok (list.bytes ++ rest, length v.objs)
  unfolding encode_objects
  peek_len list v rest =
      rw (append_assoc, ap length (objects_lem exact some_bytes list v))
        (reads (be_uint-Exact p 4) (length v.objs) v.count (list.bytes ++ rest))

  same_len :
      (input : Bytes) (n : ℕ) (r : Bytes)
      → n < 256 ^ 4
      → input ≡ to_be_bytes 4 n ++ r
      → (list : ObjectList) (v : IsObjectList encode Valid list) (rest : Bytes)
      → input ≡ encode_objects object list ++ rest
      → n ≡ length v.objs
  same_len input n r vn e₀ list v rest e₁ =
      let again = reads (be_uint-Exact p 4) n vn r in
      let counted = peek_len list v rest in cc (again, counted, e₀, e₁)

  pub parse_limited-Exact :
      Exact (parse_limited object p) (encode_objects object) (IsLimited encode Valid)
  unfolding parse_limited
  parse_limited-Exact = record {
    complete = λ list rest v. rw (
      peek_len list v.all rest,
      le_test (length v.all.objs) output_idx_bits v.few,
      (new_into-Exact exact some_bytes p).complete list rest v.all,
    );
    sound = λ input h. Exact-then (be_uint-Exact p 4) input h _ λ n r vn _ e₀.
        Ensures-bail (ltb output_idx_bits n) _ _ λ few.
          Ensures-weaken ((new_into-Exact exact some_bytes p).sound input h) λ (rest, list) (v, e).
            (
              record {
                all = v;
                few =
                    rw (← same_len input n r vn e₀ list v rest e)
                      (le_of_test n output_idx_bits few);
              },
              e,
            );
  }
