-- ===== src/Codec/Relation.antt =====
-- A parser against a relation between values and bytes, for formats in which a value does not determine
-- its bytes.
use ledger_avalanche.Prelude.{◌≡◌, ◌++◌, Bytes, IsByte, IsBytes, All-append_split, subst}
use ledger_avalanche.Errors.{Result, Err, ◌>>=◌, Ensures, Ensures-bind}
use ledger_avalanche.Platform.{Parser}

-- On any bytes the parser does not panic, and what it returns stands in the relation to the bytes that it
-- read, which with the rest are the input.
pub record Accepts {A : Type 0} (parse : Parser A) (OnWire : A → Bytes → Type 0) : Type 0 where
  pub reads_off :
      (input : Bytes)
      → IsBytes input
      → Ensures (λ r. (bs : Bytes) × OnWire r.1 bs × (input ≡ bs ++ r.0)) (parse input)

-- The first parser of a sequence.
pub Accepts-then {κ} :
    {A : Type 0} {parse : Parser A} {OnWire : A → Bytes → Type 0}
    → Accepts parse OnWire
    → (input : Bytes) → IsBytes input
    → {B : Type 0} {Q : B → Type κ} (f : Bytes × A → Result Err B)
    → ((a : A) (bs rest : Bytes)
        → OnWire a bs
        → IsBytes rest
        → input ≡ bs ++ rest
        → Ensures Q (f (rest, a)))
    → Ensures Q (parse input >>= f)
Accepts-then x input h f k =
    Ensures-bind (x.reads_off input h) λ (rest, a) (bs, v, e).
      k a bs rest v (All-append_split IsByte bs rest (subst IsBytes e h)).1 e
