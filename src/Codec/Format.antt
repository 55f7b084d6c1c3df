-- ===== src/Codec/Format.antt =====
-- A parser against its format: an encoding of the values, and the values that it may carry.
use ledger_avalanche.Prelude.{◌≡◌, ◌++◌, Bytes, IsByte, IsBytes, All-append_split, subst}
use ledger_avalanche.Errors.{Result, ok, Err, ◌>>=◌, Ensures, returns, Ensures-bind}
use ledger_avalanche.Platform.{Parser}

-- The parser reads a valid value off the front of its encoding, whatever follows, and whatever it
-- reads off any bytes is a valid value in front of the rest. It never panics.
pub record Exact {A : Type 0} (parse : Parser A) (encode : A → Bytes) (Valid : A → Type 0)
    : Type 0 where
  pub complete : (a : A) (rest : Bytes) → Valid a → parse (encode a ++ rest) ≡ ok (rest, a)
  pub sound :
      (input : Bytes)
      → IsBytes input
      → Ensures (λ r. Valid r.1 × (input ≡ encode r.1 ++ r.0)) (parse input)

module _ {A : Type 0} {parse : Parser A} {encode : A → Bytes} {Valid : A → Type 0} where
  -- The first parser of a sequence, read backwards from its result.
  pub Exact-then {κ} :
      Exact parse encode Valid
      → (input : Bytes) → IsBytes input
      → {B : Type 0} {Q : B → Type κ} (f : Bytes × A → Result Err B)
      → ((a : A) (rest : Bytes)
          → Valid a
          → IsBytes rest
          → input ≡ encode a ++ rest
          → Ensures Q (f (rest, a)))
      → Ensures Q (parse input >>= f)
  Exact-then x input h f k = Ensures-bind (x.sound input h) λ (rest, a) (v, e).
      k a rest v (All-append_split IsByte (encode a) rest (subst IsBytes e h)).1 e

  -- The first parser of a sequence, run forwards on an encoded value.
  pub reads :
      Exact parse encode Valid
      → (a : A) → Valid a
      → (rest : Bytes) → parse (encode a ++ rest) ≡ ok (rest, a)
  reads x a v rest = x.complete a rest v

-- A parser whose values a constructor wraps.
pub Exact-map :
    {A B : Type 0} {parse : Parser A} {encode : A → Bytes} {Valid : A → Type 0}
    → Exact parse encode Valid
    → (wrap : A → B) (encode' : B → Bytes) (Valid' : B → Type 0)
    → ((a : A) → encode' (wrap a) ≡ encode a)
    → ((a : A) → Valid a → Valid' (wrap a))
    → ((b : B) → Valid' b → (a : A) × (b ≡ wrap a) × Valid a)
    → Exact (λ input. parse input >>= λ (rem, a). ok (rem, wrap a)) encode' Valid'
Exact-map x wrap encode' Valid' same keep unwrap = record {
  complete = λ b rest v. let (a, e, va) = unwrap b v in rw (e, same a, x.complete a rest va);
  sound = λ input h. Exact-then x input h _ λ a rest va _ e. returns (keep a va, rw (same a) e);
}
