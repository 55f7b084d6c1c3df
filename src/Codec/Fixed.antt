-- ===== src/Codec/Fixed.antt =====
-- A byte array of fixed length, which the source reads by `take(LEN)` and `array_ref!(.., 0, LEN)`.
use ledger_avalanche.Prelude.{ℕ, ◌≡◌, Bytes, IsBytes, length}
use ledger_avalanche.Errors.{ok, ◌>>=◌, apdu_unwrap, returns}
use ledger_avalanche.Platform.{Platform, Parser}
use ledger_avalanche.Codec.Format.{Exact, Exact-then}
use ledger_avalanche.Codec.Primitives.{take-Exact}

unfoldable pub take_array : Platform → ℕ → Parser Bytes
take_array p n input = do
  (rem, bs) ← p.take n input
  array ← apdu_unwrap (p.array_ref bs n)
  ok (rem, array)

pub record IsArray (n : ℕ) (bs : Bytes) : Type 0 where
  pub bytes : IsBytes bs
  pub len : length bs ≡ n

pub take_array-Exact : (p : Platform) (n : ℕ) → Exact (take_array p n) (λ bs. bs) (IsArray n)
unfolding take_array
take_array-Exact p n = record {
  complete = λ bs rest v. rw (p.take_ok n bs rest v.len) (rw (p.array_ref_whole n bs v.len));
  sound = λ input h. Exact-then (take-Exact p n) input h _ λ bs rest (bytes, len) _ e.
      rw (p.array_ref_whole n bs len) (returns (record { bytes = bytes; len = len }, e));
}
