-- ===== src/Prelude/Words.antt =====
-- Bytes, big-endian words and their ranges.
use Prim.Native.Nat.{ℕ, zero, suc, ◌+◌, ◌*◌, ◌/◌, ◌%◌, ◌^◌, ◌≤◌, ◌<◌}
use mathlib.Core.Path.{◌≡◌, refl, sym, ap, ap₂, ◌∙◌}
use mathlib.Core.List.{List, [], ◌∷◌, ◌++◌, append-nil, append_assoc}
use native.Mathlib.Omega.{arith}
use native.Mathlib.Nat.{pow-suc}
use ledger_avalanche.Prelude.Lists.{length, length-append, All, All-append}

abbrev pub Bytes : Type 0
Bytes = List ℕ

abbrev pub IsByte : ℕ → Type 0
IsByte b = b < 256

abbrev pub IsBytes : Bytes → Type 0
IsBytes bs = All IsByte bs

abbrev pub IsU32 : ℕ → Type 0
IsU32 n = n < 2 ^ 32

abbrev pub IsU64 : ℕ → Type 0
IsU64 n = n < 2 ^ 64

-- `to_be_bytes` of an integer of `width` bytes.
unfoldable pub to_be_bytes : ℕ → ℕ → Bytes
to_be_bytes zero n = []
to_be_bytes (suc width) n = to_be_bytes width (n / 256) ++ (n % 256 ∷ [])

-- The number that a big-endian byte string stands for, behind a prefix that stands for `acc`.
unfoldable pub from_be_bytes : ℕ → Bytes → ℕ
from_be_bytes acc [] = acc
from_be_bytes acc (b ∷ bs) = from_be_bytes (acc * 256 + b) bs

pub length-to_be_bytes : (width n : ℕ) → length (to_be_bytes width n) ≡ width
unfolding to_be_bytes
length-to_be_bytes zero n = refl
length-to_be_bytes (suc width) n =
    length-append (to_be_bytes width (n / 256)) (n % 256 ∷ [])
    ∙ omega (arith, length-to_be_bytes width (n / 256))

pub to_be_bytes-IsBytes : (width n : ℕ) → IsBytes (to_be_bytes width n)
unfolding to_be_bytes
to_be_bytes-IsBytes zero n = tt
to_be_bytes-IsBytes (suc width) n =
    All-append IsByte (to_be_bytes width (n / 256)) (n % 256 ∷ [])
      (to_be_bytes-IsBytes width (n / 256)) (omega arith)

from_be_bytes-append :
    (acc : ℕ) (xs ys : Bytes)
    → from_be_bytes acc (xs ++ ys) ≡ from_be_bytes (from_be_bytes acc xs) ys
unfolding from_be_bytes
from_be_bytes-append acc [] ys = refl
from_be_bytes-append acc (x ∷ xs) ys = from_be_bytes-append (acc * 256 + x) xs ys

-- A number that fits the width is read back from its bytes.
pub from_be_bytes-to_be_bytes :
    (width n : ℕ) → n < 256 ^ width → from_be_bytes 0 (to_be_bytes width n) ≡ n
unfolding from_be_bytes to_be_bytes
from_be_bytes-to_be_bytes zero n h = grind arith
from_be_bytes-to_be_bytes (suc width) n h =
    from_be_bytes-append 0 (to_be_bytes width (n / 256)) (n % 256 ∷ [])
    ∙ rw (from_be_bytes-to_be_bytes width (n / 256) (grind (arith, pow-suc 256 width)))
        (omega arith)

to_be_bytes_shift :
    (k acc b : ℕ) → b < 256 → to_be_bytes (suc k) (acc * 256 + b) ≡ to_be_bytes k acc ++ (b ∷ [])
unfolding to_be_bytes
to_be_bytes_shift k acc b h = ap₂ (λ n d. to_be_bytes k n ++ (d ∷ [])) (omega arith) (omega arith)

-- The bytes behind `k` bytes of the number `acc`.
to_be_bytes-from_be_bytes_acc :
    (k acc : ℕ) (bs : Bytes)
    → IsBytes bs
    → to_be_bytes (k + length bs) (from_be_bytes acc bs) ≡ to_be_bytes k acc ++ bs
unfolding from_be_bytes
to_be_bytes-from_be_bytes_acc k acc [] h =
    ap (λ w. to_be_bytes w acc) (omega arith) ∙ sym (append-nil (to_be_bytes k acc))
to_be_bytes-from_be_bytes_acc k acc (b ∷ bs) h =
    ap (λ w. to_be_bytes w (from_be_bytes (acc * 256 + b) bs)) (omega arith)
    ∙ to_be_bytes-from_be_bytes_acc (suc k) (acc * 256 + b) bs h.1
    ∙ ap (λ xs. xs ++ bs) (to_be_bytes_shift k acc b h.0)
    ∙ append_assoc (to_be_bytes k acc) (b ∷ []) bs

-- Every byte string is the big-endian form of its number.
pub to_be_bytes-from_be_bytes :
    (bs : Bytes) → IsBytes bs → to_be_bytes (length bs) (from_be_bytes 0 bs) ≡ bs
unfolding to_be_bytes
to_be_bytes-from_be_bytes bs h =
    let e : length bs ≡ 0 + length bs = omega arith in
    ap (λ w. to_be_bytes w (from_be_bytes 0 bs)) e ∙ to_be_bytes-from_be_bytes_acc 0 0 bs h

byte_room : (b p : ℕ) → b < 256 → b * p + p ≤ 256 * p
byte_room b p h = grind arith

from_be_bytes-lt_acc :
    (acc : ℕ) (bs : Bytes) → IsBytes bs → from_be_bytes acc bs < (acc + 1) * 256 ^ length bs
unfolding from_be_bytes
from_be_bytes-lt_acc acc [] h = omega arith
from_be_bytes-lt_acc acc (b ∷ bs) h =
    let ih = from_be_bytes-lt_acc (acc * 256 + b) bs h.1 in
    rw (pow-suc 256 (length bs)) (omega (arith, byte_room b (256 ^ length bs) h.0))

pub from_be_bytes-lt : (bs : Bytes) → IsBytes bs → from_be_bytes 0 bs < 256 ^ length bs
from_be_bytes-lt bs h = omega (arith, from_be_bytes-lt_acc 0 bs h)
