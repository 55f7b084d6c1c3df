-- ===== src/Parser/Tx/Ascii.antt =====
-- `is_ascii` of a byte slice, as the create-asset and create-chain transactions use it.
use ledger_avalanche.Prelude.{◌≡◌, Bool, false, Bytes, leb}
use ledger_avalanche.Parser.Tx.Head.{any}

-- `!bytes.is_ascii()`: a byte is 128 or more.
unfoldable pub any_high : Bytes → Bool
any_high bytes = any (λ b. leb 128 b) bytes

abbrev pub IsAscii : Bytes → Type 0
IsAscii bytes = any_high bytes ≡ false
