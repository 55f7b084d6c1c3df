-- ===== src/Lib.antt =====
-- The Avalanche application of a Ledger device: the parser of the P-chain's and the X-chain's
-- transactions, what the device displays of them, and the way from the host to the parser and back.
--
-- The host sends buffers. app/src/dispatcher.rs reads one (`handle_apdu`, with
-- app/src/utils/apdu_wrapper.rs), chooses a handler and ends the answer in a status word. A handler
-- that signs holds a shared buffer by app/src/handlers/lock.rs, parses the transaction in it
-- (app/src/parser), hides the outputs that go back to the signer, and shows the items of the rest page
-- by page (`handle_ui_message` of app/src/handlers/utils.rs).
--
-- The files:
--   Prelude: Boolean tests, lists, big-endian words and 64-bit integers over the native numbers.
--   Errors: app/src/parser/error.rs. A Rust `Result` or a panic; `?` is the bind, and an early return
--     is `bail_if`. `Ensures P r` says that `r` is no panic and that `P` holds of what it returns.
--   Platform: nom, bytemuck, arrayref and the width of `usize`, as a record of functions with what
--     their documentation says of them. Every parser takes it as a parameter.
--   Codec: `Exact`, a parser against its format, for the parsers that the others are built of.
--   Parser/Ids, Parser/Network: the fixed-length identifiers, the header and the chains; the table of
--     the chains' aliases is generated at build time and is a parameter.
--   Parser/Outputs, Parser/Inputs: app/src/parser/outputs.rs and its directory, avm_output.rs and
--     pvm_output.rs; app/src/parser/inputs.rs and its directory. `OutputKind` is the trait bound on a
--     chain's output, and `OutputLaws` what the transactions rely on.
--   Parser/Objects: app/src/parser/object_list.rs. An object list keeps bytes and parses them again
--     at each walk. The walks run on fuel, one round for each byte and one more, which is enough since
--     every object takes a byte at least; a round without fuel would be a panic, and is proved not to
--     happen.
--   Parser/BaseTx, Parser/Import, Parser/Export: base_tx_fields.rs, base_import.rs and base_export.rs
--     of app/src/parser/transactions. A closure that mutates captured variables is a function on a
--     state.
--   Parser/Staking: app/src/parser/validator.rs and app/src/parser/subnet_auth.rs.
--   Parser/Operations: app/src/parser/operations.rs and its directory.
--   Parser/Coreth: the export and the import of the C-chain, in app/src/parser/coreth.
--   Parser/Tx: the transactions of app/src/parser/transactions. Tx/Transaction is
--     app/src/parser/transactions.rs, which chooses one by its type id and chain; every feature that
--     the app switches on by default is on.
--   Parser/Decimal, Parser/Dates: the decimal text of integers in app/src/parser/utils.rs, and the date of
--     a time in app/src/parser/utils/time.rs. The loop that takes a number apart runs on the number itself
--     as fuel, which is enough since each round divides it.
--   Parser/Wire: the formats as relations between values and bytes, with the counts as the bytes tell
--     them, for any width of `usize`.
--   Parser/RoundTrip, Parser/Sound: the parsers on encodings, and on any bytes.
--   Handlers: handle_ui_message, the lock, the host's buffer, the dispatch, the status codes, and the
--     upload of a message in packets (app/src/utils/buffer_upload.rs) over a buffer that the lock guards;
--     the buffer itself is a parameter, which grows and keeps what is written.
--   Tests: two platforms, `host` of 64 bits and `device` of 32, and transactions, with the theorems
--     applied to them.
--
-- A `usize` product is taken modulo the number of its values. The device is a 32-bit target, built
-- without overflow checks (thumbv6m-none-eabi, in app/Makefile), and there the product of a count
-- and a length wraps around, so that a count passes for a smaller one (Parser/Outputs/Wrap). So the
-- bytes that are accepted need not be the encoding of the value, and Parser/Wire says what they are
-- instead, on every width from 32 bits on. A theorem that asks for `IsWide`, 2 ^ 37 values of
-- `usize`, is about the same code where `usize` has 64 bits, as where its unit tests run, and does
-- not cover the device. The sums of amounts carry the 64-bit limit of the code. Words are their
-- big-endian bytes, at their width.
--
-- Not modelled: the Ethereum transactions and the EVM handlers, key derivation, hashing and signing, the
-- conversion of signatures, the text of the rendered items,
-- fixed-point numbers and the text of a date, and the code around the system library.
pub mod Prelude
pub mod Errors
pub mod Platform
pub mod Codec
pub mod Parser
pub mod Handlers
pub mod Tests
