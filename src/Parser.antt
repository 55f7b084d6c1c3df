-- ===== src/Parser.antt =====
-- app/src/parser.rs: the parser of transactions.
pub mod Ids
pub mod Network
pub mod Bits
pub mod Outputs
pub mod Objects
pub mod Inputs
pub mod BaseTx
pub mod Import
pub mod Export
pub mod RoundTrip
pub mod Sound
pub mod Wire
pub mod Staking
pub mod Decimal
pub mod Dates
pub mod Operations
pub mod Coreth
pub mod Tx
