-- ===== src/Parser/Tx.antt =====
-- app/src/parser/transactions.rs: the transactions.
pub mod Head
pub mod Ascii
pub mod Transfer
pub mod Moves
pub mod Subnets
pub mod Blockchain
pub mod Stake
pub mod Assets
pub mod Transaction
