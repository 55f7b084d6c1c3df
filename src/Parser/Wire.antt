-- ===== src/Parser/Wire.antt =====
-- The parsers on any width of `usize`, the 32 bits of the device among them: what they accept, with the
-- counts as the bytes tell them.
pub mod Owners
pub mod Outputs
pub mod Chains
pub mod Inputs
pub mod Objects
pub mod BaseTx
pub mod Moves
