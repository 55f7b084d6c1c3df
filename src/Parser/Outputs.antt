-- ===== src/Parser/Outputs.antt =====
-- app/src/parser/outputs.rs
pub mod Owners
pub mod Secp
pub mod Nft
pub mod Output
pub mod Variants
pub mod Transferable
pub mod Chains
pub mod Wrap
