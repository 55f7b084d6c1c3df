-- ===== src/Tests.antt =====
-- Concrete inputs, and the theorems applied to them.
mod Device
mod Data
mod Parsers
mod Display
mod Handlers
mod Uploads
mod Texts
mod Transactions
