-- ===== src/Block.antt =====
-- The package block (block/*.go).
pub mod Create
pub mod Types
pub mod Transaction
pub mod Hash
pub mod Merkle
pub mod Mine
