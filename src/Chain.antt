-- ===== src/Chain.antt =====
-- The package chain: blocks, pending pool, difficulty policy and validation (chain/chain.go,
-- chain/retarget.go).
pub mod Types
pub mod Retarget
pub mod Difficulty
pub mod Methods
pub mod Validation
pub mod Growth
pub mod Fork
pub mod Storage
pub mod Lock
