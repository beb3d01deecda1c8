-- ===== src/Chain/Growth.antt =====
-- How a valid chain grows (chain/chain.go): what a block at its end needs, and the pending pool.
pub mod Blocks
pub mod Pool
pub mod Mined
pub mod Live
pub mod Accepting
pub mod Genesis
pub mod Policy
