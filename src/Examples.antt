-- ===== src/Examples.antt =====
-- The theorems at concrete inputs, and runs of the code.
mod Toy
mod Blocks
mod Ledgers
mod Mining
mod Chains
mod Forks
mod Storage
mod Commands
mod Payments
mod Programs
