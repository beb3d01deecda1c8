-- ===== src/Cli.antt =====
-- The package cli: the commands over a chain and a disk, and the interactive mode (cli/cli.go).
pub mod Types
pub mod Wallets
pub mod Commands
pub mod Display
pub mod Run
pub mod Effects
pub mod Changes
pub mod Rules
pub mod Showing
pub mod Saving
pub mod Replies
pub mod Live
pub mod Granting
pub mod Paying
pub mod Files
