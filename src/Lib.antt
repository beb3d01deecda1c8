-- ===== src/Lib.antt =====
-- A proof-of-work blockchain with signed transactions (block/, ledger/, chain/, cli/, main.go).
--
-- Parts. Prelude: lists, integers with the wrap-around of `int64` (Prelude/Int64), byte strings with
-- the functions of `strings`, `strconv`, `sort` and `encoding/hex` that the program calls
-- (Prelude/Bytes), and maps as association lists (Prelude/Dict).
-- Platform: SHA-256, Ed25519 and `json.Marshal` of three structs, which the source takes from Go's
-- libraries, as a record that every definition that calls them takes; `HasDigests` and
-- `HasSignatures` state what is assumed of them.
-- Block: block/block.go and block/merkle*.go. Block/Transaction has `Sign`, `VerifySignature` and
-- `Validate`; Block/Hash has `ComputeHash` and `MeetsDifficulty`; Block/Merkle has
-- `CalculateMerkleRoot`, `GenerateMerkleProof` and `VerifyMerkleProof`; Block/Mine has `Mine`, as a
-- machine whose schedule interleaves the workers, `Mine` itself and the caller's context.
-- Ledger: ledger/ledger.go, where a method that changes the ledger returns the new one.
-- Chain: chain/chain.go, chain/retarget.go and chain/fork.go. Chain/Retarget has the policy,
-- Chain/Difficulty `ExpectedDifficulty` and `SetDifficulty`, Chain/Methods `NewWithRetarget`,
-- `AddTransaction` and `MineBlock`, Chain/Validation `Validate`; Chain/Growth is about sequences of
-- these calls. Chain/Fork has `ResolveFork`, Chain/Storage `Save` and `Load`, and Chain/Lock
-- `AcquireFileLock` and `Release`.
-- Cli: cli/cli.go. Cli/Wallets has the wallet store, Cli/Commands the commands on the chain, Cli/Display
-- those that only print, Cli/Run
-- `Run` and `RunREPL`. A command takes the chain and the disk and gives a reply: both as they are
-- after it, the values that it prints, and its error. Cli/Effects says which replies each command may
-- give.
-- Program: main.go, one run of the program on a disk; its commands and its lock file are those of Cli
-- and Chain/Lock. During a run no other process changes the disk.
-- Examples: the theorems at concrete inputs.
--
-- Conventions. A function keeps the Go name in snake_case. `int` and `int64` are integers and each
-- sum or difference is wrapped to 64 bits; `uint64` is a number, wrapped where the code adds. Strings
-- and byte slices are lists of bytes. Error messages are constructors. The Merkle loops take as fuel
-- the length of a level, which one round at least halves, and `TrimSpace` and `Fields` the length of the
-- text, of which each round drops a byte. A runtime panic of Go is an error value.
-- `time.Now` and the number of processors are arguments. A list of blocks has no nil pointers.
-- `ExpectedDifficulty` counts up to heights below 2^63 - 1, where its counter does not wrap, and its
-- `sort.Slice` is Go's insertion sort of at most twelve rules: with more, rules that share a start
-- height could be in another order.
--
-- A chain is marshalled by a record of functions, of which a theorem assumes that they are inverse
-- where it needs that.
--
-- Not modelled: the layout of what is printed, the statistics in `MineResult`, durability (what is
-- written counts as on the disk, so that `Sync` can only fail), a negative `lock-timeout`, how `bufio.Scanner` makes lines, and the parsing of flags.
pub mod Prelude
pub mod Platform
pub mod Block
pub mod Ledger
pub mod Chain
pub mod Cli
pub mod Program
pub mod Examples
