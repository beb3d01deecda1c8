-- ===== src/Cli/Types.antt =====
-- What the commands work on, and what they answer (cli/cli.go). A line that a command prints is a
-- constructor with the values in it.
use toyblockchain.Prelude.{ℕ, Bool, true, false, Option, List, [], Result, ok, err}
use toyblockchain.Prelude.Int.{ℤ}
use toyblockchain.Prelude.Bytes.{Bytes}
use toyblockchain.Prelude.Dict.{Dict}
use toyblockchain.Block.Types.{Block, Transaction}
use toyblockchain.Block.Transaction.{TransactionError}
use toyblockchain.Block.Mine.{MiningLimits, Event}
use toyblockchain.Ledger.{LedgerError}
use toyblockchain.Chain.Types.{Chain, ChainError, panicked, DifficultyRule, RetargetConfig}
use toyblockchain.Chain.Fork.{ForkError, ForkResolutionResult}
use toyblockchain.Chain.Storage.{Disk, SaveError, SaveCalls, LoadError}

pub record Wallet : Type 0 where
  pub address : Bytes
  pub public_key : Bytes
  pub private_key : Bytes

-- The map of a `WalletStore`; a nil map reads as an empty one.
abbrev pub WalletStore : Type 0
WalletStore = Dict Wallet

-- `json.MarshalIndent` and `json.Unmarshal` of a store; `err tt` where the text is no store.
pub record WalletJson : Type 0 where
  pub marshal_indent : WalletStore → Bytes
  pub unmarshal : Bytes → Result (Unit {0}) WalletStore

-- The configuration, with the chain apart: commands change it.
pub record Cli : Type 0 where
  pub data_file : Bytes
  pub wallet_file : Bytes
  pub mine_limits : MiningLimits

-- What one command meets outside the program.
pub record Environment : Type 0 where
  -- `time.Now` and `runtime.NumCPU` in `MineBlock`
  pub clock : ℤ
  pub cpus : ℤ
  pub events : List Event
  -- what `GenerateKey` reads, `none` where reading fails
  pub random : Option Bytes
  -- a file that exists can be read
  pub readable : Bool
  pub calls : SaveCalls
  -- the calls of the `Save` that the interactive mode makes after the command
  pub autosave_calls : SaveCalls

pub data CliError : Type 0 where
  no_command : CliError
  unknown_command : Bytes → CliError
  usage : CliError
  invalid_number : CliError
  -- the wallet store
  reading_wallets parsing_wallets : CliError
  saving_wallets : SaveError → CliError
  empty_wallet_name : CliError
  wallet_exists wallet_not_found : Bytes → CliError
  generating_key : CliError
  invalid_stored_key : CliError
  -- `Ledger` and `Apply`
  computing_ledger invalid_pending : LedgerError → CliError
  signing_failed : TransactionError → CliError
  transaction_rejected faucet_rejected : ChainError → CliError
  chain_failed : ChainError → CliError
  neither_on_nor_off : CliError
  loading_candidate : LoadError → CliError
  fork_failed : ForkError → CliError
  saving_resolved saving_chain : SaveError → CliError

pub data Line : Type 0 where
  help_text : Line
  wallet_created : Bytes → Bytes → Line
  no_wallets : Line
  -- name, address
  wallet_line : Bytes → Bytes → Line
  -- sender, recipient, amount, nonce
  queued : Bytes → Bytes → ℤ → ℕ → Line
  -- recipient, amount
  queued_grant : Bytes → ℤ → Line
  -- height, hash, nonce, difficulty
  mined_block : ℤ → Bytes → ℕ → ℤ → Line
  -- difficulty, height
  difficulty_applies : ℤ → ℤ → Line
  rule_line : DifficultyRule → Line
  retarget_settings : RetargetConfig → Line
  next_retarget_disabled : Line
  next_retarget : ℤ → Line
  next_block_difficulty : ℤ → Line
  retarget_updated : Line
  accumulated_work : ℕ → Line
  fork_resolved : ForkResolutionResult → Line
  -- `Block.String`
  block_line : Block → Line
  chain_invalid : ChainError → Line
  chain_valid : ℕ → Line
  no_balances : LedgerError → Line
  no_accounts : Line
  balance_line : Bytes → ℤ → Line
  no_pending : Line
  pending_line : Transaction → Line
  chain_saved : Bytes → Line

-- The state after a command, what it has printed and the error that it returns.
pub record Reply : Type 0 where
  pub chain : Chain
  pub disk : Disk
  pub printed : List Line
  pub result : Result CliError (Unit {0})

abbrev pub answer : Chain → Disk → List Line → Reply
answer chain disk printed = record { chain = chain; disk = disk; printed = printed; result = ok tt }

abbrev pub failed : Chain → Disk → CliError → Reply
failed chain disk e = record { chain = chain; disk = disk; printed = []; result = err e }

-- An error before the first change of state.
abbrev pub settle : Chain → Disk → Result CliError Reply → Reply
settle chain disk (err e) = failed chain disk e
settle chain disk (ok r) = r

-- A panic ends the program.
abbrev pub is_panic : Result CliError (Unit {0}) → Bool
is_panic (err (chain_failed (panicked _))) = true
is_panic _ = false
