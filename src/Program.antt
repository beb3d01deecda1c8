-- ===== src/Program.antt =====
-- The program (main.go): one run of it, from the flags to the end of the process. A panic that ends
-- the interactive mode counts as its end.
pub mod Reuse
pub mod Persistence
use toyblockchain.Prelude.{
  ℕ, ◌^◌, Bool, true, false, Option, none, some, List, [], ◌∷◌, ◌++◌, map, not, if◌then◌else◌,
  Result, ok, err, wrap_err,
}
use toyblockchain.Prelude.Int.{ℤ, pos, ltb_ℤ}
use toyblockchain.Prelude.Int64.{quot}
use toyblockchain.Prelude.Bytes.{Bytes, codes}
use toyblockchain.Prelude.Dict.{lookup, insert, remove}
use toyblockchain.Platform.{Platform}
use toyblockchain.Block.Mine.{MiningLimits, Event}
use toyblockchain.Chain.Types.{Chain, ChainError, ConfigError, RetargetConfig}
use toyblockchain.Chain.Retarget.{validate_config}
use toyblockchain.Chain.Methods.{new_with_retarget}
use toyblockchain.Chain.Fork.{ChainJson}
use toyblockchain.Chain.Storage.{
  Disk, SaveError, SaveCalls, Saving, LoadError, file_not_found, save, load,
}
use toyblockchain.Chain.Lock.{
  LockError, Opened, Attempt, created, exists, denied, acquire_file_lock,
}
use toyblockchain.Cli.Types.{WalletJson, Cli, Environment, CliError, Reply, is_panic}
use toyblockchain.Cli.Run.{run, run_repl}

pub record Flags : Type 0 where
  pub difficulty : ℤ
  pub max_transactions : ℤ
  pub data_file : Bytes
  pub wallet_file : Bytes
  -- `max-attempts`, `max-nonce`, `mining-workers`
  pub mining_limits : MiningLimits
  -- nanoseconds, the timeout not negative
  pub lock_timeout : ℕ
  pub target_block_time : ℤ
  pub retarget_enabled : Bool
  pub retarget_interval : ℤ
  pub min_difficulty : ℤ
  pub max_difficulty : ℤ

-- What one run meets outside the program.
pub record Surroundings : Type 0 where
  pub mkdir_all : Bool
  -- the times at which `AcquireFileLock` starts and looks at its clock
  pub lock_start : ℕ
  pub lock_times : List ℕ
  -- a file can be created in the directory
  pub lock_creatable : Bool
  -- the text with the number of the process
  pub pid_text : Bytes
  pub lock_removable : Bool
  -- `Load`, and where there is no file mining and `Save`
  pub readable : Bool
  pub cpus : ℤ
  pub events : List Event
  pub creation_calls : SaveCalls
  -- the command, and the `Save` after it
  pub command : Environment
  pub save_calls : SaveCalls
  -- the lines of the input
  pub input : List (Bytes × Environment)

pub data MainError : Type 0 where
  making_directory : MainError
  lock_failed : LockError → MainError
  short_block_time : MainError
  invalid_retarget_flags : ConfigError → MainError
  load_failed : LoadError → MainError
  creation_failed : ChainError → MainError
  saving_new_chain saving_changed_chain : SaveError → MainError
  command_failed : CliError → MainError
  command_panicked : CliError → MainError

-- The disk at the end of the process, and the error that `fatal` reports.
pub record Exit : Type 0 where
  pub disk : Disk
  pub result : Result MainError (Unit {0})

-- `fatal`: `os.Exit` runs no deferred call, so the lock file stays.
abbrev pub fatal : Disk → MainError → Exit
fatal disk e = record { disk = disk; result = err e }

module _ (p : Platform) (json : ChainJson) (wallets : WalletJson) (flags : Flags)
    (around : Surroundings) where
  abbrev pub lock_path : Bytes
  lock_path = flags.data_file ++ codes ".lock"

  abbrev pub retarget_config : RetargetConfig
  retarget_config = record {
    enabled = flags.retarget_enabled;
    interval = flags.retarget_interval;
    target_block_seconds = quot flags.target_block_time 1000000000;
    min_difficulty = flags.min_difficulty;
    max_difficulty = flags.max_difficulty;
  }

  abbrev pub application : Cli
  application = record {
    data_file = flags.data_file;
    wallet_file = flags.wallet_file;
    mine_limits = flags.mining_limits;
  }

  -- what `os.OpenFile` says of the lock file
  abbrev pub open_lock : Disk → Opened
  open_lock disk =
      if not around.lock_creatable
      then denied
      else elim (lookup lock_path disk) [ none ↦ created | some _ ↦ exists ]

  abbrev pub lock_attempts : Disk → List Attempt
  lock_attempts disk = map (λ now. record { opened = open_lock disk; now = now }) around.lock_times

  -- the deferred `Release`, whose error is a warning
  abbrev pub release : Disk → Disk
  release disk = if around.lock_removable then remove lock_path disk else disk

  -- A new chain and the `Save` of it.
  unfoldable pub saved_chain : Chain → Saving → Disk × Result MainError Chain
  saved_chain c s = elim s.result [
    | err e ↦ (s.disk, err (saving_new_chain e))
    | ok _ ↦ (s.disk, ok c)
  ]

  unfoldable pub create_chain : Disk → Option (Disk × Result MainError Chain)
  create_chain disk =
      elim (new_with_retarget p flags.difficulty flags.max_transactions flags.mining_limits
        around.cpus around.events retarget_config) [
          | none ↦ none
          | some (err e) ↦ some (disk, err (creation_failed e))
          | some (ok c) ↦
              some (saved_chain c (save json around.creation_calls c flags.data_file disk))
        ]

  unfoldable pub open_chain : Disk → Result LoadError Chain → Option (Disk × Result MainError Chain)
  open_chain disk (ok c) = some (disk, ok c)
  open_chain disk (err file_not_found) = create_chain disk
  open_chain disk (err e) = some (disk, err (load_failed e))

  -- The end of a run with a command on its command line.
  unfoldable pub finish : Reply → Exit
  finish r = elim r.result [
    | err e ↦
        if is_panic r.result
        then record { disk = release r.disk; result = err (command_panicked e) }
        else fatal r.disk (command_failed e)
    | ok _ ↦
        let s = save json around.save_calls r.chain flags.data_file r.disk in
        elim s.result [
          | err e ↦ fatal s.disk (saving_changed_chain e)
          | ok _ ↦ record { disk = release s.disk; result = ok tt }
        ]
  ]

  -- `none` while something mines
  unfoldable pub work_on : List Bytes → Disk → Chain → Option Exit
  work_on [] disk c = elim (run_repl p json wallets application around.input c disk) [
    | none ↦ none
    | some (c', disk') ↦ some (record { disk = release disk'; result = ok tt })
  ]
  work_on (name ∷ args) disk c =
      elim (run p json wallets application around.command c disk (name ∷ args)) [
        | none ↦ none
        | some r ↦ some (finish r)
      ]

  -- The part that holds the lock.
  unfoldable pub with_lock : List Bytes → Disk → Option Exit
  with_lock args disk =
      if ltb_ℤ flags.target_block_time (pos 1000000000)
      then some (fatal disk short_block_time)
      else elim (validate_config retarget_config) [
        | err e ↦ some (fatal disk (invalid_retarget_flags e))
        | ok _ ↦ elim (open_chain disk (load p json around.readable flags.data_file disk)) [
          | none ↦ none
          | some (disk', err e) ↦ some (fatal disk' e)
          | some (disk', ok c) ↦ work_on args disk' c
        ]
      ]

  -- `none` while the program waits for the lock or mines
  unfoldable pub main : List Bytes → Disk → Option Exit
  main args disk =
      if not around.mkdir_all
      then some (fatal disk making_directory)
      else elim (acquire_file_lock around.lock_start flags.lock_timeout (lock_attempts disk)) [
        | none ↦ none
        | some (err e) ↦ some (fatal disk (lock_failed e))
        | some (ok _) ↦ with_lock args (insert lock_path around.pid_text disk)
      ]
