-- ===== src/Cli/Run.antt =====
-- The dispatch of a command and the interactive mode (cli/cli.go, `Run` and `RunREPL`). The input of
-- the interactive mode is the list of lines that `bufio.Scanner` gives.
use toyblockchain.Prelude.{
  Bool, ◌||◌, Option, none, some, List, [], ◌∷◌, is_empty, if◌then◌else◌, ok, err,
}
use toyblockchain.Prelude.Bytes.{Bytes, bytes_eq, codes, fields, trim_space}
use toyblockchain.Platform.{Platform}
use toyblockchain.Chain.Types.{Chain}
use toyblockchain.Chain.Fork.{ChainJson}
use toyblockchain.Chain.Storage.{Disk, save}
use toyblockchain.Cli.Types.{
  WalletJson, Cli, Environment, Reply, answer, failed, no_command, unknown_command, help_text,
  is_panic,
}
use toyblockchain.Cli.Wallets.{cmd_wallet_create, cmd_wallet_list}
use toyblockchain.Cli.Commands.{
  cmd_send, cmd_faucet, cmd_mine, cmd_set_difficulty, cmd_retarget, cmd_retarget_config,
  cmd_resolve_fork, cmd_save,
}
use toyblockchain.Cli.Display.{
  cmd_policy, cmd_work, cmd_print, cmd_pending, cmd_validate, cmd_balances, cmd_balance,
}

-- the cases of the switch
pub data Command : Type 0 where
  help wallet_create wallet_list send_transaction faucet mine_pending setdifficulty policy : Command
  retarget_info retarget_config work resolvefork print_chain validate_blocks : Command
  balances balance_of pending_pool save_now : Command
  unknown : Command

unfoldable pub command_of : Bytes → Command
command_of name =
    if bytes_eq name (codes "help")
    then help
    else if bytes_eq name (codes "wallet-create")
    then wallet_create
    else if bytes_eq name (codes "wallet-list")
    then wallet_list
    else if bytes_eq name (codes "send") || bytes_eq name (codes "addtx")
    then send_transaction
    else if bytes_eq name (codes "faucet")
    then faucet
    else if bytes_eq name (codes "mine")
    then mine_pending
    else if bytes_eq name (codes "setdifficulty")
    then setdifficulty
    else if bytes_eq name (codes "policy")
    then policy
    else if bytes_eq name (codes "retarget")
    then retarget_info
    else if bytes_eq name (codes "retarget-config")
    then retarget_config
    else if bytes_eq name (codes "work")
    then work
    else if bytes_eq name (codes "resolvefork")
    then resolvefork
    else if bytes_eq name (codes "print")
    then print_chain
    else if bytes_eq name (codes "validate")
    then validate_blocks
    else if bytes_eq name (codes "balances")
    then balances
    else if bytes_eq name (codes "balance")
    then balance_of
    else if bytes_eq name (codes "pending")
    then pending_pool
    else if bytes_eq name (codes "save")
    then save_now
    else unknown

-- How a round of the interactive mode ends.
pub data Turn : Type 0 where
  mining : Turn
  stop next : Chain → Disk → Turn

module _ (p : Platform) (json : ChainJson) (wallets : WalletJson) (cli : Cli) where
  -- one case of the switch, for a command by this name
  unfoldable pub run_command :
      Environment → Command → Bytes → Chain → Disk → List Bytes → Option Reply
  run_command env help name c disk args = some (answer c disk (help_text ∷ []))
  run_command env wallet_create name c disk args =
      some (cmd_wallet_create p wallets cli env c disk args)
  run_command env wallet_list name c disk args = some (cmd_wallet_list p wallets cli env c disk)
  run_command env send_transaction name c disk args = some (cmd_send p wallets cli env c disk args)
  run_command env faucet name c disk args = some (cmd_faucet p c disk args)
  run_command env mine_pending name c disk args = cmd_mine p cli env c disk
  run_command env setdifficulty name c disk args = some (cmd_set_difficulty c disk args)
  run_command env policy name c disk args = some (cmd_policy c disk)
  run_command env retarget_info name c disk args = some (cmd_retarget c disk [])
  run_command env retarget_config name c disk args = some (cmd_retarget_config c disk args)
  run_command env work name c disk args = some (cmd_work c disk)
  run_command env resolvefork name c disk args = some (cmd_resolve_fork p json cli env c disk args)
  run_command env print_chain name c disk args = some (cmd_print c disk)
  run_command env validate_blocks name c disk args = some (cmd_validate p c disk)
  run_command env balances name c disk args = some (cmd_balances p c disk)
  run_command env balance_of name c disk args = some (cmd_balance p c disk args)
  run_command env pending_pool name c disk args = some (cmd_pending c disk)
  run_command env save_now name c disk args = some (cmd_save p json cli env c disk)
  run_command env unknown name c disk args = some (failed c disk (unknown_command name))

  -- `none` while a command mines
  unfoldable pub run : Environment → Chain → Disk → List Bytes → Option Reply
  run env c disk [] = some (failed c disk no_command)
  run env c disk (name ∷ args) = run_command env (command_of name) name c disk args

  -- After a command: its error is printed, or else the chain is saved, with a warning where that
  -- fails.
  unfoldable pub autosave : Environment → Reply → Disk
  autosave env r = elim r.result [
    | err e ↦ r.disk
    | ok _ ↦
        if is_empty cli.data_file
        then r.disk
        else (save json env.autosave_calls r.chain cli.data_file r.disk).disk
  ]

  abbrev pub is_exit : Bytes → Bool
  is_exit line = bytes_eq line (codes "exit") || bytes_eq line (codes "quit")

  -- what comes after a command
  abbrev pub after : Environment → Option Reply → Turn
  after env none = mining
  after env (some r) =
      if is_panic r.result then stop r.chain r.disk else next r.chain (autosave env r)

  -- one round of the loop, on a line of the input
  unfoldable pub turn : Bytes → Environment → Chain → Disk → Turn
  turn text env c disk =
      let line = trim_space text in
      if is_empty line
      then next c disk
      else if is_exit line
      then stop c disk
      else after env (run env c disk (fields line))

  -- The chain and the disk at the end, `none` while a command mines.
  unfoldable pub run_repl : List (Bytes × Environment) → Chain → Disk → Option (Chain × Disk)
  run_repl [] c disk = some (c, disk)
  run_repl ((text, env) ∷ lines) c disk = elim (turn text env c disk) [
    | mining ↦ none
    | stop c' disk' ↦ some (c', disk')
    | next c' disk' ↦ run_repl lines c' disk'
  ]
