-- ===== src/Cli/Replies.antt =====
-- Every command does what it may (cli/cli.go, `Run`).
use toyblockchain.Prelude.{◌≡◌, refl, sym, some, List, [], ◌∷◌}
use toyblockchain.Prelude.Bytes.{Bytes}
use toyblockchain.Platform.{Platform}
use toyblockchain.Chain.Types.{Chain}
use toyblockchain.Chain.Fork.{ChainJson}
use toyblockchain.Chain.Storage.{Disk}
use toyblockchain.Cli.Types.{
  WalletJson, Cli, Environment, no_command, unknown_command, help_text, Reply,
}
use toyblockchain.Cli.Display.{cmd_pending, cmd_policy, cmd_work, cmd_print}
use toyblockchain.Cli.Run.{
  Command, help, wallet_create, wallet_list, send_transaction, faucet, mine_pending, setdifficulty,
  policy, retarget_info, retarget_config, work, resolvefork, print_chain, validate_blocks, balances,
  balance_of, pending_pool, save_now, unknown, command_of, run_command, run,
}
use toyblockchain.Cli.Effects.{Explained, first_command, arguments}
use toyblockchain.Cli.Changes.{
  cmd_faucet-Explained, cmd_send-Explained, cmd_mine-Explained, failed-Explained,
}
use toyblockchain.Cli.Rules.{
  cmd_set_difficulty-Explained, cmd_retarget-Explained, cmd_retarget_config-Explained,
}
use toyblockchain.Cli.Showing.{
  answer-Explained, cmd_wallet_list-Explained, cmd_validate-Explained, cmd_balances-Explained,
  cmd_balance-Explained, cmd_pending-Explained,
}
use toyblockchain.Cli.Saving.{
  cmd_resolve_fork-Explained, cmd_save-Explained, cmd_wallet_create-Explained,
}

module _ (p : Platform) (json : ChainJson) (wallets : WalletJson) (cli : Cli)
    (env : Environment) where
  -- The specification at these parameters.
  abbrev Meets : Command → List Bytes → Chain → Disk → Reply → Type 0
  Meets = Explained p json wallets cli env

  some-Explained :
      (command : Command) (args : List Bytes) (c : Chain) (disk : Disk) (q : Reply) (r : Reply)
      → Meets command args c disk q
      → some q ≡ some r
      → Meets command args c disk r
  some-Explained command args c disk q r h e = let same : q ≡ r = cc e in rw (sym same) h

  command-Explained :
      (command : Command) (name : Bytes) (args : List Bytes) (c : Chain) (disk : Disk) (r : Reply)
      → run_command p json wallets cli env command name c disk args ≡ some r
      → Meets command args c disk r
  unfolding run_command
  command-Explained help name args c disk r g =
      some-Explained help args c disk _ r
        (answer-Explained p json wallets cli env help args c disk (help_text ∷ []) refl) g
  command-Explained wallet_create name args c disk r g =
      some-Explained wallet_create args c disk _ r
        (cmd_wallet_create-Explained p json wallets cli env c disk args) g
  command-Explained wallet_list name args c disk r g =
      some-Explained wallet_list args c disk _ r
        (cmd_wallet_list-Explained p json wallets cli env args c disk) g
  command-Explained send_transaction name args c disk r g =
      some-Explained send_transaction args c disk _ r
        (cmd_send-Explained p json wallets cli env c disk args) g
  command-Explained faucet name args c disk r g =
      some-Explained faucet args c disk _ r
        (cmd_faucet-Explained p json wallets cli env c disk args) g
  command-Explained mine_pending name args c disk r g =
      cmd_mine-Explained p json wallets cli env args c disk r g
  command-Explained setdifficulty name args c disk r g =
      some-Explained setdifficulty args c disk _ r
        (cmd_set_difficulty-Explained p json wallets cli env c disk args) g
  command-Explained policy name args c disk r g =
      some-Explained policy args c disk (cmd_policy c disk) r
        (answer-Explained p json wallets cli env policy args c disk _ refl) g
  command-Explained retarget_info name args c disk r g =
      some-Explained retarget_info args c disk _ r
        (cmd_retarget-Explained p json wallets cli env args c disk) g
  command-Explained retarget_config name args c disk r g =
      some-Explained retarget_config args c disk _ r
        (cmd_retarget_config-Explained p json wallets cli env c disk args) g
  command-Explained work name args c disk r g =
      some-Explained work args c disk (cmd_work c disk) r
        (answer-Explained p json wallets cli env work args c disk _ refl) g
  command-Explained resolvefork name args c disk r g =
      some-Explained resolvefork args c disk _ r
        (cmd_resolve_fork-Explained p json wallets cli env c disk args) g
  command-Explained print_chain name args c disk r g =
      some-Explained print_chain args c disk (cmd_print c disk) r
        (answer-Explained p json wallets cli env print_chain args c disk _ refl) g
  command-Explained validate_blocks name args c disk r g =
      some-Explained validate_blocks args c disk _ r
        (cmd_validate-Explained p json wallets cli env args c disk) g
  command-Explained balances name args c disk r g =
      some-Explained balances args c disk _ r
        (cmd_balances-Explained p json wallets cli env args c disk) g
  command-Explained balance_of name args c disk r g =
      some-Explained balance_of args c disk _ r
        (cmd_balance-Explained p json wallets cli env c disk args) g
  command-Explained pending_pool name args c disk r g =
      some-Explained pending_pool args c disk (cmd_pending c disk) r
        (cmd_pending-Explained p json wallets cli env args c disk) g
  command-Explained save_now name args c disk r g =
      some-Explained save_now args c disk _ r
        (cmd_save-Explained p json wallets cli env args c disk) g
  command-Explained unknown name args c disk r g =
      some-Explained unknown args c disk _ r
        (failed-Explained p json wallets cli env unknown args c disk (unknown_command name) tt) g

  -- Every reply of `Run` is one of these: an error with chain and disk as before, never from
  -- `help`, `policy`, `work`, `print`, `validate`, `balances`, `pending` or `save`, and from `mine`
  -- and `retarget` only the error of `MineBlock` and that of printing the settings; for a display
  -- command, no error and both as before; for `send`, `faucet`, `mine`, `setdifficulty` and
  -- `retarget-config`, the chain that their one call of `AddTransaction`, `MineBlock`,
  -- `SetDifficulty` or `ConfigureRetarget` gives for their arguments, with the disk as before and
  -- no error but one of `retarget-config` in printing the settings; for `resolvefork`, the chain
  -- that `ResolveFork` gives for the candidate that is loaded, and the disk and the error of saving
  -- it; for `save`, those of saving the chain; and for `wallet-create`, those of saving the store
  -- with a new wallet under a name that was free.
  pub run-Explained :
      (c : Chain) (disk : Disk) (words : List Bytes) (r : Reply)
      → run p json wallets cli env c disk words ≡ some r
      → Explained p json wallets cli env (first_command words) (arguments words) c disk r
  unfolding run
  run-Explained c disk [] r e =
      some-Explained unknown [] c disk _ r
        (failed-Explained p json wallets cli env unknown [] c disk no_command tt) e
  run-Explained c disk (name ∷ args) r e = command-Explained (command_of name) name args c disk r e
