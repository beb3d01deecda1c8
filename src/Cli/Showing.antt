-- ===== src/Cli/Showing.antt =====
-- The commands that only print leave all as it is (cli/cli.go).
use toyblockchain.Prelude.{
  true, ok-inj, inr, inl, Result-cases, ◌≡◌, refl, sym, List, [], ◌∷◌, >>=-eq-ok, wrap_err,
}
use toyblockchain.Prelude.Bytes.{Bytes}
use toyblockchain.Platform.{Platform}
use toyblockchain.Ledger.{balance}
use toyblockchain.Chain.Types.{Chain}
use toyblockchain.Chain.Methods.{chain_ledger}
use toyblockchain.Chain.Validation.{validate_chain}
use toyblockchain.Chain.Fork.{ChainJson}
use toyblockchain.Chain.Storage.{Disk}
use toyblockchain.Cli.Types.{
  WalletJson, Cli, Environment, balance_line, Line, Reply, answer, usage, computing_ledger,
}
use toyblockchain.Cli.Wallets.{list_wallets, load_wallet_store, cmd_wallet_list}
use toyblockchain.Cli.Display.{cmd_pending, show_balance, cmd_validate, cmd_balances, cmd_balance}
use toyblockchain.Cli.Run.{
  Command, wallet_list, validate_blocks, balances, balance_of, pending_pool,
}
use toyblockchain.Cli.Effects.{Explained, shown, is_display}
use toyblockchain.Cli.Changes.{failed-Explained, settle-Explained, answer-Quiet}

module _ (p : Platform) (json : ChainJson) (wallets : WalletJson) (cli : Cli)
    (env : Environment) where
  -- The specification at these parameters.
  abbrev Meets : Command → List Bytes → Chain → Disk → Reply → Type 0
  Meets = Explained p json wallets cli env

  -- A command that only prints.
  pub answer-Explained :
      (command : Command) (args : List Bytes) (c : Chain) (disk : Disk) (lines : List Line)
      → is_display command ≡ true
      → Meets command args c disk (answer c disk lines)
  answer-Explained command args c disk lines e =
      shown e refl (answer-Quiet p json wallets cli env c disk lines)

  printed-Explained :
      (command : Command) (args : List Bytes) (c : Chain) (disk : Disk) (lines : List Line)
      (r : Reply)
      → is_display command ≡ true
      → answer c disk lines ≡ r
      → Meets command args c disk r
  printed-Explained command args c disk lines r shows e =
      rw (sym e) (answer-Explained command args c disk lines shows)

  pub cmd_wallet_list-Explained :
      (args : List Bytes) (c : Chain) (disk : Disk)
      → Meets wallet_list args c disk (cmd_wallet_list p wallets cli env c disk)
  unfolding cmd_wallet_list list_wallets
  cmd_wallet_list-Explained args c disk =
      settle-Explained p json wallets cli env wallet_list args c disk
        (list_wallets p wallets cli env c disk) (λ e. tt)
        (λ r e.
          let (store, e1, r1) =
            >>=-eq-ok (load_wallet_store wallets env.readable cli.wallet_file disk) _ e in
          printed-Explained wallet_list args c disk _ r refl (ok-inj r1))

  pub cmd_validate-Explained :
      (args : List Bytes) (c : Chain) (disk : Disk)
      → Meets validate_blocks args c disk (cmd_validate p c disk)
  unfolding cmd_validate
  cmd_validate-Explained args c disk = elim (Result-cases (validate_chain p c)) [
    | inl (u, h) ↦ rw (cmd_validate, h) (answer-Explained validate_blocks args c disk _ refl)
    | inr (x, h) ↦ rw (cmd_validate, h) (answer-Explained validate_blocks args c disk _ refl)
  ]

  pub cmd_balances-Explained :
      (args : List Bytes) (c : Chain) (disk : Disk)
      → Meets balances args c disk (cmd_balances p c disk)
  unfolding cmd_balances
  cmd_balances-Explained args c disk = elim (Result-cases (chain_ledger p c)) [
    | inl (l, h) ↦ rw (cmd_balances, h) (answer-Explained balances args c disk _ refl)
    | inr (x, h) ↦ rw (cmd_balances, h) (answer-Explained balances args c disk _ refl)
  ]

  pub cmd_balance-Explained :
      (c : Chain) (disk : Disk) (args : List Bytes)
      → Meets balance_of args c disk (cmd_balance p c disk args)
  unfolding cmd_balance show_balance
  cmd_balance-Explained c disk (address ∷ []) =
      settle-Explained p json wallets cli env balance_of (address ∷ []) c disk
        (show_balance p c disk address) (λ e. tt)
        (λ r e.
          let (l, e1, r1) = >>=-eq-ok (wrap_err computing_ledger (chain_ledger p c)) _ e in
          printed-Explained balance_of (address ∷ []) c disk
            (balance_line address (balance l address) ∷ []) r refl (ok-inj r1))
  cmd_balance-Explained c disk [] =
      failed-Explained p json wallets cli env balance_of [] c disk usage tt
  cmd_balance-Explained c disk (a ∷ b ∷ args) =
      failed-Explained p json wallets cli env balance_of (a ∷ b ∷ args) c disk usage tt

  pub cmd_pending-Explained :
      (args : List Bytes) (c : Chain) (disk : Disk)
      → Meets pending_pool args c disk (cmd_pending c disk)
  unfolding cmd_pending
  cmd_pending-Explained args c disk = answer-Explained pending_pool args c disk _ refl
