-- ===== src/Cli/Display.antt =====
-- The commands that only print (cli/cli.go).
use toyblockchain.Prelude.{
  List, [], ◌∷◌, map, length, is_empty, if◌then◌else◌, Result, ok, err, wrap_err, ◌>>=◌,
}
use toyblockchain.Prelude.Int.{ℤ}
use toyblockchain.Prelude.Bytes.{Bytes}
use toyblockchain.Prelude.Dict.{Dict}
use toyblockchain.Platform.{Platform}
use toyblockchain.Ledger.{balance}
use toyblockchain.Chain.Types.{Chain}
use toyblockchain.Chain.Methods.{chain_ledger}
use toyblockchain.Chain.Validation.{validate_chain}
use toyblockchain.Chain.Fork.{total_work}
use toyblockchain.Chain.Storage.{Disk}
use toyblockchain.Cli.Types.{
  CliError, Line, Reply, answer, failed, settle, usage, computing_ledger, rule_line,
  accumulated_work, block_line, chain_invalid, chain_valid, no_balances, no_accounts, balance_line,
  no_pending, pending_line,
}

abbrev pub cmd_policy : Chain → Disk → Reply
cmd_policy chain disk = answer chain disk (map rule_line chain.difficulty_schedule)

abbrev pub cmd_work : Chain → Disk → Reply
cmd_work chain disk = answer chain disk (accumulated_work (total_work chain) ∷ [])

abbrev pub cmd_print : Chain → Disk → Reply
cmd_print chain disk = answer chain disk (map block_line chain.blocks)

unfoldable pub cmd_pending : Chain → Disk → Reply
cmd_pending chain disk =
    answer chain disk
      (if is_empty chain.pending then no_pending ∷ [] else map pending_line chain.pending)

module _ (p : Platform) where
  -- `cmdValidate` prints what is wrong and returns no error.
  unfoldable pub cmd_validate : Chain → Disk → Reply
  cmd_validate chain disk = elim (validate_chain p chain) [
    | err e ↦ answer chain disk (chain_invalid e ∷ [])
    | ok _ ↦ answer chain disk (chain_valid (length chain.blocks) ∷ [])
  ]

  abbrev pub balance_lines : Dict ℤ → List Line
  balance_lines [] = []
  balance_lines ((account, amount) ∷ balances) =
      balance_line account amount ∷ balance_lines balances

  -- Go prints the accounts in any order.
  unfoldable pub cmd_balances : Chain → Disk → Reply
  cmd_balances chain disk = elim (chain_ledger p chain) [
    | err e ↦ answer chain disk (no_balances e ∷ [])
    | ok l ↦
        answer chain disk
          (if is_empty l.balances then no_accounts ∷ [] else balance_lines l.balances)
  ]

  unfoldable pub show_balance : Chain → Disk → Bytes → Result CliError Reply
  show_balance chain disk address = do
    l ← wrap_err computing_ledger (chain_ledger p chain)
    ok (answer chain disk (balance_line address (balance l address) ∷ []))

  unfoldable pub cmd_balance : Chain → Disk → List Bytes → Reply
  cmd_balance chain disk (address ∷ []) = settle chain disk (show_balance chain disk address)
  cmd_balance chain disk _ = failed chain disk usage
