-- ===== src/Cli/Commands.antt =====
-- The commands that work on the chain (cli/cli.go).
use toyblockchain.Prelude.{
  ℕ, Bool, true, false, ◌||◌, Option, none, some, List, [], ◌∷◌, ◌++◌, if◌then◌else◌, Result, ok,
  err, or_fail, wrap_err, ◌>>=◌,
}
use toyblockchain.Prelude.Int.{ℤ, pos, ltb_ℤ}
use toyblockchain.Prelude.Int64.{add64}
use toyblockchain.Prelude.Bytes.{Bytes, bytes_eq, codes, hex_decode, parse_int, to_lower}
use toyblockchain.Prelude.Dict.{lookup}
use toyblockchain.Platform.{Platform}
use toyblockchain.Block.Types.{Transaction, Block, faucet_account}
use toyblockchain.Block.Transaction.{sign}
use toyblockchain.Ledger.{next_nonce}
use toyblockchain.Chain.Types.{Chain, ChainError, latest}
use toyblockchain.Chain.Retarget.{configure_retarget, next_retarget_height}
use toyblockchain.Chain.Difficulty.{expected_difficulty, set_difficulty}
use toyblockchain.Chain.Methods.{chain_ledger, apply_pool, add_transaction, mine_block}
use toyblockchain.Chain.Fork.{ChainJson, resolve_fork}
use toyblockchain.Chain.Storage.{Disk, SaveError, Saving, save, load}
use toyblockchain.Cli.Types.{
  WalletJson, Cli, Environment, CliError, Line, Reply, answer, failed, settle, usage,
  invalid_number, wallet_not_found, invalid_stored_key, computing_ledger, invalid_pending,
  signing_failed, transaction_rejected, faucet_rejected, chain_failed, neither_on_nor_off,
  loading_candidate, fork_failed, saving_resolved, saving_chain, queued, queued_grant, mined_block,
  difficulty_applies, retarget_settings, next_retarget_disabled, next_retarget,
  next_block_difficulty, retarget_updated, fork_resolved, chain_saved,
}
use toyblockchain.Cli.Wallets.{load_wallet_store}

abbrev pub parse_number : Bytes → Result CliError ℤ
parse_number s = or_fail (parse_int s) invalid_number

-- The transaction that `cmdSend` signs, and that of `cmdFaucet`.
abbrev pub unsigned : Bytes → ℤ → ℕ → Transaction
unsigned recipient amount nonce = record {
  sender = [];
  recipient = recipient;
  amount = amount;
  nonce = nonce;
  public_key = [];
  signature = [];
}

abbrev pub grant : Bytes → ℤ → Transaction
grant recipient amount = record (unsigned recipient amount 0) { sender = faucet_account }

abbrev pub queued_line : Transaction → Line
queued_line t = queued t.sender t.recipient t.amount t.nonce

-- the first argument of `retarget-config`
unfoldable pub parse_switch : Bytes → Result CliError Bool
parse_switch s =
    let word = to_lower s in
    if bytes_eq word (codes "on") || bytes_eq word (codes "true") || bytes_eq word (codes "enabled")
    then ok true
    else if bytes_eq word (codes "off")
        || bytes_eq word (codes "false")
        || bytes_eq word (codes "disabled")
    then ok false
    else err neither_on_nor_off

-- how `cmdResolveFork` and `cmdSave` end
unfoldable pub saved : Chain → Saving → (SaveError → CliError) → Line → Reply
saved chain s failure line = elim s.result [
  | err e ↦ failed chain s.disk (failure e)
  | ok _ ↦ answer chain s.disk (line ∷ [])
]

module _ (p : Platform) (json : WalletJson) (cli : Cli) (env : Environment) where
  unfoldable pub send : Chain → Disk → Bytes → Bytes → Bytes → Result CliError Reply
  send chain disk name recipient text = do
    amount ← parse_number text
    store ← load_wallet_store json env.readable cli.wallet_file disk
    wallet ← or_fail (lookup name store) (wallet_not_found name)
    key ← or_fail (hex_decode wallet.private_key) invalid_stored_key
    ledger ← wrap_err computing_ledger (chain_ledger p chain)
    current ← wrap_err invalid_pending (apply_pool p chain.pending ledger)
    t ←
        wrap_err signing_failed
          (sign p (unsigned recipient amount (next_nonce current wallet.address)) key)
    longer ← wrap_err transaction_rejected (add_transaction p chain t)
    ok (answer longer disk (queued_line t ∷ []))

  unfoldable pub cmd_send : Chain → Disk → List Bytes → Reply
  cmd_send chain disk (name ∷ recipient ∷ text ∷ []) =
      settle chain disk (send chain disk name recipient text)
  cmd_send chain disk _ = failed chain disk usage

module _ (p : Platform) where
  unfoldable pub give : Chain → Disk → Bytes → Bytes → Result CliError Reply
  give chain disk recipient text = do
    amount ← parse_number text
    longer ← wrap_err faucet_rejected (add_transaction p chain (grant recipient amount))
    ok (answer longer disk (queued_grant recipient amount ∷ []))

  unfoldable pub cmd_faucet : Chain → Disk → List Bytes → Reply
  cmd_faucet chain disk (recipient ∷ text ∷ []) = settle chain disk (give chain disk recipient text)
  cmd_faucet chain disk _ = failed chain disk usage

  unfoldable pub mined_reply : Chain → Disk → Result ChainError (Chain × Block) → Reply
  mined_reply chain disk (err e) = failed chain disk (chain_failed e)
  mined_reply chain disk (ok (longer, b)) =
      answer longer disk (mined_block b.height b.hash b.nonce b.difficulty ∷ [])

  -- `none` while `Mine` has not returned
  unfoldable pub cmd_mine : Cli → Environment → Chain → Disk → Option Reply
  cmd_mine cli env chain disk =
      elim (mine_block p chain env.clock cli.mine_limits env.cpus env.events) [
        | none ↦ none
        | some r ↦ some (mined_reply chain disk r)
      ]

unfoldable pub change_difficulty : Chain → Disk → Bytes → Result CliError Reply
change_difficulty chain disk text = do
  difficulty ← parse_number text
  changed ← wrap_err chain_failed (set_difficulty chain difficulty)
  last ← wrap_err chain_failed (latest changed)
  ok (answer changed disk (difficulty_applies difficulty (add64 last.height (pos 1)) ∷ []))

unfoldable pub cmd_set_difficulty : Chain → Disk → List Bytes → Reply
cmd_set_difficulty chain disk (text ∷ []) = settle chain disk (change_difficulty chain disk text)
cmd_set_difficulty chain disk _ = failed chain disk usage

-- What `cmdRetarget` prints; an error is a panic.
unfoldable pub retarget_lines : Chain → Result ChainError (List Line)
retarget_lines chain = do
  next ← next_retarget_height chain
  last ← latest chain
  difficulty ← expected_difficulty chain (add64 last.height (pos 1))
  ok (
      retarget_settings chain.retarget
      ∷ (if ltb_ℤ next (pos 0) then next_retarget_disabled else next_retarget next)
      ∷ next_block_difficulty difficulty
      ∷ [])

-- The lines before those of `cmdRetarget`.
unfoldable pub cmd_retarget : Chain → Disk → List Line → Reply
cmd_retarget chain disk before = elim (retarget_lines chain) [
  | err e ↦ failed chain disk (chain_failed e)
  | ok lines ↦ answer chain disk (before ++ lines)
]

unfoldable pub change_retarget :
    Chain → Disk → Bytes → Bytes → Bytes → Bytes → Bytes → Result CliError Reply
change_retarget chain disk switch interval seconds minimum maximum = do
  enabled ← parse_switch switch
  interval ← parse_number interval
  target_seconds ← parse_number seconds
  minimum ← parse_number minimum
  maximum ← parse_number maximum
  changed ← wrap_err chain_failed (
      configure_retarget chain (record {
        enabled = enabled;
        interval = interval;
        target_block_seconds = target_seconds;
        min_difficulty = minimum;
        max_difficulty = maximum;
      }))
  ok (cmd_retarget changed disk (retarget_updated ∷ []))

unfoldable pub cmd_retarget_config : Chain → Disk → List Bytes → Reply
cmd_retarget_config chain disk (switch ∷ interval ∷ seconds ∷ minimum ∷ maximum ∷ []) =
    settle chain disk (change_retarget chain disk switch interval seconds minimum maximum)
cmd_retarget_config chain disk _ = failed chain disk usage

module _ (p : Platform) (json : ChainJson) (cli : Cli) (env : Environment) where
  unfoldable pub replace_chain : Chain → Disk → Bytes → Result CliError Reply
  replace_chain chain disk path = do
    candidate ← wrap_err loading_candidate (load p json env.readable path disk)
    (adopted, report) ← wrap_err fork_failed (resolve_fork p json chain candidate)
    ok (
        saved adopted (save json env.calls adopted cli.data_file disk) saving_resolved
          (fork_resolved report))

  unfoldable pub cmd_resolve_fork : Chain → Disk → List Bytes → Reply
  cmd_resolve_fork chain disk (path ∷ []) = settle chain disk (replace_chain chain disk path)
  cmd_resolve_fork chain disk _ = failed chain disk usage

  unfoldable pub cmd_save : Chain → Disk → Reply
  cmd_save chain disk =
      saved chain (save json env.calls chain cli.data_file disk) saving_chain
        (chain_saved cli.data_file)
