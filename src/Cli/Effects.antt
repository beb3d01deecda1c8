-- ===== src/Cli/Effects.antt =====
-- What each command may do (cli/cli.go), as a specification.
use toyblockchain.Prelude.{
  ◌≡◌, ◌⊎◌, Bool, true, false, some, none, List, [], ◌∷◌, ok, err, wrap_err,
}
use toyblockchain.Prelude.Int.{ℤ}
use toyblockchain.Prelude.Bytes.{Bytes, hex_decode, parse_int, trim_space}
use toyblockchain.Prelude.Dict.{lookup, insert}
use toyblockchain.Platform.{Platform}
use toyblockchain.Block.Types.{Transaction, Block}
use toyblockchain.Block.Transaction.{sign}
use toyblockchain.Ledger.{Ledger, next_nonce}
use toyblockchain.Chain.Types.{Chain, ChainError, RetargetConfig}
use toyblockchain.Chain.Retarget.{configure_retarget}
use toyblockchain.Chain.Difficulty.{set_difficulty}
use toyblockchain.Chain.Methods.{chain_ledger, apply_pool, add_transaction, mine_block}
use toyblockchain.Chain.Fork.{ChainJson, ForkResolutionResult, resolve_fork}
use toyblockchain.Chain.Storage.{Disk, Saving, SaveError, save, load}
use toyblockchain.Cli.Types.{
  Wallet, WalletStore, WalletJson, Cli, Environment, CliError, Reply, chain_failed, saving_resolved,
  saving_chain, saving_wallets,
}
use toyblockchain.Cli.Wallets.{load_wallet_store, save_wallet_store, wallet_of_key}
use toyblockchain.Cli.Commands.{unsigned, grant, parse_switch, retarget_lines}
use toyblockchain.Cli.Run.{
  Command, help, wallet_create, wallet_list, send_transaction, faucet, mine_pending, setdifficulty,
  policy, retarget_info, retarget_config, work, resolvefork, print_chain, validate_blocks, balances,
  balance_of, pending_pool, save_now, unknown, command_of,
}

-- The commands that only print.
abbrev pub is_display : Command → Bool
is_display help = true
is_display wallet_list = true
is_display policy = true
is_display retarget_info = true
is_display work = true
is_display print_chain = true
is_display validate_blocks = true
is_display balances = true
is_display balance_of = true
is_display pending_pool = true
is_display _ = false

-- The command on a command line, and its arguments.
abbrev pub first_command : List Bytes → Command
first_command [] = unknown
first_command (name ∷ args) = command_of name

abbrev pub arguments : List Bytes → List Bytes
arguments [] = []
arguments (name ∷ args) = args

-- The disk and the result are those of a `save`.
pub record Ends (r : Reply) (s : Saving) (failure : SaveError → CliError) : Type 0 where
  pub left : r.disk ≡ s.disk
  pub result : r.result ≡ wrap_err failure s.result

-- The settings that the arguments of `retarget-config` stand for.
pub record Settings (args : List Bytes) (config : RetargetConfig) : Type 0 where
  pub switch : Bytes
  pub interval : Bytes
  pub seconds : Bytes
  pub minimum : Bytes
  pub maximum : Bytes
  pub five : args ≡ switch ∷ interval ∷ seconds ∷ minimum ∷ maximum ∷ []
  pub enabled : parse_switch switch ≡ ok config.enabled
  pub every : parse_int interval ≡ some config.interval
  pub target : parse_int seconds ≡ some config.target_block_seconds
  pub low : parse_int minimum ≡ some config.min_difficulty
  pub high : parse_int maximum ≡ some config.max_difficulty

module _ (p : Platform) (json : ChainJson) (wallets : WalletJson) (cli : Cli)
    (env : Environment) where
  -- When a command may end with an error and no effect: `mine` and `retarget` only with the error of
  -- `MineBlock` or of printing the settings, the display commands without arguments and `save` never.
  abbrev pub CanRefuse : Command → Chain → CliError → Type 0
  CanRefuse mine_pending c e =
      (x : ChainError) × (mine_block p c env.clock cli.mine_limits env.cpus env.events
        ≡ some (err x))
      × (e ≡ chain_failed x)
  CanRefuse retarget_info c e = (x : ChainError) × (retarget_lines c ≡ err x) × (e ≡ chain_failed x)
  CanRefuse help c e = ⊥
  CanRefuse policy c e = ⊥
  CanRefuse work c e = ⊥
  CanRefuse print_chain c e = ⊥
  CanRefuse validate_blocks c e = ⊥
  CanRefuse balances c e = ⊥
  CanRefuse pending_pool c e = ⊥
  CanRefuse save_now c e = ⊥
  CanRefuse _ c e = Unit

  -- The disk is as before and there is no error.
  pub record Quiet (disk : Disk) (r : Reply) : Type 0 where
    pub kept : r.disk ≡ disk
    pub done : r.result ≡ ok tt

  -- The transaction that `send` queues: signed with the key of the wallet, with the next nonce after
  -- the pool.
  pub record Signed (c : Chain) (disk : Disk) (name recipient : Bytes) (amount : ℤ)
      (tx : Transaction) : Type 0 where
    pub store : WalletStore
    pub wallet : Wallet
    pub key : Bytes
    pub confirmed : Ledger
    pub pooled : Ledger
    pub loaded : load_wallet_store wallets env.readable cli.wallet_file disk ≡ ok store
    pub found : lookup name store ≡ some wallet
    pub decoded : hex_decode wallet.private_key ≡ some key
    pub replayed : chain_ledger p c ≡ ok confirmed
    pub applied : apply_pool p c.pending confirmed ≡ ok pooled
    pub signed : sign p (unsigned recipient amount (next_nonce pooled wallet.address)) key ≡ ok tx

  -- The `save` of a store with a new wallet under the trimmed name.
  abbrev pub wallet_saving : Bytes → Bytes → WalletStore → Disk → Saving
  wallet_saving name seed store disk =
      let wallet = wallet_of_key p wallets cli env (p.ed25519_new_key seed) in
      save_wallet_store wallets env.calls (insert (trim_space name) wallet store) cli.wallet_file
        disk

  -- How the reply of a command comes about.
  pub data Explained (command : Command) (args : List Bytes) (c : Chain) (disk : Disk) (r : Reply)
      : Type 0 where
    -- an error, and nothing has changed
    refused :
        (e : CliError)
        → CanRefuse command c e
        → r.result ≡ err e
        → r.chain ≡ c
        → r.disk ≡ disk
        → Explained command args c disk r
    shown : is_display command ≡ true → r.chain ≡ c → Quiet disk r → Explained command args c disk r
    paid :
        (name recipient text : Bytes) (amount : ℤ) (tx : Transaction)
        → command ≡ send_transaction
        → args ≡ name ∷ recipient ∷ text ∷ []
        → parse_int text ≡ some amount
        → Signed c disk name recipient amount tx
        → add_transaction p c tx ≡ ok r.chain
        → Quiet disk r
        → Explained command args c disk r
    given :
        (recipient text : Bytes) (amount : ℤ)
        → command ≡ faucet
        → args ≡ recipient ∷ text ∷ []
        → parse_int text ≡ some amount
        → add_transaction p c (grant recipient amount) ≡ ok r.chain
        → Quiet disk r
        → Explained command args c disk r
    extended :
        (b : Block)
        → command ≡ mine_pending
        → mine_block p c env.clock cli.mine_limits env.cpus env.events ≡ some (ok (r.chain, b))
        → Quiet disk r
        → Explained command args c disk r
    set :
        (text : Bytes) (d : ℤ)
        → command ≡ setdifficulty
        → args ≡ text ∷ []
        → parse_int text ≡ some d
        → set_difficulty c d ≡ ok r.chain
        → Quiet disk r
        → Explained command args c disk r
    -- the error is that the new settings cannot be printed
    configured :
        (config : RetargetConfig)
        → command ≡ retarget_config
        → Settings args config
        → configure_retarget c config ≡ ok r.chain
        → r.disk ≡ disk
        → (r.result ≡ ok tt)
          ⊎ ((e : ChainError) × (retarget_lines r.chain ≡ err e)
              × (r.result ≡ err (chain_failed e)))
        → Explained command args c disk r
    replaced :
        (path : Bytes) (candidate : Chain) (report : ForkResolutionResult)
        → command ≡ resolvefork
        → args ≡ path ∷ []
        → load p json env.readable path disk ≡ ok candidate
        → resolve_fork p json c candidate ≡ ok (r.chain, report)
        → Ends r (save json env.calls r.chain cli.data_file disk) saving_resolved
        → Explained command args c disk r
    recorded :
        (name seed : Bytes) (store : WalletStore)
        → command ≡ wallet_create
        → args ≡ name ∷ []
        → load_wallet_store wallets env.readable cli.wallet_file disk ≡ ok store
        → lookup (trim_space name) store ≡ none
        → env.random ≡ some seed
        → r.chain ≡ c
        → Ends r (wallet_saving name seed store disk) saving_wallets
        → Explained command args c disk r
    written :
        command ≡ save_now
        → r.chain ≡ c
        → Ends r (save json env.calls c cli.data_file disk) saving_chain
        → Explained command args c disk r
