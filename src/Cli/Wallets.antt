-- ===== src/Cli/Wallets.antt =====
-- The wallet store on the disk and the commands about it (cli/cli.go).
pub mod Created
use toyblockchain.Prelude.{
  Option, none, some, List, [], ◌∷◌, not, is_empty, if◌then◌else◌, take, Result, ok, err, fail_if,
  wrap_err, ◌>>=◌, ◌>>◌, Bool, true, false,
}
use toyblockchain.Prelude.Bytes.{Bytes, hex_encode, trim_space, sort_names}
use toyblockchain.Prelude.Dict.{lookup, insert, remove}
use toyblockchain.Platform.{Platform, ed25519_public}
use toyblockchain.Block.Transaction.{address_from_public_key}
use toyblockchain.Chain.Types.{Chain}
use toyblockchain.Chain.Storage.{
  Disk, SaveError, SaveCalls, Saving, creating_directory, creating_temporary, writing_temporary,
  replacing_file, temporary, give_up,
}
use toyblockchain.Cli.Types.{
  Wallet, WalletStore, WalletJson, Cli, Environment, CliError, Line, Reply, answer, failed, settle,
  usage, reading_wallets, parsing_wallets, saving_wallets, empty_wallet_name, wallet_exists,
  generating_key, wallet_created, no_wallets, wallet_line,
}

-- What `loadWalletStore` makes of what the file holds.
unfoldable pub read_wallets : WalletJson → Bool → Option Bytes → Result CliError WalletStore
read_wallets json readable none = ok []
read_wallets json false (some text) = err reading_wallets
read_wallets json true (some text) = wrap_err (λ _. parsing_wallets) (json.unmarshal text)

unfoldable pub load_wallet_store : WalletJson → Bool → Bytes → Disk → Result CliError WalletStore
load_wallet_store json readable path disk = read_wallets json readable (lookup path disk)

-- an error that leaves the temporary file, with the disks up to there
abbrev pub leave : List Disk → Disk → SaveError → Saving
leave history disk e = record { history = history; disk = disk; result = err e }

-- `WalletStore.save`, where `os.WriteFile` opens, writes and closes the temporary file.
unfoldable pub save_wallet_text : SaveCalls → Bytes → Bytes → Disk → Saving
unfolding give_up
save_wallet_text calls text path disk =
    let opened = insert (temporary path) [] disk in
    let partial = insert (temporary path) (take calls.written text) disk in
    let written = insert (temporary path) text disk in
    let renamed = insert path text (remove (temporary path) disk) in
    if not calls.mkdir_all
    then give_up disk creating_directory
    else if not calls.open_file
    then give_up disk creating_temporary
    else if not calls.write
    then leave (opened ∷ partial ∷ []) partial writing_temporary
    else if not calls.close
    then leave (opened ∷ partial ∷ written ∷ []) written writing_temporary
    else if not calls.rename
    then leave (opened ∷ partial ∷ written ∷ []) written replacing_file
    else record {
      history = opened ∷ partial ∷ written ∷ renamed ∷ [];
      disk = renamed;
      result = ok tt;
    }

unfoldable pub save_wallet_store : WalletJson → SaveCalls → WalletStore → Bytes → Disk → Saving
save_wallet_store json calls store path disk =
    save_wallet_text calls (json.marshal_indent store) path disk

-- The end of `cmdWalletCreate`: what is printed, or the error of the store's `save`.
unfoldable pub stored : Chain → Saving → Line → Reply
stored chain s line = elim s.result [
  | err e ↦ failed chain s.disk (saving_wallets e)
  | ok _ ↦ answer chain s.disk (line ∷ [])
]

abbrev pub check_unused : Bytes → Option Wallet → Result CliError (Unit {0})
check_unused name none = ok tt
check_unused name (some wallet) = err (wallet_exists name)

module _ (p : Platform) (json : WalletJson) (cli : Cli) (env : Environment) where
  abbrev pub wallet_of_key : Bytes → Wallet
  wallet_of_key key = record {
    address = address_from_public_key p (ed25519_public key);
    public_key = hex_encode (ed25519_public key);
    private_key = hex_encode key;
  }

  -- the call of `GenerateKey` succeeds where there is something to read
  abbrev pub generate_key : Result CliError Bytes
  generate_key = elim env.random [
    | none ↦ err generating_key
    | some seed ↦ ok (p.ed25519_new_key seed)
  ]

  unfoldable pub create_wallet : Chain → Disk → Bytes → Result CliError Reply
  create_wallet chain disk name = do
    fail_if (is_empty name) empty_wallet_name
    store ← load_wallet_store json env.readable cli.wallet_file disk
    check_unused name (lookup name store)
    key ← generate_key
    let wallet = wallet_of_key key
    let saving = save_wallet_store json env.calls (insert name wallet store) cli.wallet_file disk
    ok (stored chain saving (wallet_created name wallet.address))

  unfoldable pub cmd_wallet_create : Chain → Disk → List Bytes → Reply
  cmd_wallet_create chain disk (name ∷ []) =
      settle chain disk (create_wallet chain disk (trim_space name))
  cmd_wallet_create chain disk _ = failed chain disk usage

  -- a line for each name
  abbrev pub wallet_lines : WalletStore → List Bytes → List Line
  wallet_lines store [] = []
  wallet_lines store (name ∷ names) =
      wallet_line name (elim (lookup name store) [ none ↦ [] | some wallet ↦ wallet.address ])
      ∷ wallet_lines store names

  abbrev pub names_of : WalletStore → List Bytes
  names_of [] = []
  names_of ((name, wallet) ∷ store) = name ∷ names_of store

  unfoldable pub list_wallets : Chain → Disk → Result CliError Reply
  list_wallets chain disk = do
    store ← load_wallet_store json env.readable cli.wallet_file disk
    let lines = wallet_lines store (sort_names (names_of store))
    ok (answer chain disk (if is_empty store then no_wallets ∷ [] else lines))

  unfoldable pub cmd_wallet_list : Chain → Disk → Reply
  cmd_wallet_list chain disk = settle chain disk (list_wallets chain disk)
